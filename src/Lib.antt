-- ===== src/Lib.antt =====
-- Rasputin, a replicated key-value store: a model of its server and the theorems about it.
--
-- A rasputin server (src/server/server.rs) keeps a store on disk, a replication log and a lease.
-- Three threads take turns at it behind one lock: one hands it the envelopes of the other servers,
-- one those of the clients, one ticks every 400 to 500 ms. On a tick without a valid lease the
-- server stands for election. A candidate with acks from a majority of the peers leads for the rest
-- of its lease, and extends it in the same way. A leader gives each write of a client a txid,
-- appends it to its log, sends it to the peers that voted, and learns it, which applies it to the
-- store and answers the client, once the log has a quorum of acks. A follower appends what the
-- leader sends, and learns up to where the leader has learned.
--
-- A fourth thread runs the event loop over the sockets (src/server/traffic_cop.rs). It cuts what a
-- connection reads into messages, hands them to the server as envelopes, frames what the server
-- sends, queues it on the connection or on those of all peers, and dials the peers that have none.
-- A client (src/client/mod.rs) tries the servers in turn until one answers its request.
--
-- The files, and the code that they are about:
--   Prelude, Prelude/..      shared names, tests on numbers and keys, lists, panics (`Outcome`)
--   BTreeMap                 `std::collections::BTreeMap`, as a list in the order of its keys
--   Messages, Messages/..    src/serialization.rs: a record for each message of
--                            include/serialization.proto, with those accessors that the server
--                            and the client call; an unset field is `none`, and a getter returns
--                            its default
--   Protobuf, Protobuf/..    what src/serialization.rs calls of the library `protobuf`, as
--                            parameters with their laws, and the shapes of code that its functions
--                            are made of: arms that read a field (/Merging), sizes and writes
--                            (/Sizes); what is read of what was written (/Rounds, /Nested,
--                            /Fields), and that a loop ends (/Ends)
--   Serialization            src/serialization.rs: `merge_from`, `compute_size` and
--                            `write_to_with_cached_sizes` of each message, in a file of its name;
--                            what `write_to_bytes` and `parse_from_bytes` of the library make of
--                            them (/Library), messages between servers (/Delivery) and between a
--                            client and a server (/Answers), lengths (/Sizes), bytes of any kind
--                            (/Parsing), an election (/Elections) and a write (/Commits) over the
--                            wire between two servers
--   AckedLog                 src/server/acked_log.rs: `InMemoryLog` with `append`, `get`,
--                            `ack_up_to`, `commit_up_to`; its children have the proofs, and
--                            /View has `ViewableLog`
--   Platform                 what the server calls elsewhere, as parameters: the clock type of
--                            `time`, the store `rocksdb`, the wire format of `protobuf`
--   Roles                    src/server/mod.rs: constants, `Envelope`, `RepPeer`, `State`
--   Server                   src/server/server.rs: the fields of `Server`; then
--     Server/Messaging       `new_txid`, `reply`, `peer_broadcast`
--     Server/Learning        `learn`, with the store in /Store and what it leaves alone in /Frame
--     Server/Replication     `update_rep_peers`, `replicate`, `handle_append`, `handle_append_res`;
--                            how the batches of one fill the log of the other in /Batches
--     Server/Voting          `should_grant_vote`, `handle_vote_req`, `handle_vote_res`, `cron`;
--                            one turn (/Leases), and runs: who wins (/Winning, with /Polls,
--                            /Turns and /States), a whole election (/Standing), a lease (/Nacks)
--     Server/Clients         `handle_cli`
--     Server/Running         `handle_peer`, the start and the turns of the three threads of `run`
--     Server/Invariant       the invariant, with the handlers (/Replicating, /Voting,
--                            /Clients, /Running), panics (/Safety), runs (/Liveness)
--   Codec                    src/codec.rs: `Framed`, `usize_to_array`, `array_to_usize`; then
--     Codec/Feed, /Cuts      the decoder one byte at a time, and over buffers that are cut
--     Codec/Stacks           `Codec`, `CodecStack`
--   ServerConn               src/server/server_conn.rs: a connection with its buffers; what it
--                            writes (/Writing, /Delivery) and hands on (/Reading)
--   ConnSet                  src/server/connset.rs: the connections of a listening socket, over a
--                            slab; what it knows of them (/Known, /Joining)
--   TrafficCop               src/server/traffic_cop.rs: `new`, `timeout`, `notify`, and `ready` in
--                            /Ready; an invariant (/Linked) over the calls of the event loop
--                            (/Turns, /Dialling, /Sending) and runs of them (/Loop);
--                            what `notify` queues (/Broadcast), on
--                            sockets that differ (/Sockets, /Growth, /Apart, /Once)
--   Clock                    src/clock.rs: `TestClock`
--   Client                   src/client/mod.rs: `req`, `send_to`, `recv_into`, and the four calls
--                            in /Calls
--   RangeBounds              src/range_bounds.rs
--   Examples, Examples/..    concrete servers, logs and streams on which the theorems are applied
--
-- How code becomes a definition. A handler takes the server and returns the new one in `Outcome`,
-- which is `panic` where the code panics (an assertion, an `unwrap`, `panic!`). What is sent is
-- appended to `rpc_tx`. The `k`-th call of `clock.now()` in a handler's text reads `now k`, any
-- sequence of times, so that a theorem says in its hypotheses where the clock must not step back. A
-- `u64` is a natural number with the wrap-around of a release build written out where it is added
-- to. A long function is cut at its branches into definitions that it calls. Logging is left out;
-- an argument of a log line is kept where it can panic (the address in `handle_vote_res`).
--
-- Loops are structural recursion, but for the `loop` of `Framed::decode`: it has the length of the
-- buffer and one round more as fuel, which is enough since every round but the last reads a byte.
--
-- The `while` loop of a `merge_from` has the number of bytes and one round more, enough for the same
-- reason.
--
-- Messages. The size that is cached in a message is the one that `compute_size` returns, which the
-- library calls before it writes. Unknown fields are kept as a list.
--
-- Input and output. What the event loop, a socket or the slab of `mio` answers is an argument or a
-- parameter with laws: a call of `ready` is given the answers of all calls in it, `timeout` and
-- `req` one for each server that is dialled. The loops of the client that wait for a socket go over
-- a list of its answers; where the list ends the loop still runs. A `TcpStream` is the bytes that
-- were written to it.
--
-- Not modelled: logging (src/logging/mod.rs), opening the store (src/server/rocksdb.rs), the two
-- programs of src/bin, `RealClock`, descriptors, reflection and unused accessors of
-- src/serialization.rs, the allocation of buffers, the threads and channels themselves,
-- `run_event_loop`, which starts the loop of `mio`, and its timers. A cluster of servers
-- is not composed beyond single exchanges: most theorems hold for one server, whatever it is sent.
pub mod Prelude
pub mod BTreeMap
pub mod Messages
pub mod AckedLog
pub mod Platform
pub mod Roles
pub mod Server
pub mod Codec
pub mod RangeBounds
pub mod ServerConn
pub mod ConnSet
pub mod TrafficCop
pub mod Clock
pub mod Client
pub mod Protobuf
pub mod Serialization
pub mod Examples
