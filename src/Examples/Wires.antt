-- ===== src/Examples/Wires.antt =====
-- Messages of src/serialization.rs in a plain coding, between two servers and from a client to a
-- leader and back.
use rasputin.Prelude.{
  ℕ, ◌≡◌, ◌≢◌, refl, arith, Bytes, true, false, some, List, [], ◌∷◌, map, take, drop, length, ok,
  panic,
}
use rasputin.Messages.PeerMsg.{PeerMsg}
use rasputin.Messages.PeerMsg
use rasputin.Messages.CliReq.{CliReq}
use rasputin.Messages.CliReq
use rasputin.Messages.CliRes.{CliRes}
use rasputin.Messages.CliRes
use rasputin.Messages.GetRes
use rasputin.Platform.{Wire}
use rasputin.Roles.{Envelope, SocketAddr}
use rasputin.Codec.{encode, usize_to_array}
use rasputin.Codec.Frames.{encode_each}
use rasputin.ServerConn
use rasputin.ServerConn.{ServerConn, io_ok, room, received}
use rasputin.ServerConn.Writing.{joined}
use rasputin.ServerConn.Delivery.{Traffic, queues, writes, sent, carry}
use rasputin.ServerConn.Reading.{absorb, envelope}
use rasputin.Server.Messaging.{reply}
use rasputin.Server.Running.{peer_request, cli_request, handle}
use rasputin.Server.Clients.{handle_cli}
use rasputin.Client.{ClientWire, Client, finished, Attempt, req}
use rasputin.Client.Streams.{roomy}
use rasputin.Client.Streams.{roomy}
use rasputin.Client.Streams.{roomy}
use rasputin.Protobuf.{failed, spent}
use rasputin.Serialization.PeerMsg.{
  merge_from as merge_peer, write_to_with_cached_sizes as write_peer, compute_size as peer_size,
}
use rasputin.Serialization.CliReq.{
  merge_from as merge_req, write_to_with_cached_sizes as write_req, compute_size as req_size,
}
use rasputin.Serialization.CliRes.{
  merge_from as merge_res, write_to_with_cached_sizes as write_res, compute_size as res_size,
}
use rasputin.Serialization.VoteReq.{
  write_to_with_cached_sizes as write_vote, compute_size as vote_size,
}
use rasputin.Serialization.GetReq.{
  write_to_with_cached_sizes as write_get, compute_size as get_size,
}
use rasputin.Serialization.GetRes.{
  write_to_with_cached_sizes as write_got, compute_size as got_size,
}
use rasputin.Protobuf.Sizes.{write_each, size_each}
use rasputin.Serialization.Delivery.{IsPeerMsg, IsCliReq, IsCliRes, absorb-carry}
use rasputin.Serialization.Answers.{got, parse_cli_req-encode_cli_req, req-handle_cli}
use rasputin.Serialization.Parsing.{merge_from_ends, handle_malformed}
use rasputin.Examples.Characters.{codes}
use rasputin.Examples.Streams.{from_memory, from_memory_laws}
use rasputin.Examples.{whole_seconds, memory, leading, still, at, asks_vote, get_req}
use rasputin.Serialization.Library.{checked, WireLaws, ClientWireLaws}
use rasputin.Serialization.Sizes.{length-write_to_with_cached_sizes}
use rasputin.Examples.Coding.{plain, plain_laws}
use rasputin.Examples.Shrinking.{plain_ends}

-- The library, by the plain coding.
instance abbrev pub wire : Wire
wire = record {
  encode_peer = write_peer;
  parse_peer = λ b. checked PeerMsg.is_initialized (merge_peer PeerMsg.new b);
  encode_cli_res = write_res;
  parse_cli_req = λ b. checked CliReq.is_initialized (merge_req CliReq.new b);
}

pub wire_laws : WireLaws wire
wire_laws = record {
  encode_peer_lem = λ m h. refl;
  parse_peer_lem = λ b. refl;
  encode_cli_res_lem = λ m h. refl;
  parse_cli_req_lem = λ b. refl;
}

instance abbrev client_wire : ClientWire
client_wire = record {
  encode_cli_req = write_req;
  parse_cli_res = λ b. checked CliRes.is_initialized (merge_res CliRes.new b);
}

client_wire_laws : ClientWireLaws client_wire
client_wire_laws = record { encode_cli_req_lem = λ m h. refl; parse_cli_res_lem = λ b. refl }

-- A server asks for a vote; the bytes are in two pieces, the second of which is still queued.
asks_vote-IsPeerMsg : IsPeerMsg asks_vote
unfolding write_peer write_vote vote_size write_each size_each codes
asks_vote-IsPeerMsg = record {
  set = refl;
  words = ((omega arith, omega arith, tt, tt, omega arith, refl), tt, tt, tt, refl);
  short = omega arith;
}

abbrev response : CliRes
response = got get_req (9 ∷ []) 4

get_req-IsCliReq : IsCliReq get_req
unfolding write_req write_get get_size write_each size_each
get_req-IsCliReq = record {
  set = refl;
  words = (omega arith, refl, tt, tt, tt, tt, refl);
  short = omega arith;
}

response-IsCliRes : IsCliRes response
unfolding write_res write_got got_size write_each size_each rasputin.Server.Clients.get_result
response-IsCliRes = record {
  set = refl;
  words = (omega arith, (omega arith, refl), tt, tt, tt, tt, tt, refl);
  short = omega arith;
}

parse_cli_req-encode_cli_req_example :
    (wire.parse_cli_req (client_wire.encode_cli_req get_req) ≡ some get_req)
    × (client_wire.parse_cli_res (wire.encode_cli_res response) ≡ some response)
parse_cli_req-encode_cli_req_example =
    parse_cli_req-encode_cli_req plain_laws wire_laws client_wire_laws get_req response
      get_req-IsCliReq response-IsCliRes

length-write_to_with_cached_sizes_example :
    (peer_size asks_vote ≡ length (write_peer asks_vote))
    × (req_size get_req ≡ length (write_req get_req))
    × (res_size response ≡ length (write_res response))
length-write_to_with_cached_sizes_example =
    length-write_to_with_cached_sizes plain_laws asks_vote get_req response
      asks_vote-IsPeerMsg.short get_req-IsCliReq.short response-IsCliRes.short

merge_from_ends_example :
    (merge_peer PeerMsg.new (10 ∷ 200 ∷ 1 ∷ []) ≢ failed spent)
    × (merge_req CliReq.new (10 ∷ 200 ∷ 1 ∷ []) ≢ failed spent)
    × (merge_res CliRes.new (10 ∷ 200 ∷ 1 ∷ []) ≢ failed spent)
merge_from_ends_example =
    merge_from_ends plain_ends PeerMsg.new CliReq.new CliRes.new (10 ∷ 200 ∷ 1 ∷ [])

abbrev bad_peer : Envelope
bad_peer = record { address = some "b:1"; tok = 12; msg = 16 ∷ 1 ∷ [] }

abbrev bad_client : Envelope
bad_client = record { address = some "d:1"; tok = 1025; msg = 24 ∷ [] }

handle_malformed_example :
    (handle leading (still 50, peer_request bad_peer) ≡ panic)
    × (handle leading (still 50, cli_request bad_client) ≡ panic)
handle_malformed_example =
    handle_malformed plain_laws wire_laws leading (still 50) bad_peer bad_client 2 3 (1 ∷ []) []
      (omega arith, omega arith) (omega arith, omega arith) refl refl

abbrev traffic : List Traffic
traffic = queues (write_peer asks_vote) ∷ writes (room 9) (io_ok tt) ∷ []

abbrev asking : ServerConn
asking = record ServerConn.new { token = some 2 }

abbrev asked : ServerConn
asked = record ServerConn.new { token = some 3 }

-- The connection once the first nine bytes are written.
abbrev half_written : ServerConn
half_written = record asking {
  sock = take 9 (encode (write_peer asks_vote));
  res_bufs = drop 9 (encode (write_peer asks_vote)) ∷ [];
  res_remaining = length (drop 9 (encode (write_peer asks_vote)));
  interest = record { readable = false; writable = true; error = false; hup = true };
}

abbrev cuts : List Bytes
cuts = take 3 (encode (write_peer asks_vote)) ∷ drop 3 (encode (write_peer asks_vote)) ∷ []

absorb-carry_example :
    (envelopes : List Envelope) × (absorb asked "a:1" cuts ≡ ok (asked, envelopes))
    × (envelopes ≡ map (envelope "a:1" 3) (sent traffic))
    × (map (λ (e : Envelope). wire.parse_peer e.msg) envelopes ≡ map some (asks_vote ∷ []))
unfolding write_peer write_vote vote_size write_each size_each codes encode usize_to_array carry
    joined encode_each ServerConn.writable ServerConn.write_buf ServerConn.push_back
    ServerConn.count_written ServerConn.queue_frame
absorb-carry_example =
    absorb-carry plain_laws wire_laws from_memory_laws 2 3 "a:1" (asks_vote ∷ []) traffic
      half_written asked cuts (asks_vote-IsPeerMsg, tt) (tt, tt) refl (omega arith) refl refl refl
      refl

abbrev client : Client
client = record { servers = "a:1" ∷ []; req_counter = 7 }

abbrev asks_get : Envelope
asks_get = record { address = some "d:1"; tok = 1025; msg = write_req get_req }

abbrev net : ℕ → SocketAddr → Attempt
net k peer = record {
  connected = io_ok tt;
  writes = room 100 ∷ [];
  reads =
      received (take 5 (encode (write_res response)))
      ∷ received (drop 5 (encode (write_res response)))
      ∷ [];
}

req-handle_cli_example :
    (handle_cli leading asks_get ≡ ok (reply leading asks_get (write_res response)))
    × (req client net get_req ≡ ok (finished (io_ok response)))
    × (GetRes.get_value (CliRes.get_get response) ≡ 9 ∷ [])
unfolding write_req write_get get_size write_each size_each encode usize_to_array joined roomy
    write_res write_got got_size rasputin.Server.Clients.get_result
req-handle_cli_example =
    req-handle_cli plain_laws wire_laws client_wire_laws from_memory_laws leading asks_get (at 100)
      3 2 [] (9 ∷ []) client net get_req [] [] "a:1" get_req-IsCliReq refl refl refl refl
      response-IsCliRes refl tt refl (tt, tt) (omega arith) refl
