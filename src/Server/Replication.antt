-- ===== src/Server/Replication.antt =====
-- src/server/server.rs: `replicate`, `handle_append`, `handle_append_res`, `update_rep_peers`.
pub mod Acks
pub mod Batches
use rasputin.Prelude.{
  ℕ, zero, suc, ◌+◌, ◌-◌, ◌%◌, ◌^◌, Bool, true, false, ◌&&◌, Option, none, some, List, [], ◌∷◌,
  Outcome, ok, panic, ◌>>=◌, ltb, leb, ◌==◌, if◌then◌else◌, nat_key, string_key,
}
use rasputin.BTreeMap.{BTreeMap, get, insert}
use rasputin.AckedLog
use rasputin.AckedLog.{PeerId, InMemoryLog, append, ack_up_to, commit_up_to}
use rasputin.Messages.Version
use rasputin.Messages.Mutation
use rasputin.Messages.Mutation.{Mutation}
use rasputin.Messages.Append
use rasputin.Messages.Append.{Append}
use rasputin.Messages.AppendRes
use rasputin.Messages.AppendRes.{AppendRes}
use rasputin.Messages.PeerMsg
use rasputin.Messages.PeerMsg.{PeerMsg}
use rasputin.Platform.{Rocks, Wire, write_peer_msg}
use rasputin.Roles.{Envelope, RepPeer, SocketAddr, Token, is_leader, is_following}
use rasputin.Server.{Server}
use rasputin.Server.Messaging.{reply, send_msg}
use rasputin.Server.Learning.{learn_each}

abbrev pub mutation_txid : Mutation → ℕ
mutation_txid m = Version.get_txid (Mutation.get_version m)

abbrev pub mutation_term : Mutation → ℕ
mutation_term m = Version.get_term (Mutation.get_version m)

-- The batch of `count` txids from `txid` on, with the peer's new `max_sent_txid`: the body of
-- `for txid in …`, where a txid that the log lacks is passed over.
unfoldable pub collect : ℕ → ℕ → InMemoryLog Mutation → ℕ → List Mutation × ℕ
collect zero txid log sent = ([], sent)
collect (suc count) txid log sent = elim (AckedLog.get log txid) [
  | none ↦ collect count (txid + 1) log sent
  | some m ↦
      let (batch, sent') = collect count (txid + 1) log (mutation_txid m) in (m ∷ batch, sent')
]

-- `peer.max_sent_txid + 1..peer.max_sent_txid + 100`, with the sums on `u64`.
unfoldable pub next_batch : InMemoryLog Mutation → ℕ → List Mutation × ℕ
unfolding collect
next_batch log max_sent_txid =
    let from : ℕ = (max_sent_txid + 1) % 2 ^ 64 in
    let to : ℕ = (max_sent_txid + 100) % 2 ^ 64 in collect (to - from) from log max_sent_txid

module _ {Db : Type 0} where
  unfoldable pub append_to : Server Db → RepPeer → List Mutation → PeerMsg
  append_to s peer batch =
      let a1 = Append.set_from_txid Append.new peer.last_accepted_txid in
      let a2 = Append.set_from_term a1 peer.last_accepted_term in
      let a3 = Append.set_last_learned_txid a2 s.rep_log.last_learned_txid in
      let a4 = Append.set_batch a3 batch in
      PeerMsg.set_append (PeerMsg.set_srvid PeerMsg.new s.id) a4

  unfoldable pub update_rep_peers : Server Db → PeerId → Option SocketAddr → Token → Server Db
  update_rep_peers s peer_id addr tok =
      if s.id == peer_id then s else elim (get peer_id s.rep_peers) [
        | none ↦ record s {
          rep_peers =
              insert peer_id
                (record {
                  last_accepted_term = s.rep_log.last_accepted_term;
                  last_accepted_txid = s.rep_log.last_accepted_txid;
                  max_sent_txid = s.rep_log.last_accepted_txid;
                  tok = tok;
                  id = peer_id;
                  addr = addr;
                })
                s.rep_peers;
        }
        | some old ↦ record s {
          rep_peers =
              insert peer_id
                (record {
                  last_accepted_term = old.last_accepted_term;
                  last_accepted_txid = old.last_accepted_txid;
                  max_sent_txid = old.max_sent_txid;
                  tok = tok;
                  id = peer_id;
                  addr = addr;
                })
                s.rep_peers;
        }
      ]

module _ {Db : Type 0} ⦃W : Wire⦄ where
  -- `for (_, peer) in self.rep_peers.iter_mut()`: the server after the sends, and the peers.
  unfoldable pub send_appends :
      Server Db → BTreeMap PeerId RepPeer → Outcome (Server Db × BTreeMap PeerId RepPeer)
  unfolding next_batch append_to
  send_appends s [] = ok (s, [])
  send_appends s ((key, peer) ∷ rest) = do
    let (batch, sent) = next_batch s.rep_log peer.max_sent_txid
    msg ← write_peer_msg (append_to s peer batch)
    (s', rest') ←
        send_appends (send_msg s (record { address = peer.addr; tok = peer.tok; msg = msg })) rest
    ok (s', (key, record peer { max_sent_txid = sent }) ∷ rest')

module _ {Db : Type 0} ⦃R : Rocks Db⦄ ⦃W : Wire⦄ where
  -- `for mutation in mutations`
  unfoldable pub append_own : Server Db → List Mutation → Outcome (Server Db)
  append_own s [] = ok s
  append_own s (m ∷ rest) = do
    log ← append s.rep_log (mutation_term m) (mutation_txid m) m
    let (log', accepted) = ack_up_to log (mutation_txid m) s.id
    s' ← learn_each (record s { rep_log = log' }) accepted
    append_own s' rest

  unfoldable pub replicate : Server Db → List Mutation → Outcome (Server Db)
  unfolding append_own send_appends
  replicate s [] = ok s
  replicate s (m ∷ rest) = do
    s' ← append_own s (m ∷ rest)
    (s'', peers) ← send_appends s' s'.rep_peers
    ok (record s'' { rep_peers = peers })

-- `for mutation in append.get_batch()`: the log, `max_term` and `max_txid` after it.
unfoldable pub accept_batch :
    InMemoryLog Mutation → ℕ → ℕ → List Mutation → Outcome (InMemoryLog Mutation × ℕ × ℕ)
accept_batch log max_term max_txid [] = ok (log, max_term, max_txid)
accept_batch log max_term max_txid (m ∷ rest) =
    let skipped = accept_batch log max_term max_txid rest in
    let accepted = append log (mutation_term m) (mutation_txid m) m >>= λ log'.
    accept_batch log' (mutation_term m) (mutation_txid m) rest in
    if ltb (mutation_term m) max_term
    then panic
    else if leb (mutation_txid m) max_txid
    then skipped
    else accepted

unfoldable pub links : InMemoryLog Mutation → Append → Bool
links log append =
    Append.get_from_term append == log.last_accepted_term
    && Append.get_from_txid append == log.last_accepted_txid

module _ {Db : Type 0} where
  -- The reply that is set up before any test.
  abbrev pub append_reply : Server Db → AppendRes → PeerMsg
  append_reply s res = PeerMsg.set_append_res (PeerMsg.set_srvid PeerMsg.new s.id) res

abbrev pub acknowledge : RepPeer → AppendRes → RepPeer
acknowledge peer res = record peer {
  last_accepted_term = AppendRes.get_last_accepted_term res;
  last_accepted_txid = AppendRes.get_last_accepted_txid res;
  max_sent_txid =
      if AppendRes.get_accepted res
      then peer.max_sent_txid
      else AppendRes.get_last_accepted_txid res;
}

abbrev pub accepted_res : Bool → ℕ → ℕ → AppendRes
accepted_res accepted term txid =
    AppendRes.set_last_accepted_txid
      (AppendRes.set_last_accepted_term (AppendRes.set_accepted AppendRes.new accepted) term) txid

module _ {Db : Type 0} ⦃R : Rocks Db⦄ ⦃W : Wire⦄ where
  -- The branch of an append that links: the server and the reply's `AppendRes`.
  unfoldable pub accept_append : Server Db → Append → Outcome (Server Db × AppendRes)
  unfolding accept_batch
  accept_append s append = do
    (log, max_term, max_txid) ←
        accept_batch s.rep_log s.rep_log.last_accepted_term s.rep_log.last_accepted_txid
          (Append.get_batch append)
    let (log', learned) = commit_up_to log (Append.get_last_learned_txid append)
    s' ← learn_each (record s { rep_log = log'; max_generated_txid = max_txid }) learned
    ok (s', accepted_res true max_term max_txid)

  -- The body of `if self.state.is_following(…)`.
  unfoldable pub follow_append : Server Db → Append → Outcome (Server Db × AppendRes)
  unfolding accept_append links
  follow_append s append =
      if links s.rep_log append
      then accept_append s append
      else ok (s, accepted_res false s.rep_log.last_accepted_term s.rep_log.last_accepted_txid)

  unfoldable pub handle_append : Server Db → Envelope → PeerId → Append → Outcome (Server Db)
  unfolding follow_append
  handle_append s env peer_id append = if is_leader s.state then ok s else do
    (s', res) ←
        if is_following s.state peer_id then follow_append s append else ok (s, AppendRes.new)
    msg ← write_peer_msg (append_reply s res)
    ok (reply s' env msg)

  unfoldable pub handle_append_res : Server Db → PeerId → AppendRes → Outcome (Server Db)
  handle_append_res s peer_id res =
      if is_leader s.state
      then elim (get peer_id s.rep_peers) [
        | none ↦ ok s
        | some peer ↦
            let (log, accepted) =
              ack_up_to s.rep_log (AppendRes.get_last_accepted_txid res) peer_id in
            learn_each
              (record s {
                rep_peers = insert peer_id (acknowledge peer res) s.rep_peers;
                rep_log = log;
              })
              accepted
      ]
      else ok s
