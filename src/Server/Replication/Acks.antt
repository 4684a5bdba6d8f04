-- ===== src/Server/Replication/Acks.antt =====
-- `handle_append_res` and `handle_append` of src/server/server.rs, and what they learn.
use rasputin.Prelude.{
  ℕ, ◌≡◌, ◌≤◌, ◌<◌, ◌+◌, ◌++◌, refl, ap, arith, [], ◌∷◌, ok, true, false, none, some, string_key,
  nat_key, length, contains, Returns-map, Returns-ok,
}
use rasputin.BTreeMap.{BTreeMap, get, insert}
use rasputin.AckedLog
use rasputin.AckedLog.{
  PeerId, InMemoryLog, LogEntry, Acked, ack_up_to, commit_up_to, take_up_to, learn_entry,
}
use rasputin.AckedLog.Bounds.{IsValid}
use rasputin.AckedLog.Quorum.{ack_up_to_early}
use rasputin.AckedLog.Commit.{get-commit_up_to_below}
use rasputin.Messages.Mutation.{Mutation}
use rasputin.Messages.Append
use rasputin.Messages.Append.{Append}
use rasputin.Messages.AppendRes
use rasputin.Messages.AppendRes.{AppendRes}
use rasputin.Messages.PeerMsg
use rasputin.Platform.{Rocks, Wire, write_peer_msg}
use rasputin.Roles.{Envelope, RepPeer, is_leader, is_following}
use rasputin.Server.{Server}
use rasputin.Server.Messaging.{reply, send_msg}
use rasputin.Server.Learning.{learn, learn_mutation, learn_each}
use rasputin.Server.Learning.Frame.{Frame, learn_each-Frame}
use rasputin.Server.Replication.{
  accept_append, accept_batch, links, follow_append, handle_append, acknowledge, handle_append_res,
  append_reply, accepted_res,
}

-- The only pending entry is taken off the log by a commit above it.
commit_one :
    (log : InMemoryLog Mutation) (n j : ℕ) (ent : Acked (LogEntry Mutation))
    → IsValid log
    → log.pending ≡ (j, ent) ∷ []
    → j < n
    → ((commit_up_to log n).1 ≡ (ent.inner.term, j) ∷ [])
      × ((commit_up_to log n).0.pending ≡ [])
      × ((commit_up_to log n).0.last_learned_txid ≡ j)
unfolding commit_up_to learn_entry
commit_one log n j ent v p low = ground arith

module _ {Db : Type 0} ⦃R : Rocks Db⦄ ⦃W : Wire⦄ where
  learn_each_missing :
      (s : Server Db) (term j : ℕ)
      → AckedLog.get s.rep_log j ≡ none
      → learn_each s ((term, j) ∷ []) ≡ ok s
  unfolding learn_each learn learn_mutation
  learn_each_missing s term j e = rw e

  -- On a leader with a valid log, a reply that refuses an Append, from a known peer with a log
  -- that ends below the first pending entry, counts as the peer's ack of that entry: where it is
  -- the peer's first and completes the quorum the leader learns the entry.
  pub handle_append_res_nack :
      (s : Server Db) (peer_id : PeerId) (res : AppendRes) (peer : RepPeer) (j : ℕ)
      (ent : Acked (LogEntry Mutation)) (rest : BTreeMap ℕ (Acked (LogEntry Mutation)))
      → IsValid s.rep_log
      → is_leader s.state ≡ true
      → get peer_id s.rep_peers ≡ some peer
      → AppendRes.get_accepted res ≡ false
      → s.rep_log.pending ≡ (j, ent) ∷ rest
      → AppendRes.get_last_accepted_txid res < j
      → contains ent.acks peer_id ≡ false
      → length ent.acks + 1 ≡ s.rep_log.quorum
      → (t : Server Db) × (handle_append_res s peer_id res ≡ ok t)
        × (j ≤ t.rep_log.last_learned_txid)
  unfolding handle_append_res
  handle_append_res_nack s peer_id res peer j ent rest v leads known nack first below fresh quorum =
      let n = AppendRes.get_last_accepted_txid res in
      let acked = ack_up_to s.rep_log n peer_id in
      let s' : Server Db = record s {
        rep_peers = insert peer_id (acknowledge peer res) s.rep_peers;
        rep_log = acked.0;
      } in
      let learned = (ack_up_to_early s.rep_log n j peer_id ent rest v first below fresh quorum).2 in
      rw (leads, known, handle_append_res)
        (Returns-ok (λ t. j ≤ t.rep_log.last_learned_txid) _
          (Returns-map (Frame s') _ _ (learn_each-Frame s' acked.1) λ t f.
            omega (
              arith,
              learned,
              ap (λ (log : InMemoryLog Mutation). log.last_learned_txid) f.rep_log,
            )))

  -- A follower with a valid log and one pending entry, not committed before, told by an empty
  -- Append of its leader that links to learn up to a txid above that entry, takes the entry off
  -- its pending log, answers once that it has accepted, with its last accepted term and txid,
  -- counts the entry as learned, and never applies it: the store is as it was.
  pub handle_append_skips :
      (s : Server Db) (env : Envelope) (peer_id : PeerId) (append : Append) (j : ℕ)
      (ent : Acked (LogEntry Mutation))
      → IsValid s.rep_log
      → is_leader s.state ≡ false
      → is_following s.state peer_id ≡ true
      → links s.rep_log append ≡ true
      → Append.get_batch append ≡ []
      → s.rep_log.pending ≡ (j, ent) ∷ []
      → j < Append.get_last_learned_txid append
      → get j s.rep_log.committed ≡ none
      → (t : Server Db) × (handle_append s env peer_id append ≡ ok t)
        × (t.rep_log.last_learned_txid ≡ j)
        × (t.rep_log.pending ≡ [])
        × (t.db ≡ s.db)
        × (t.rpc_tx
            ≡ s.rpc_tx
              ++ record {
                address = env.address;
                tok = env.tok;
                msg = W.encode_peer (record PeerMsg.new {
                  srvid = some s.id;
                  append_res = some (record AppendRes.new {
                    accepted = some true;
                    last_accepted_term = some s.rep_log.last_accepted_term;
                    last_accepted_txid = some s.rep_log.last_accepted_txid;
                  });
                });
              }
                ∷ [])
  unfolding handle_append follow_append accept_append accept_batch reply send_msg write_peer_msg
  handle_append_skips s env peer_id append j ent v l f k b p low c =
      let n = Append.get_last_learned_txid append in
      let log = commit_up_to s.rep_log n in
      let one = commit_one s.rep_log n j ent v p low in
      let s' : Server Db = record s {
        rep_log = log.0;
        max_generated_txid = s.rep_log.last_accepted_txid;
      } in
      let gone : AckedLog.get log.0 j ≡ none = rw (get-commit_up_to_below s.rep_log n j v low, c) in
      let applied : learn_each s' log.1 ≡ ok s' = rw one.0 (learn_each_missing s' _ j gone) in
      (
        reply s' env (
            W.encode_peer (
              append_reply s
                (accepted_res true s.rep_log.last_accepted_term s.rep_log.last_accepted_txid))),
        rw (l, f, k, b, applied),
        one.2,
        one.1,
        refl,
        refl,
      )
