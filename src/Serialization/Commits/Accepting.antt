-- ===== src/Serialization/Commits/Accepting.antt =====
-- A follower of src/server/server.rs takes an Append with one entry.
use rasputin.Prelude.{ℕ, ◌≡◌, ◌≤◌, ◌<◌, refl, arith, true, false, [], ◌∷◌, ok, nat_key, string_key}
use rasputin.BTreeMap.{insert}
use rasputin.AckedLog.{PeerId, InMemoryLog, push_pending, append, commit_up_to, take_up_to}
use rasputin.Messages.Mutation.{Mutation}
use rasputin.Messages.Append.{Append}
use rasputin.Messages.Append
use rasputin.Messages.PeerMsg.{PeerMsg}
use rasputin.Platform.{Rocks, Wire, write_peer_msg}
use rasputin.Roles.{Envelope, is_leader, is_following}
use rasputin.Server.{Server}
use rasputin.Server.Messaging.{reply}
use rasputin.Server.Learning.{learn_each}
use rasputin.Server.Replication.{
  mutation_term, mutation_txid, append_reply, accepted_res, accept_batch, accept_append, links,
  follow_append, handle_append,
}

accept_batch_one :
    (log : InMemoryLog Mutation) (m : Mutation)
    → log.last_accepted_term ≤ mutation_term m
    → log.last_accepted_txid < mutation_txid m
    → accept_batch log log.last_accepted_term log.last_accepted_txid (m ∷ [])
      ≡ ok
          (push_pending log (mutation_term m) (mutation_txid m) m, mutation_term m, mutation_txid m)
unfolding accept_batch append
accept_batch_one log m h k = ground arith

commit_none :
    (log : InMemoryLog Mutation) (m : Mutation) (n : ℕ)
    → log.pending ≡ []
    → n < mutation_txid m
    → commit_up_to (push_pending log (mutation_term m) (mutation_txid m) m) n
      ≡ (push_pending log (mutation_term m) (mutation_txid m) m, [])
unfolding commit_up_to take_up_to push_pending insert
commit_none log m n e h = ground arith

module _ {Db : Type 0} where
  -- The reply of a follower that has taken a mutation, and the follower then.
  abbrev pub accepting : Server Db → Mutation → PeerMsg
  accepting v m = append_reply v (accepted_res true (mutation_term m) (mutation_txid m))

  abbrev pub appended : Server Db → Mutation → Server Db
  appended v m = record v {
    rep_log = push_pending v.rep_log (mutation_term m) (mutation_txid m) m;
    max_generated_txid = mutation_txid m;
  }

module _ {Db : Type 0} ⦃R : Rocks Db⦄ ⦃W : Wire⦄ where
  pub handle_append_one :
      (v : Server Db) (env : Envelope) (id : PeerId) (a : Append) (m : Mutation)
      → is_leader v.state ≡ false
      → is_following v.state id ≡ true
      → links v.rep_log a ≡ true
      → Append.get_batch a ≡ m ∷ []
      → v.rep_log.pending ≡ []
      → v.rep_log.last_accepted_term ≤ mutation_term m
      → v.rep_log.last_accepted_txid < mutation_txid m
      → Append.get_last_learned_txid a < mutation_txid m
      → handle_append v env id a
        ≡ ok (
            reply (appended v m) env (
              W.encode_peer
                (append_reply v (accepted_res true (mutation_term m) (mutation_txid m)))))
  unfolding handle_append follow_append accept_append write_peer_msg learn_each
  handle_append_one v env id a m led follows linked batch empty term txid low =
      rw
        (
          led,
          follows,
          linked,
          batch,
          accept_batch_one v.rep_log m term txid,
          commit_none v.rep_log m (Append.get_last_learned_txid a) empty low,
        )
        refl
