-- ===== src/Server/Invariant/Replicating.antt =====
-- The invariant and `learn`, `replicate`, `handle_append`, `handle_append_res` of
-- src/server/server.rs.
use rasputin.Prelude.{
  ℕ, ◌≡◌, ◌<◌, refl, arith, List, [], ◌∷◌, ok, Returns, Returns-bind, Returns-map, Returns-Keeps,
  Keeps, Keeps-bind, Bool-cases, inl, inr, ltb, leb, if◌then◌else◌, nat_key, string_key,
  Option-cases,
}
use rasputin.BTreeMap.{BTreeMap, get, insert}
use rasputin.AckedLog.{PeerId, InMemoryLog, append, push_pending, ack_up_to}
use rasputin.AckedLog.Bounds.{
  IsValid, append-ok, push_pending-IsValid, ack_up_to-IsValid, commit_up_to-IsValid,
}
use rasputin.Messages.Mutation.{Mutation}
use rasputin.Messages.Append
use rasputin.Messages.Append.{Append}
use rasputin.Messages.AppendRes
use rasputin.Messages.AppendRes.{AppendRes}
use rasputin.Platform.{Rocks, Wire, write_peer_msg}
use rasputin.Roles.{Envelope, RepPeer, is_leader, is_following}
use rasputin.Server.{Server}
use rasputin.Server.Messaging.{send_msg}
use rasputin.Server.Learning.{learn_each}
use rasputin.Server.Learning.Frame.{Frame, learn_each-Frame}
use rasputin.Server.Replication.{
  mutation_txid, mutation_term, append_to, send_appends, append_own, replicate, accept_batch, links,
  accept_append, follow_append, handle_append, acknowledge, handle_append_res,
}
use rasputin.Server.Invariant.{Inv, IsCurrent, Frame-Inv, send_msg-Inv, reply-Inv}

accept_batch-IsValid :
    (log : InMemoryLog Mutation) (max_term max_txid : ℕ) (batch : List Mutation)
    → IsValid log
    → max_txid ≡ log.last_accepted_txid
    → Keeps
        (λ r. IsValid r.0 × (r.2 ≡ r.0.last_accepted_txid))
        (accept_batch log max_term max_txid batch)
unfolding accept_batch push_pending
accept_batch-IsValid log max_term max_txid [] v h = (v, h)
accept_batch-IsValid log max_term max_txid (m ∷ rest) v h =
    elim (Bool-cases (ltb (mutation_term m) max_term)) [
      | inl falls ↦ rw falls tt
      | inr keeps ↦ elim (Bool-cases (leb (mutation_txid m) max_txid)) [
        | inl old ↦ rw (keeps, old) (accept_batch-IsValid log max_term max_txid rest v h)
        | inr fresh ↦
            let above : log.last_accepted_txid < mutation_txid m = ground arith in
            rw (keeps, fresh, append-ok log (mutation_term m) (mutation_txid m) m above)
              (accept_batch-IsValid (push_pending log (mutation_term m) (mutation_txid m) m)
                (mutation_term m) (mutation_txid m) rest
                (push_pending-IsValid log (mutation_term m) (mutation_txid m) m v above) refl)
      ]
    ]

module _ {Db : Type 0} ⦃R : Rocks Db⦄ ⦃W : Wire⦄ where
  pub learn_each-Inv : (s : Server Db) (l : List (ℕ × ℕ)) → Inv s → Returns Inv (learn_each s l)
  learn_each-Inv s l v =
      Returns-map (Frame s) Inv (learn_each s l) (learn_each-Frame s l) λ t f. Frame-Inv f v

  -- On a server in the invariant an AppendRes never panics and keeps the invariant.
  pub handle_append_res-Inv :
      (s : Server Db) (peer_id : PeerId) (res : AppendRes)
      → Inv s
      → Returns Inv (handle_append_res s peer_id res)
  unfolding handle_append_res
  handle_append_res-Inv s peer_id res v =
      let acked = ack_up_to s.rep_log (AppendRes.get_last_accepted_txid res) peer_id in
      let kept =
        ack_up_to-IsValid s.rep_log (AppendRes.get_last_accepted_txid res) peer_id v.log_valid in
      elim (Bool-cases (is_leader s.state)) [
        | inr other ↦ rw other v
        | inl leads ↦ elim (Option-cases (get peer_id s.rep_peers)) [
          | inl missing ↦ rw (leads, missing, handle_append_res) v
          | inr (peer, there) ↦
              rw (leads, there, handle_append_res)
                (learn_each-Inv
                  (record s {
                    rep_peers = insert peer_id (acknowledge peer res) s.rep_peers;
                    rep_log = acked.0;
                  })
                  acked.1
                  (record {
                    log_valid = kept.0;
                    generated = omega (arith, v.generated, kept.1);
                    current = v.current;
                  }))
        ]
      ]

  pub send_appends-Returns :
      (P : Server Db → Type 0)
      → ((s : Server Db) (env : Envelope) → P s → P (send_msg s env))
      → (m : BTreeMap PeerId RepPeer) (s : Server Db) → P s
      → Returns (λ r. P r.0) (send_appends s m)
  unfolding send_appends write_peer_msg append_to
  send_appends-Returns P keep [] s h = h
  send_appends-Returns P keep ((key, peer) ∷ rest) s h =
      Returns-bind (λ r. P r.0) (λ r. P r.0) (send_appends _ rest) _
        (send_appends-Returns P keep rest _ (keep s _ h)) λ r k. k

  accept_append-Inv :
      (s : Server Db) (append : Append) → Inv s → Keeps (λ r. Inv r.0) (accept_append s append)
  unfolding accept_append
  accept_append-Inv s append v =
      Keeps-bind (λ r. IsValid r.0 × (r.2 ≡ r.0.last_accepted_txid)) (λ r. Inv r.0) _ _
        (accept_batch-IsValid s.rep_log s.rep_log.last_accepted_term s.rep_log.last_accepted_txid
          (Append.get_batch append) v.log_valid refl)
        λ r k.
          let kept = commit_up_to-IsValid r.0 (Append.get_last_learned_txid append) k.0 in
          Keeps-bind Inv (λ q. Inv q.0) _ _
            (Returns-Keeps Inv _ (
              learn_each-Inv _ _ (record {
                log_valid = kept.0;
                generated = omega (arith, k.1, kept.1);
                current = v.current;
              })))
            λ t w. w

  follow :
      (s : Server Db) (peer_id : PeerId) (append : Append)
      → Inv s
      → Keeps
          (λ r. Inv r.0)
          (if is_following s.state peer_id then follow_append s append else ok (s, AppendRes.new))
  unfolding follow_append
  follow s peer_id append v = elim (Bool-cases (is_following s.state peer_id)) [
    | inr other ↦ rw other v
    | inl follows ↦ elim (Bool-cases (links s.rep_log append)) [
      | inl linked ↦ rw (follows, linked) (accept_append-Inv s append v)
      | inr loose ↦ rw (follows, loose) v
    ]
  ]

  -- An `Append` keeps the invariant, unless the server panics.
  pub handle_append-Inv :
      (s : Server Db) (env : Envelope) (peer_id : PeerId) (append : Append)
      → Inv s
      → Keeps Inv (handle_append s env peer_id append)
  unfolding handle_append write_peer_msg
  handle_append-Inv s env peer_id append v = elim (Bool-cases (is_leader s.state)) [
    | inl leads ↦ rw leads v
    | inr other ↦
        rw other (
          Keeps-bind (λ r. Inv r.0) Inv _ _ (follow s peer_id append v)
            λ r w. reply-Inv r.0 env _ w)
  ]

  -- replicate of one mutation with the txid that was just generated, above the last accepted one,
  -- on a valid log and a state in the highest term, never panics, and the invariant holds
  -- afterwards.
  pub replicate-Inv :
      (s : Server Db) (m : Mutation)
      → IsValid s.rep_log
      → IsCurrent s.highest_term s.state
      → s.rep_log.last_accepted_txid < mutation_txid m
      → s.max_generated_txid ≡ mutation_txid m
      → Returns Inv (replicate s (m ∷ []))
  unfolding replicate append_own push_pending
  replicate-Inv s m v c h g =
      let appended = push_pending-IsValid s.rep_log (mutation_term m) (mutation_txid m) m v h in
      let log = push_pending s.rep_log (mutation_term m) (mutation_txid m) m in
      let kept = ack_up_to-IsValid log (mutation_txid m) s.id appended in
      rw (append-ok s.rep_log (mutation_term m) (mutation_txid m) m h) (
        Returns-bind Inv Inv _ _
          (Returns-bind Inv Inv _ _
            (learn_each-Inv _ _
              (record { log_valid = kept.0; generated = omega (arith, g, kept.1); current = c }))
            λ t w. w)
          λ t w.
            Returns-bind (λ r. Inv r.0) Inv _ _
              (send_appends-Returns Inv (λ u env k. send_msg-Inv u env k) t.rep_peers t w)
              λ r k. record {
                log_valid = k.log_valid;
                generated = k.generated;
                current = k.current;
              })
