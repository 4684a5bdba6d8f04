-- ===== src/Server/Voting/States.antt =====
-- The handlers of src/server/server.rs that leave the state and the peers alone.
use rasputin.Prelude.{
  ℕ, sym, String, List, [], ◌∷◌, Outcome, ok, panic, unwrap, ◌>>=◌, Keeps, Keeps-bind,
  Returns-Keeps, Returns-map, Bool-cases, Option-cases, inl, inr, nat_key, string_key,
  if◌then◌else◌,
}
use mathlib.Core.Path.{subst₂}
use rasputin.BTreeMap.{BTreeMap, get}
use rasputin.AckedLog.{PeerId, append}
use rasputin.Messages.Mutation.{Mutation}
use rasputin.Messages.Append
use rasputin.Messages.Append.{Append}
use rasputin.Messages.AppendRes
use rasputin.Messages.AppendRes.{AppendRes}
use rasputin.Platform.{Rocks, Wire, write_peer_msg, write_cli_res}
use rasputin.Roles.{Envelope, RepPeer, State, is_leader, is_following, term_of}
use rasputin.Server.{Server}
use rasputin.Server.Messaging.{send_msg, reply, new_txid}
use rasputin.Server.Learning.{learn_each}
use rasputin.Server.Learning.Frame.{Frame, learn_each-Frame}
use rasputin.Server.Replication.{
  accept_batch, mutation_term, mutation_txid, append_own, send_appends, replicate, accept_append,
  links, follow_append, handle_append, handle_append_res,
}
use rasputin.Server.Clients.{submit, reply_cli, handle_cli}
use rasputin.Server.Invariant.Replicating.{send_appends-Returns}
use rasputin.Server.Invariant.Clients.{lead_cli-cases}

-- Whatever the first step returns.
pub Keeps-after {ℓ ℓ'} :
    {A : Type ℓ} {B : Type ℓ'} (Q : B → Type 0) (m : Outcome A) (f : A → Outcome B)
    → ((a : A) → Keeps Q (f a))
    → Keeps Q (m >>= f)
Keeps-after Q (ok a) f k = k a
Keeps-after Q panic f k = tt

module _ {Db : Type 0} ⦃R : Rocks Db⦄ ⦃W : Wire⦄ (P : List String → State → Type 0) where
  -- What is said of the peers and the state.
  abbrev pub Holds : Server Db → Type 0
  Holds s = P s.peers s.state

  learn_each-Holds : (s : Server Db) (l : List (ℕ × ℕ)) → Holds s → Keeps Holds (learn_each s l)
  learn_each-Holds s l h = Returns-Keeps Holds _ (
      Returns-map (Frame s) Holds _ (learn_each-Frame s l)
        λ t f. subst₂ P (sym f.peers) (sym f.state) h)

  reply-Holds : (s : Server Db) (env : Envelope) (msg : List ℕ) → Holds s → Holds (reply s env msg)
  unfolding reply send_msg
  reply-Holds s env msg h = h

  send_msg-Holds : (s : Server Db) (env : Envelope) → Holds s → Holds (send_msg s env)
  unfolding send_msg
  send_msg-Holds s env h = h

  pub handle_append_res-Holds :
      (s : Server Db) (peer_id : PeerId) (res : AppendRes)
      → Holds s
      → Keeps Holds (handle_append_res s peer_id res)
  unfolding handle_append_res
  handle_append_res-Holds s peer_id res h = elim (Bool-cases (is_leader s.state)) [
    | inr other ↦ rw other h
    | inl leads ↦ elim (Option-cases (get peer_id s.rep_peers)) [
      | inl missing ↦ rw (leads, missing, handle_append_res) h
      | inr (peer, there) ↦ rw (leads, there, handle_append_res) (learn_each-Holds _ _ h)
    ]
  ]

  accept_append-Holds :
      (s : Server Db) (a : Append) → Holds s → Keeps (λ r. Holds r.0) (accept_append s a)
  unfolding accept_append
  accept_append-Holds s a h =
      Keeps-after (λ (r : Server Db × AppendRes). Holds r.0)
        (accept_batch s.rep_log s.rep_log.last_accepted_term s.rep_log.last_accepted_txid
          (Append.get_batch a))
        _ λ r. Keeps-bind Holds (λ q. Holds q.0) _ _ (learn_each-Holds _ _ h) λ t w. w

  follow-Holds :
      (s : Server Db) (peer_id : PeerId) (a : Append)
      → Holds s
      → Keeps
          (λ r. Holds r.0)
          (if is_following s.state peer_id then follow_append s a else ok (s, AppendRes.new))
  unfolding follow_append
  follow-Holds s peer_id a h = elim (Bool-cases (is_following s.state peer_id)) [
    | inr other ↦ rw other h
    | inl follows ↦ elim (Bool-cases (links s.rep_log a)) [
      | inl linked ↦ rw (follows, linked) (accept_append-Holds s a h)
      | inr loose ↦ rw (follows, loose) h
    ]
  ]

  pub handle_append-Holds :
      (s : Server Db) (env : Envelope) (peer_id : PeerId) (a : Append)
      → Holds s
      → Keeps Holds (handle_append s env peer_id a)
  unfolding handle_append write_peer_msg
  handle_append-Holds s env peer_id a h = elim (Bool-cases (is_leader s.state)) [
    | inl leads ↦ rw leads h
    | inr other ↦ rw other (
        Keeps-bind (λ r. Holds r.0) Holds _ _ (follow-Holds s peer_id a h)
          λ r w. reply-Holds r.0 env _ w)
  ]

  append_own-Holds : (s : Server Db) (ms : List Mutation) → Holds s → Keeps Holds (append_own s ms)
  unfolding append_own
  append_own-Holds s [] h = h
  append_own-Holds s (m ∷ rest) h =
      Keeps-after Holds (append s.rep_log (mutation_term m) (mutation_txid m) m) _
        λ log. Keeps-bind Holds Holds _ _ (learn_each-Holds _ _ h) λ t w. append_own-Holds t rest w

  replicate-Holds : (s : Server Db) (ms : List Mutation) → Holds s → Keeps Holds (replicate s ms)
  unfolding replicate
  replicate-Holds s [] h = h
  replicate-Holds s (m ∷ rest) h =
      Keeps-bind Holds Holds _ _ (append_own-Holds s (m ∷ rest) h) λ t w.
        Keeps-bind (λ (r : Server Db × BTreeMap PeerId RepPeer). Holds r.0) Holds
          (send_appends t t.rep_peers) _
          (Returns-Keeps (λ (r : Server Db × BTreeMap PeerId RepPeer). Holds r.0)
            (send_appends t t.rep_peers)
            (send_appends-Returns Holds (λ u env k. send_msg-Holds u env k) t.rep_peers t w))
          λ r k. k

  submit-Holds :
      (s : Server Db) (req : Envelope) (req_id : ℕ) (mutation : ℕ → ℕ → Mutation)
      → Holds s
      → Keeps Holds (submit s req req_id mutation)
  unfolding submit new_txid
  submit-Holds s req req_id mutation h =
      Keeps-after Holds (unwrap (term_of s.state)) _ λ term. replicate-Holds _ _ h

  pub handle_cli-Holds : (s : Server Db) (req : Envelope) → Holds s → Keeps Holds (handle_cli s req)
  unfolding handle_cli reply_cli write_cli_res
  handle_cli-Holds s req h = elim (Option-cases (W.parse_cli_req req.msg)) [
    | inl garbled ↦ rw garbled tt
    | inr (cli_req, parsed) ↦ elim (Bool-cases (is_leader s.state)) [
      | inl leads ↦
          rw (parsed, leads)
            (lead_cli-cases (Keeps Holds) s req cli_req _ 0 (λ msg. reply-Holds s req msg h)
              (λ mutation e. submit-Holds s req _ mutation h))
      | inr other ↦ rw (parsed, other) (reply-Holds s req _ h)
    ]
  ]
