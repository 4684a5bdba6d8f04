-- ===== src/Server/Invariant/Safety.antt =====
-- Panics in the handlers of peers' messages of src/server/server.rs.
use rasputin.Prelude.{
  ℕ, ◌≡◌, ◌≤◌, refl, arith, List, [], ◌∷◌, Outcome, ok, panic, Returns, Returns-bind, Keeps,
  Bool-cases, inl, inr, some, string_key, if◌then◌else◌,
}
use rasputin.AckedLog.{PeerId, InMemoryLog, push_pending, commit_up_to}
use rasputin.AckedLog.Bounds.{append-ok}
use rasputin.Messages.Mutation.{Mutation}
use rasputin.Messages.Append
use rasputin.Messages.Append.{Append}
use rasputin.Messages.AppendRes
use rasputin.Messages.VoteReq.{VoteReq}
use rasputin.Messages.VoteRes.{VoteRes}
use rasputin.Platform.{TimeOps, Rocks, Wire, write_peer_msg}
use rasputin.Roles.{
  Envelope, State, SocketAddr, is_leader, is_following, valid_leader, valid_candidate, following,
  term_of,
}
use rasputin.Server.{Server, Readings}
use rasputin.Server.Learning.{learn_each}
use rasputin.Server.Learning.Frame.{Frame, learn_each-Frame}
use rasputin.Server.Replication.{
  mutation_term, mutation_txid, accept_batch, accept_append, follow_append, handle_append, links,
}
use rasputin.Server.Voting.{
  extend_follower, decide_vote, handle_vote_req, candidate_vote, leader_vote, take_vote,
  handle_vote_res,
}
use rasputin.Server.Invariant.{Inv}
use rasputin.Server.Invariant.Replicating.{handle_append-Inv}
use rasputin.Server.Invariant.Voting.{handle_vote_req-Inv, handle_vote_res-Inv}

-- A run that does not panic.
abbrev Runs : {A : Type 0} → Outcome A → Type 0
Runs m = Returns (λ _. Unit {0}) m

Runs-Keeps : {A : Type 0} (P : A → Type 0) (m : Outcome A) → Runs m → Keeps P m → Returns P m
Runs-Keeps P (ok a) h k = k
Runs-Keeps P panic h k = elim h [ ]

-- The terms of a batch do not fall, from `term` on.
abbrev pub IsRising : ℕ → List Mutation → Type 0
IsRising term [] = Unit {0}
IsRising term (m ∷ rest) = (term ≤ mutation_term m) × IsRising (mutation_term m) rest

IsRising-le : (a b : ℕ) (ms : List Mutation) → a ≤ b → IsRising b ms → IsRising a ms
IsRising-le a b [] h r = tt
IsRising-le a b (m ∷ ms) h r = (omega (arith, r.0), r.1)

accept_batch-Runs :
    (log : InMemoryLog Mutation) (term txid : ℕ) (ms : List Mutation)
    → txid ≡ log.last_accepted_txid
    → IsRising term ms
    → Runs (accept_batch log term txid ms)
unfolding accept_batch push_pending
accept_batch-Runs log term txid [] e r = tt
accept_batch-Runs log term txid (m ∷ ms) e r = ground (
  arith,
  append-ok log (mutation_term m) (mutation_txid m) m,
  accept_batch-Runs log term txid ms e (IsRising-le term (mutation_term m) ms r.0 r.1),
  accept_batch-Runs (push_pending log (mutation_term m) (mutation_txid m) m) (mutation_term m)
      (mutation_txid m) ms refl r.1,
)

module _ {Db : Type 0} ⦃R : Rocks Db⦄ ⦃W : Wire⦄ where
  accept_append-Runs :
      (s : Server Db) (append : Append)
      → IsRising s.rep_log.last_accepted_term (Append.get_batch append)
      → Runs (accept_append s append)
  unfolding accept_append
  accept_append-Runs s append r =
      Returns-bind (λ _. Unit) (λ _. Unit) _ _
        (accept_batch-Runs s.rep_log s.rep_log.last_accepted_term s.rep_log.last_accepted_txid
          (Append.get_batch append) refl r)
        λ q _.
          let reached = commit_up_to q.0 (Append.get_last_learned_txid append) in
          let committed : Server Db = record s { rep_log = reached.0; max_generated_txid = q.2 } in
          Returns-bind (Frame committed) (λ _. Unit) (learn_each committed reached.1) _
            (learn_each-Frame committed reached.1) λ t _. tt

  follow-Runs :
      (s : Server Db) (peer_id : PeerId) (append : Append)
      → IsRising s.rep_log.last_accepted_term (Append.get_batch append)
      → Runs
          (if is_following s.state peer_id then follow_append s append else ok (s, AppendRes.new))
  unfolding follow_append
  follow-Runs s peer_id append r = elim (Bool-cases (is_following s.state peer_id)) [
    | inr other ↦ rw other tt
    | inl follows ↦ elim (Bool-cases (links s.rep_log append)) [
      | inl linked ↦ rw (follows, linked) (accept_append-Runs s append r)
      | inr loose ↦ rw (follows, loose) tt
    ]
  ]

  handle_append-Runs :
      (s : Server Db) (env : Envelope) (peer_id : PeerId) (append : Append)
      → IsRising s.rep_log.last_accepted_term (Append.get_batch append)
      → Runs (handle_append s env peer_id append)
  unfolding handle_append write_peer_msg
  handle_append-Runs s env peer_id append r = elim (Bool-cases (is_leader s.state)) [
    | inl leads ↦ rw leads tt
    | inr other ↦
        rw other
          (Returns-bind (λ _. Unit) (λ _. Unit) _ _ (follow-Runs s peer_id append r) λ q _. tt)
  ]

  -- On a server in the invariant, an Append whose terms do not fall from the last accepted one on
  -- never panics, and the invariant holds afterwards.
  pub handle_append-Returns :
      (s : Server Db) (env : Envelope) (peer_id : PeerId) (append : Append)
      → Inv s
      → IsRising s.rep_log.last_accepted_term (Append.get_batch append)
      → Returns Inv (handle_append s env peer_id append)
  handle_append-Returns s env peer_id append v r =
      Runs-Keeps Inv _ (handle_append-Runs s env peer_id append r)
        (handle_append-Inv s env peer_id append v)

module _ {Db : Type 0} ⦃T : TimeOps⦄ ⦃W : Wire⦄ where
  decide_vote-Runs :
      (s : Server Db) (now : Readings) (env : Envelope) (peer_id : PeerId) (req : VoteReq)
      (addr : SocketAddr) (state : State)
      → s.state ≡ state
      → env.address ≡ some addr
      → Runs (decide_vote s now env peer_id req)
  unfolding decide_vote extend_follower following valid_leader term_of
  decide_vote-Runs s now env peer_id req addr state e a = ground arith

  -- On a server in the invariant, a vote request that comes with its sender's address never
  -- panics, and the invariant holds afterwards.
  pub handle_vote_req-Returns :
      (s : Server Db) (now : Readings) (env : Envelope) (peer_id : PeerId) (req : VoteReq)
      (addr : SocketAddr)
      → Inv s
      → env.address ≡ some addr
      → Returns Inv (handle_vote_req s now env peer_id req)
  unfolding handle_vote_req write_peer_msg
  handle_vote_req-Returns s now env peer_id req addr v a =
      Runs-Keeps Inv _
        (Returns-bind (λ _. Unit) (λ _. Unit) _ _
          (decide_vote-Runs s now env peer_id req addr s.state refl a) λ r _. tt)
        (handle_vote_req-Inv s now env peer_id req v)

  take_vote-Runs :
      (s : Server Db) (now : Readings) (env : Envelope) (peer_id : PeerId) (res : VoteRes)
      (state : State)
      → s.state ≡ state
      → Runs (take_vote s now env peer_id res)
  unfolding take_vote candidate_vote leader_vote valid_candidate is_leader
  take_vote-Runs s now env peer_id res state e = ground arith

  handle_vote_res-Runs :
      (s : Server Db) (now : Readings) (env : Envelope) (peer_id : PeerId) (res : VoteRes)
      (addr : SocketAddr)
      → env.address ≡ some addr
      → Runs (handle_vote_res s now env peer_id res)
  unfolding handle_vote_res
  handle_vote_res-Runs s now env peer_id res addr a =
      ground (arith, take_vote-Runs s now env peer_id res s.state refl)

  -- On a server in the invariant, a vote that comes with its sender's address never panics, and
  -- the invariant holds afterwards.
  pub handle_vote_res-Returns :
      (s : Server Db) (now : Readings) (env : Envelope) (peer_id : PeerId) (res : VoteRes)
      (addr : SocketAddr)
      → Inv s
      → env.address ≡ some addr
      → Returns Inv (handle_vote_res s now env peer_id res)
  handle_vote_res-Returns s now env peer_id res addr v a =
      Runs-Keeps Inv _ (handle_vote_res-Runs s now env peer_id res addr a)
        (handle_vote_res-Inv s now env peer_id res v)
