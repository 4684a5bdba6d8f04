-- ===== src/Server/Voting/Polls.antt =====
-- The votes of a candidate in src/server/server.rs come from distinct sockets.
use rasputin.Prelude.{
  ◌*◌, ◌≡◌, ◌≢◌, ◌<◌, sym, arith, String, List, [], ◌∷◌, ◌++◌, Bool, false, Keeps, Keeps-bind,
  Bool-cases, inl, inr, ◌||◌, unwrap, contains, length, length-append, nat_key, string_key,
}
use rasputin.AckedLog.{PeerId}
use rasputin.Messages.VoteReq.{VoteReq}
use rasputin.Messages.VoteRes.{VoteRes}
use rasputin.Platform.{Timespec, TimeOps, Rocks, Wire, write_peer_msg}
use rasputin.Roles.{
  Envelope, State, Token, leader, candidate, valid_candidate, is_leader, following, term_of,
  should_extend_leadership,
}
use rasputin.Server.{Server, Readings}
use rasputin.Server.Messaging.{reply, send_msg, peer_broadcast}
use rasputin.Server.Replication.{update_rep_peers}
use rasputin.Server.Voting.{
  extend_follower, become_follower, decide_vote, handle_vote_req, is_counted, count_vote,
  candidate_vote, leader_vote, give_up, take_vote, handle_vote_res, stand, request_votes, canvass,
}
use rasputin.Server.Voting.States.{Keeps-after}

abbrev pub NotIn : Token → List Token → Type 0
NotIn x [] = Unit
NotIn x (y ∷ ys) = (x ≢ y) × NotIn x ys

abbrev pub IsDistinct : List Token → Type 0
IsDistinct [] = Unit
IsDistinct (x ∷ xs) = NotIn x xs × IsDistinct xs

pub contains-NotIn : (x : Token) (xs : List Token) → contains xs x ≡ false → NotIn x xs
unfolding contains
contains-NotIn x [] h = tt
contains-NotIn x (y ∷ ys) h = (ground arith, contains-NotIn x ys (ground arith))

NotIn-append : (x y : Token) (xs : List Token) → NotIn x xs → x ≢ y → NotIn x (xs ++ y ∷ [])
NotIn-append x y [] h n = (n, tt)
NotIn-append x y (z ∷ xs) h n = (h.0, NotIn-append x y xs h.1 n)

pub IsDistinct-append :
    (y : Token) (xs : List Token) → IsDistinct xs → NotIn y xs → IsDistinct (xs ++ y ∷ [])
IsDistinct-append y [] d n = (tt, tt)
IsDistinct-append y (x ∷ xs) d n =
    (NotIn-append x y xs d.0 (λ e. n.0 (sym e)), IsDistinct-append y xs d.1 n.1)

-- In a cluster of fewer than 510, a candidate has votes of distinct sockets, fewer than it needs,
-- which is more than half of the peers.
abbrev pub IsVoted : List String → State → Type 0
IsVoted peers (candidate term have need until) =
    IsDistinct have × (length have < need) × (length peers < 2 * need)
IsVoted peers _ = Unit

abbrev pub IsPolled : List String → List String → State → Type 0
IsPolled cluster peers state = (peers ≡ cluster) × (length cluster < 510) × IsVoted cluster state

abbrev pub NotLeading : List String → State → Type 0
NotLeading peers state = is_leader state ≡ false

module _ {Db : Type 0} where
  count_vote-peers :
      (s : Server Db) (env : Envelope) (peer_id : PeerId) (counted : Bool)
      → (count_vote s env peer_id counted).peers ≡ s.peers
  unfolding count_vote update_rep_peers
  count_vote-peers s env peer_id counted = ground arith

module _ {Db : Type 0} ⦃T : TimeOps⦄ ⦃R : Rocks Db⦄ ⦃W : Wire⦄ where
  decide_vote-IsPolled :
      {cluster : List String} (s : Server Db) (now : Readings) (env : Envelope) (peer_id : PeerId)
      (req : VoteReq)
      → IsPolled cluster s.peers s.state
      → Keeps (λ r. IsPolled cluster r.0.peers r.0.state) (decide_vote s now env peer_id req)
  unfolding decide_vote extend_follower become_follower following
  decide_vote-IsPolled s now env peer_id req h = ground arith

  decide_vote-NotLeading :
      (s : Server Db) (now : Readings) (env : Envelope) (peer_id : PeerId) (req : VoteReq)
      → is_leader s.state ≡ false
      → Keeps (λ r. is_leader r.0.state ≡ false) (decide_vote s now env peer_id req)
  unfolding decide_vote extend_follower become_follower following is_leader
  decide_vote-NotLeading s now env peer_id req h = ground arith

  pub handle_vote_req-IsPolled :
      {cluster : List String} (s : Server Db) (now : Readings) (env : Envelope) (peer_id : PeerId)
      (req : VoteReq)
      → IsPolled cluster s.peers s.state
      → Keeps
          (λ (t : Server Db). IsPolled cluster t.peers t.state)
          (handle_vote_req s now env peer_id req)
  unfolding handle_vote_req write_peer_msg reply send_msg
  handle_vote_req-IsPolled {cluster = cluster} s now env peer_id req h =
      Keeps-bind (λ r. IsPolled cluster r.0.peers r.0.state)
        (λ (t : Server Db). IsPolled cluster t.peers t.state) (decide_vote s now env peer_id req) _
        (decide_vote-IsPolled s now env peer_id req h) λ r w. w

  pub handle_vote_req-NotLeading :
      (s : Server Db) (now : Readings) (env : Envelope) (peer_id : PeerId) (req : VoteReq)
      → is_leader s.state ≡ false
      → Keeps (λ (t : Server Db). is_leader t.state ≡ false) (handle_vote_req s now env peer_id req)
  unfolding handle_vote_req write_peer_msg reply send_msg
  handle_vote_req-NotLeading s now env peer_id req h =
      Keeps-bind (λ r. is_leader r.0.state ≡ false) (λ (t : Server Db). is_leader t.state ≡ false)
        (decide_vote s now env peer_id req) _ (decide_vote-NotLeading s now env peer_id req h)
        λ r w. w

  candidate_vote-IsPolled :
      {cluster : List String} (s : Server Db) (env : Envelope) (peer_id : PeerId) (res : VoteRes)
      (state : State)
      → IsPolled cluster s.peers state
      → Keeps
          (λ (t : Server Db). IsPolled cluster t.peers t.state)
          (candidate_vote s env peer_id res state)
  unfolding candidate_vote
  candidate_vote-IsPolled s env peer_id res (candidate term have need until) h = ground (
    arith,
    count_vote-peers s env peer_id (is_counted have env term res),
    contains-NotIn env.tok have,
    IsDistinct-append env.tok have,
    length-append have (env.tok ∷ []),
  )
  candidate_vote-IsPolled s env peer_id res _ h = tt

  leader_vote-IsPolled :
      {cluster : List String} (s : Server Db) (now : Timespec) (env : Envelope) (peer_id : PeerId)
      (res : VoteRes) (state : State)
      → length cluster < 510
      → s.peers ≡ cluster
      → Keeps
          (λ (t : Server Db). IsPolled cluster t.peers t.state)
          (leader_vote s now env peer_id res state)
  unfolding leader_vote
  leader_vote-IsPolled s now env peer_id res (leader term have need until) h same =
      ground (arith, count_vote-peers s env peer_id (is_counted have env term res))
  leader_vote-IsPolled s now env peer_id res _ h same = tt

  pub handle_vote_res-IsPolled :
      {cluster : List String} (s : Server Db) (now : Readings) (env : Envelope) (peer_id : PeerId)
      (res : VoteRes)
      → IsPolled cluster s.peers s.state
      → Keeps
          (λ (t : Server Db). IsPolled cluster t.peers t.state)
          (handle_vote_res s now env peer_id res)
  unfolding handle_vote_res take_vote give_up
  handle_vote_res-IsPolled s now env peer_id res h = ground (
    arith,
    candidate_vote-IsPolled s env peer_id res s.state h,
    leader_vote-IsPolled s (now 3) env peer_id res s.state h.1 h.0,
  )

  pub stand-IsPolled :
      {cluster : List String} (s : Server Db) (now : Readings)
      → IsPolled cluster s.peers s.state
      → IsPolled cluster (stand s now).peers (stand s now).state
  unfolding stand
  stand-IsPolled s now h = ground arith

  pub stand-NotLeading :
      (s : Server Db) (now : Readings)
      → is_leader s.state ≡ false
      → is_leader (stand s now).state ≡ false
  unfolding stand is_leader
  stand-NotLeading s now h = ground arith

  pub canvass-Holds :
      (P : List String → State → Type 0) (s : Server Db) (now : Readings)
      → P s.peers s.state
      → Keeps (λ (t : Server Db). P t.peers t.state) (canvass s now)
  unfolding canvass request_votes write_peer_msg peer_broadcast send_msg
  canvass-Holds P s now h =
      elim (Bool-cases
        (should_extend_leadership s.state (now 3) || valid_candidate s.state (now 4))) [
          | inr quiet ↦ rw quiet h
          | inl asks ↦ rw asks (
              Keeps-after (λ (t : Server Db). P t.peers t.state) (unwrap (term_of s.state)) _
                λ term. h)
        ]
