-- ===== src/Server/Invariant/Voting.antt =====
-- The invariant and `handle_vote_req`, `handle_vote_res`, `cron` of src/server/server.rs.
use rasputin.Prelude.{◌≡◌, refl, arith, Returns, Keeps, Keeps-bind, Bool, string_key}
use rasputin.AckedLog.{PeerId}
use rasputin.Messages.VoteReq.{VoteReq}
use rasputin.Messages.VoteRes.{VoteRes}
use rasputin.Platform.{Timespec, TimeOps, Wire, write_peer_msg}
use rasputin.Roles.{
  Envelope, State, leader, candidate, valid_candidate, following, term_of, should_extend_leadership,
}
use rasputin.Server.{Server, Readings}
use rasputin.Server.Messaging.{send_msg, peer_broadcast}
use rasputin.Server.Replication.{update_rep_peers}
use rasputin.Server.Voting.{
  extend_follower, become_follower, decide_vote, handle_vote_req, is_counted, count_vote,
  candidate_vote, leader_vote, give_up, take_vote, handle_vote_res, stand, request_votes, canvass,
  cron,
}
use rasputin.Server.Invariant.{Inv, IsCurrent, reply-Inv}

module _ {Db : Type 0} ⦃T : TimeOps⦄ ⦃W : Wire⦄ where
  decide_vote-Inv :
      (s : Server Db) (now : Readings) (env : Envelope) (peer_id : PeerId) (req : VoteReq)
      → Inv s
      → Keeps (λ r. Inv r.0) (decide_vote s now env peer_id req)
  unfolding decide_vote extend_follower become_follower following
  decide_vote-Inv s now env peer_id req v = ground arith

  -- A vote request keeps the invariant, unless the server panics.
  pub handle_vote_req-Inv :
      (s : Server Db) (now : Readings) (env : Envelope) (peer_id : PeerId) (req : VoteReq)
      → Inv s
      → Keeps Inv (handle_vote_req s now env peer_id req)
  unfolding handle_vote_req write_peer_msg
  handle_vote_req-Inv s now env peer_id req v =
      Keeps-bind (λ r. Inv r.0) Inv _ _ (decide_vote-Inv s now env peer_id req v)
        λ r w. reply-Inv r.0 env _ w

  count_vote-Inv :
      (s : Server Db) (env : Envelope) (peer_id : PeerId) (counted : Bool)
      → Inv s
      → Inv (count_vote s env peer_id counted)
        × ((count_vote s env peer_id counted).highest_term ≡ s.highest_term)
  unfolding count_vote update_rep_peers
  count_vote-Inv s env peer_id counted v = ground arith

  candidate_vote-Inv :
      (s : Server Db) (env : Envelope) (peer_id : PeerId) (res : VoteRes) (state : State)
      → IsCurrent s.highest_term state
      → Inv s
      → Keeps Inv (candidate_vote s env peer_id res state)
  unfolding candidate_vote
  candidate_vote-Inv s env peer_id res (candidate term have need until) c v =
      ground (arith, count_vote-Inv s env peer_id (is_counted have env term res) v)
  candidate_vote-Inv s env peer_id res _ c v = tt

  leader_vote-Inv :
      (s : Server Db) (now : Timespec) (env : Envelope) (peer_id : PeerId) (res : VoteRes)
      (state : State)
      → IsCurrent s.highest_term state
      → Inv s
      → Keeps Inv (leader_vote s now env peer_id res state)
  unfolding leader_vote
  leader_vote-Inv s now env peer_id res (leader term have need until) c v =
      ground (arith, count_vote-Inv s env peer_id (is_counted have env term res) v)
  leader_vote-Inv s now env peer_id res _ c v = tt

  take_vote-Inv :
      (s : Server Db) (now : Readings) (env : Envelope) (peer_id : PeerId) (res : VoteRes)
      → Inv s
      → Keeps Inv (take_vote s now env peer_id res)
  unfolding take_vote give_up
  take_vote-Inv s now env peer_id res v = ground (
    arith,
    candidate_vote-Inv s env peer_id res s.state v.current v,
    leader_vote-Inv s (now 3) env peer_id res s.state v.current v,
  )

  -- A vote keeps the invariant, unless the server panics.
  pub handle_vote_res-Inv :
      (s : Server Db) (now : Readings) (env : Envelope) (peer_id : PeerId) (res : VoteRes)
      → Inv s
      → Keeps Inv (handle_vote_res s now env peer_id res)
  unfolding handle_vote_res
  handle_vote_res-Inv s now env peer_id res v =
      ground (arith, take_vote-Inv s now env peer_id res v)

  stand-Inv : (s : Server Db) (now : Readings) → Inv s → Inv (stand s now)
  unfolding stand
  stand-Inv s now v = ground arith

  canvass-Inv :
      (s : Server Db) (now : Readings) (state : State)
      → s.state ≡ state
      → Inv s
      → Returns Inv (canvass s now)
  unfolding canvass request_votes term_of should_extend_leadership valid_candidate write_peer_msg
      peer_broadcast send_msg
  canvass-Inv s now state e v = ground arith

  -- On a server in the invariant a tick of the cron thread never panics and keeps the invariant.
  pub cron-Inv : (s : Server Db) (now : Readings) → Inv s → Returns Inv (cron s now)
  unfolding cron
  cron-Inv s now v = canvass-Inv (stand s now) now (stand s now).state refl (stand-Inv s now v)
