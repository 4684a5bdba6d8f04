-- ===== src/Server/Voting.antt =====
-- src/server/server.rs: `should_grant_vote`, `handle_vote_req`, `handle_vote_res`, `cron`.
pub mod Leases
pub mod States
pub mod Polls
pub mod Turns
pub mod Winning
pub mod Nacks
pub mod Standing
use rasputin.Prelude.{
  ℕ, ◌+◌, ◌/◌, ◌%◌, ◌^◌, Bool, true, false, not, ◌&&◌, ◌||◌, Option, none, some, List, [], ◌∷◌,
  ◌++◌, Outcome, ok, panic, unwrap, ◌>>=◌, ltb, leb, ◌==◌, if◌then◌else◌, length, contains,
  unwrap_or, nat_key, string_key,
}
use rasputin.AckedLog.{PeerId}
use rasputin.Messages.VoteReq
use rasputin.Messages.VoteReq.{VoteReq}
use rasputin.Messages.VoteRes
use rasputin.Messages.VoteRes.{VoteRes}
use rasputin.Messages.PeerMsg
use rasputin.Messages.PeerMsg.{PeerMsg}
use rasputin.Platform.{Timespec, TimeOps, Wire, write_peer_msg}
use rasputin.Roles.{
  Envelope, State, SocketAddr, leader, candidate, follower, init, leader_duration, valid_leader,
  valid_candidate, should_extend_leadership, is_leader, following, term_of,
}
use rasputin.Server.{Server, Readings}
use rasputin.Server.Messaging.{reply, peer_broadcast, next_u64}
use rasputin.Server.Replication.{update_rep_peers}

module _ ⦃T : TimeOps⦄ where
  -- The `match` that extends the lease of the leader that is followed.
  unfoldable pub extend_follower : State → Timespec → Outcome State
  extend_follower (follower term id tok leader_addr until) now =
      ok (follower term id tok leader_addr (T.plus now leader_duration))
  extend_follower _ now = panic

-- The vote is counted once for each socket, for the term that it is for.
abbrev pub is_counted : List ℕ → Envelope → ℕ → VoteRes → Bool
is_counted have env term res = not (contains have env.tok) && VoteRes.get_term res == term

-- `term.is_none() || vote_res.get_term() != term.unwrap()`
abbrev pub is_other_term : Option ℕ → VoteRes → Bool
is_other_term none res = true
is_other_term (some term) res = not (VoteRes.get_term res == term)

module _ {Db : Type 0} ⦃T : TimeOps⦄ where
  unfoldable pub should_grant_vote : Server Db → Timespec → VoteReq → Bool
  should_grant_vote s now req =
      if valid_leader s.state now
      then false
      else if ltb (VoteReq.get_term req) s.rep_log.last_learned_term
      then false
      else if ltb s.rep_log.last_learned_term (VoteReq.get_last_learned_term req)
      then true
      else if VoteReq.get_last_learned_term req == s.rep_log.last_learned_term
          && leb s.rep_log.last_accepted_txid (VoteReq.get_last_accepted_txid req)
      then true
      else false

  unfoldable pub become_follower :
      Server Db → Timespec → Envelope → PeerId → VoteReq → SocketAddr → Server Db
  become_follower s now env peer_id req addr = record s {
    highest_term = VoteReq.get_term req;
    state = follower (VoteReq.get_term req) peer_id env.tok addr (T.plus now leader_duration);
  }

  -- The chain of tests: the server, and the reply's term and success.
  unfoldable pub decide_vote :
      Server Db → Readings → Envelope → PeerId → VoteReq → Outcome (Server Db × ℕ × Bool)
  unfolding should_grant_vote extend_follower become_follower
  decide_vote s now env peer_id req =
      if peer_id == s.id
      then ok (s, VoteReq.get_term req, true)
      else if valid_leader s.state (now 0) && not (following s.state peer_id)
      then (unwrap (term_of s.state) >>= λ term. ok (s, term, false))
      else if following s.state peer_id
      then (extend_follower s.state (now 1) >>= λ state.
          ok (record s { state = state }, VoteReq.get_term req, true))
      else if should_grant_vote s (now 2) req
      then (unwrap env.address >>= λ addr.
          ok (become_follower s (now 3) env peer_id req addr, VoteReq.get_term req, true))
      else ok (s, unwrap_or (term_of s.state) (VoteReq.get_term req), false)

  abbrev pub vote_reply : Server Db → ℕ → Bool → PeerMsg
  vote_reply s term success =
      PeerMsg.set_vote_res (PeerMsg.set_srvid PeerMsg.new s.id)
        (VoteRes.set_success (VoteRes.set_term VoteRes.new term) success)

module _ {Db : Type 0} ⦃T : TimeOps⦄ ⦃W : Wire⦄ where
  unfoldable pub handle_vote_req :
      Server Db → Readings → Envelope → PeerId → VoteReq → Outcome (Server Db)
  unfolding decide_vote
  handle_vote_req s now env peer_id req = do
    (s', term, success) ← decide_vote s now env peer_id req
    msg ← write_peer_msg (vote_reply s term success)
    ok (reply s' env msg)

module _ {Db : Type 0} where
  unfoldable pub count_vote : Server Db → Envelope → PeerId → Bool → Server Db
  count_vote s env peer_id counted =
      if counted then update_rep_peers s peer_id env.address env.tok else s

module _ {Db : Type 0} ⦃T : TimeOps⦄ where
  -- The `match` of the valid candidate.
  unfoldable pub candidate_vote :
      Server Db → Envelope → PeerId → VoteRes → State → Outcome (Server Db)
  unfolding count_vote
  candidate_vote s env peer_id res (candidate term have need until) =
      let counted = is_counted have env term res in
      let new_have = if counted then have ++ env.tok ∷ [] else have in
      let s' = count_vote s env peer_id counted in
      ok (record s' {
        state =
            if leb need (length new_have)
            then leader term [] need until
            else candidate term new_have need until;
      })
  candidate_vote s env peer_id res _ = panic

  -- The `match` of the valid leader.
  unfoldable pub leader_vote :
      Server Db → Timespec → Envelope → PeerId → VoteRes → State → Outcome (Server Db)
  unfolding count_vote
  leader_vote s now env peer_id res (leader term have need until) =
      let counted = is_counted have env term res in
      let new_have = if counted then have ++ env.tok ∷ [] else have in
      let s' = count_vote s env peer_id counted in
      ok (record s' {
        state =
            if leb need (length new_have)
            then leader term [] need (T.plus now leader_duration)
            else leader term new_have need until;
      })
  leader_vote s now env peer_id res _ = panic

  -- A nack for a candidate.
  unfoldable pub give_up : Server Db → VoteRes → Server Db
  give_up s res = record s {
    highest_term =
        if ltb s.highest_term (VoteRes.get_term res) then VoteRes.get_term res else s.highest_term;
    state = init;
    rep_peers = [];
  }

  -- What follows the test of the term.
  unfoldable pub take_vote :
      Server Db → Readings → Envelope → PeerId → VoteRes → Outcome (Server Db)
  unfolding candidate_vote leader_vote give_up
  take_vote s now env peer_id res =
      if valid_candidate s.state (now 0) && not (VoteRes.get_success res)
      then ok (give_up s res)
      else if valid_candidate s.state (now 1)
      then candidate_vote s env peer_id res s.state
      else if is_leader s.state && valid_leader s.state (now 2) && VoteRes.get_success res
      then leader_vote s (now 3) env peer_id res s.state
      else ok s

  -- The first `debug!` unwraps the address.
  unfoldable pub handle_vote_res :
      Server Db → Readings → Envelope → PeerId → VoteRes → Outcome (Server Db)
  unfolding take_vote
  handle_vote_res s now env peer_id res = do
    addr ← unwrap env.address
    if is_other_term (term_of s.state) res then ok s else take_vote s now env peer_id res

  -- `(self.peers.len() / 2 + 1) as u8`
  abbrev pub votes_needed : Server Db → ℕ
  votes_needed s = (length s.peers / 2 + 1) % 2 ^ 8

  -- The first half of `cron`.
  unfoldable pub stand : Server Db → Readings → Server Db
  stand s now =
      if not (valid_leader s.state (now 0)) && not (valid_candidate s.state (now 1))
      then record s {
        highest_term = next_u64 s.highest_term;
        state =
            candidate (next_u64 s.highest_term) [] (votes_needed s)
              (T.plus (now 2) leader_duration);
      }
      else s

  abbrev pub vote_request : Server Db → ℕ → PeerMsg
  vote_request s term =
      let r1 = VoteReq.set_term VoteReq.new term in
      let r2 = VoteReq.set_last_accepted_term r1 s.rep_log.last_accepted_term in
      let r3 = VoteReq.set_last_accepted_txid r2 s.rep_log.last_accepted_txid in
      let r4 = VoteReq.set_last_learned_term r3 s.rep_log.last_learned_term in
      let r5 = VoteReq.set_last_learned_txid r4 s.rep_log.last_learned_txid in
      PeerMsg.set_vote_req (PeerMsg.set_srvid PeerMsg.new s.id) r5

module _ {Db : Type 0} ⦃T : TimeOps⦄ ⦃W : Wire⦄ where
  -- The body of the second half.
  unfoldable pub request_votes : Server Db → Outcome (Server Db)
  request_votes s = do
    term ← unwrap (term_of s.state)
    msg ← write_peer_msg (vote_request s term)
    ok (peer_broadcast s msg)

  -- The second half of `cron`.
  unfoldable pub canvass : Server Db → Readings → Outcome (Server Db)
  unfolding request_votes
  canvass s now =
      if should_extend_leadership s.state (now 3) || valid_candidate s.state (now 4)
      then request_votes s
      else ok s

  unfoldable pub cron : Server Db → Readings → Outcome (Server Db)
  unfolding stand canvass
  cron s now = canvass (stand s now) now
