-- ===== src/Server/Voting/Leases.antt =====
-- Leases and votes in src/server/server.rs: what a vote request, a vote and the cron tick change.
use rasputin.Prelude.{
  ℕ, ◌≡◌, ◌≢◌, ◌≤◌, ◌<◌, ◌*◌, ◌↔◌, ◌⊎◌, arith, List, ok, Bool, true, false, some, string_key,
  nat_key, length, if◌then◌else◌,
}
use rasputin.AckedLog.{PeerId}
use rasputin.Messages.VoteReq
use rasputin.Messages.VoteReq.{VoteReq}
use rasputin.Messages.VoteRes
use rasputin.Messages.VoteRes.{VoteRes}
use rasputin.Platform.{Timespec, TimeOps, Wire, write_peer_msg}
use rasputin.Roles.{
  Envelope, State, SocketAddr, Token, leader, candidate, follower, init, valid_leader,
  valid_candidate, following, term_of, should_extend_leadership, leader_duration, leader_refresh,
}
use rasputin.Server.{Server, Readings}
use rasputin.Server.Messaging.{reply, send_msg, peer_broadcast}
use rasputin.Server.Replication.{update_rep_peers}
use rasputin.Server.Voting.{
  should_grant_vote, become_follower, decide_vote, vote_reply, handle_vote_req, is_counted,
  count_vote, candidate_vote, leader_vote, give_up, take_vote, handle_vote_res, stand, votes_needed,
  vote_request, request_votes, canvass, cron,
}
use rasputin.Server.Invariant.{Inv, IsCurrent}

module _ {Db : Type 0} ⦃T : TimeOps⦄ where
  -- A vote is granted exactly if no lease is valid, the candidate's term is not below the last
  -- learned one, and its log is at least as recent: learned in a higher term, or in the same with
  -- as much accepted.
  pub should_grant_vote_iff :
      (s : Server Db) (now : Timespec) (req : VoteReq)
      → (should_grant_vote s now req ≡ true) ↔ (
          (valid_leader s.state now ≡ false)
          × (s.rep_log.last_learned_term ≤ VoteReq.get_term req)
          × ((s.rep_log.last_learned_term < VoteReq.get_last_learned_term req)
              ⊎ ((VoteReq.get_last_learned_term req ≡ s.rep_log.last_learned_term)
                  × (s.rep_log.last_accepted_txid ≤ VoteReq.get_last_accepted_txid req))))
  unfolding should_grant_vote
  should_grant_vote_iff s now req = (grind arith, grind arith)

  -- The votes that a candidate needs are more than half of the peers, in a cluster of fewer than
  -- 510.
  pub votes_needed_majority :
      (s : Server Db) → length s.peers < 510 → length s.peers < 2 * votes_needed s
  votes_needed_majority s h = omega arith

module _ {Db : Type 0} ⦃T : TimeOps⦄ ⦃W : Wire⦄ where
  highest-give_up :
      (s : Server Db) (res : VoteRes) (state : State)
      → IsCurrent s.highest_term state
      → term_of state ≡ some (VoteRes.get_term res)
      → (give_up s res).highest_term ≡ s.highest_term
  unfolding give_up term_of
  highest-give_up s res (leader term have need until) c e = ground arith
  highest-give_up s res (candidate term have need until) c e = ground arith
  highest-give_up s res (follower term id tok leader_addr until) c e = ground arith
  highest-give_up s res init c e = ground arith

  highest-count_vote :
      (s : Server Db) (env : Envelope) (peer_id : PeerId) (counted : Bool)
      → (count_vote s env peer_id counted).highest_term ≡ s.highest_term
  unfolding count_vote update_rep_peers
  highest-count_vote s env peer_id counted = ground arith

  highest-candidate_vote :
      (s t : Server Db) (env : Envelope) (peer_id : PeerId) (res : VoteRes) (state : State)
      → candidate_vote s env peer_id res state ≡ ok t
      → t.highest_term ≡ s.highest_term
  unfolding candidate_vote
  highest-candidate_vote s t env peer_id res (candidate term have need until) e =
      ground (arith, highest-count_vote s env peer_id (is_counted have env term res))
  highest-candidate_vote s t env peer_id res _ e = cc

  highest-leader_vote :
      (s t : Server Db) (now : Timespec) (env : Envelope) (peer_id : PeerId) (res : VoteRes)
      (state : State)
      → leader_vote s now env peer_id res state ≡ ok t
      → t.highest_term ≡ s.highest_term
  unfolding leader_vote
  highest-leader_vote s t now env peer_id res (leader term have need until) e =
      ground (arith, highest-count_vote s env peer_id (is_counted have env term res))
  highest-leader_vote s t now env peer_id res _ e = cc

  -- On a server in the invariant no vote changes the highest term: a nack is taken only in the
  -- candidate's own term, which is the highest already.
  pub highest-handle_vote_res :
      (s t : Server Db) (now : Readings) (env : Envelope) (peer_id : PeerId) (res : VoteRes)
      → Inv s
      → handle_vote_res s now env peer_id res ≡ ok t
      → t.highest_term ≡ s.highest_term
  unfolding handle_vote_res take_vote
  highest-handle_vote_res s t now env peer_id res v e = ground (
    arith,
    highest-give_up s res (s.state) v.current,
    highest-candidate_vote s t env peer_id res s.state,
    highest-leader_vote s t (now 3) env peer_id res s.state,
  )

  -- A server that follows a leader whose lease has run out votes for another candidate in the
  -- same term, if that one's log is as recent, its term is not below the last learned one, and
  -- its address is known: it votes twice in the term.
  pub handle_vote_req_again :
      (s : Server Db) (now : Readings) (env : Envelope) (peer_id lid : PeerId) (req : VoteReq)
      (term : ℕ) (tok : Token) (addr leader_addr : SocketAddr) (until : Timespec)
      → s.state ≡ follower term lid tok leader_addr until
      → T.before (now 0) until ≡ false
      → T.before (now 2) until ≡ false
      → peer_id ≢ s.id
      → peer_id ≢ lid
      → env.address ≡ some addr
      → VoteReq.get_term req ≡ term
      → s.rep_log.last_learned_term ≤ term
      → s.rep_log.last_learned_term ≡ VoteReq.get_last_learned_term req
      → s.rep_log.last_accepted_txid ≤ VoteReq.get_last_accepted_txid req
      → handle_vote_req s now env peer_id req
        ≡ ok (
            reply
              (record s {
                highest_term = term;
                state = follower term peer_id env.tok addr (T.plus (now 3) leader_duration);
              })
              env
              (W.encode_peer (vote_reply s term true)))
  unfolding handle_vote_req decide_vote write_peer_msg valid_leader following should_grant_vote
      become_follower reply send_msg
  handle_vote_req_again s now env peer_id lid req term tok addr leader_addr until e o0 o2 n0 n1 a t0
        l0 l1 l2 =
      ground (arith, string_key.beq_iff peer_id s.id, string_key.beq_iff peer_id lid)

  -- The tick of a leader whose lease is valid, also when it is read again, changes nothing of its
  -- state, and asks for an extension exactly if the lease ends within the refresh time.
  pub cron_leads :
      (s : Server Db) (now : Readings) (term need : ℕ) (have : List Token) (until : Timespec)
      → s.state ≡ leader term have need until
      → T.before (now 0) until ≡ true
      → T.before (now 3) until ≡ true
      → cron s now ≡ (
          if T.before (T.plus (now 3) leader_refresh) until
          then ok s
          else ok (peer_broadcast s (W.encode_peer (vote_request s term))))
  unfolding cron stand canvass request_votes valid_leader valid_candidate should_extend_leadership
      term_of write_peer_msg
  cron_leads s now term need have until e l d = ground arith
