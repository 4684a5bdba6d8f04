-- ===== src/Server/Voting/Winning.antt =====
-- Who wins an election in src/server/server.rs, over the turns of the threads.
use rasputin.Prelude.{
  ℕ, ◌*◌, ◌≡◌, ◌<◌, refl, arith, String, List, [], ◌∷◌, ◌++◌, true, false, Outcome, ok, Keeps,
  Bool-cases, Option-cases, inl, inr, length, length-append, some, nat_key, string_key,
}
use mathlib.Core.Path.{subst}
use rasputin.AckedLog.{PeerId}
use rasputin.Messages.PeerMsg
use rasputin.Messages.PeerMsg.{PeerMsg}
use rasputin.Messages.VoteRes
use rasputin.Messages.VoteRes.{VoteRes}
use rasputin.Platform.{Timespec, TimeOps, Rocks, Wire}
use rasputin.Roles.{
  Envelope, State, Token, leader, candidate, follower, init, valid_leader, valid_candidate,
  is_leader, term_of,
}
use rasputin.Server.{Server, Readings}
use rasputin.Server.Voting.{candidate_vote, give_up, take_vote, handle_vote_res}
use rasputin.Server.Voting.States.{Holds, handle_cli-Holds}
use rasputin.Server.Voting.Polls.{
  IsDistinct, contains-NotIn, IsDistinct-append, IsPolled, NotLeading,
}
use rasputin.Server.Voting.Turns.{cron-NotLeading, dispatch_peer-NotLeading, run-IsPolled}
use rasputin.Server.Running.{
  Input, peer_request, cli_request, cron_tick, dispatch_peer, handle_peer, handle, run, started,
}

Keeps-result {ℓ} :
    {A : Type ℓ} (P : A → Type 0) (m : Outcome A) (a : A) → Keeps P m → m ≡ ok a → P a
Keeps-result P m a h e = subst (Keeps P) e h

module _ {Db : Type 0} ⦃T : TimeOps⦄ where
  -- An ack in the term of a candidate whose lease is valid, from a socket that has not voted,
  -- makes votes of more than half of the peers, and a leader in that term until the lease ends.
  abbrev pub Wins : List String → Server Db → Server Db → Timespec → Envelope → VoteRes → Type 0
  Wins peers s t now env res =
      (term need : ℕ) × (have : List Token) × (until : Timespec) × (s.state
        ≡ candidate term have need until)
      × (VoteRes.get_success res ≡ true)
      × (VoteRes.get_term res ≡ term)
      × (T.before now until ≡ true)
      × IsDistinct (have ++ env.tok ∷ [])
      × (length peers < 2 * length (have ++ env.tok ∷ []))
      × (t.state ≡ leader term [] need until)

module _ {Db : Type 0} ⦃T : TimeOps⦄ ⦃R : Rocks Db⦄ ⦃W : Wire⦄ where
  candidate_vote-Wins :
      {cluster : List String} (s t : Server Db) (now : Readings) (env : Envelope) (peer_id : PeerId)
      (res : VoteRes) (term need : ℕ) (have : List Token) (until : Timespec)
      → s.state ≡ candidate term have need until
      → IsPolled cluster s.peers (candidate term have need until)
      → handle_vote_res s now env peer_id res ≡ ok t
      → is_leader t.state ≡ true
      → (T.before (now 1) until ≡ true → T.before (now 0) until ≡ true)
      → (VoteRes.get_success res ≡ true)
        × (VoteRes.get_term res ≡ term)
        × (T.before (now 1) until ≡ true)
        × IsDistinct (have ++ env.tok ∷ [])
        × (length cluster < 2 * length (have ++ env.tok ∷ []))
        × (t.state ≡ leader term [] need until)
  unfolding handle_vote_res take_vote give_up candidate_vote valid_candidate is_leader valid_leader
      term_of
  candidate_vote-Wins s t now env peer_id res term need have until e h ran led steady = ground (
    arith,
    contains-NotIn env.tok have,
    IsDistinct-append env.tok have,
    length-append have (env.tok ∷ []),
  )

  handle_vote_res-NotLeading :
      (s t : Server Db) (now : Readings) (env : Envelope) (peer_id : PeerId) (res : VoteRes)
      → is_leader s.state ≡ false
      → valid_candidate s.state (now 1) ≡ false
      → handle_vote_res s now env peer_id res ≡ ok t
      → is_leader t.state ≡ false
  unfolding handle_vote_res take_vote give_up is_leader
  handle_vote_res-NotLeading s t now env peer_id res other late ran = ground arith

  handle_vote_res-Wins :
      {cluster : List String} (s t : Server Db) (now : Readings) (env : Envelope) (peer_id : PeerId)
      (res : VoteRes) (state : State)
      → s.state ≡ state
      → is_leader s.state ≡ false
      → IsPolled cluster s.peers s.state
      → handle_vote_res s now env peer_id res ≡ ok t
      → is_leader t.state ≡ true
      → (valid_candidate s.state (now 1) ≡ true → valid_candidate s.state (now 0) ≡ true)
      → Wins cluster s t (now 1) env res
  unfolding is_leader valid_candidate
  handle_vote_res-Wins {cluster = cluster} s t now env peer_id res (candidate term have need until)
        e other h ran led steady =
      let (acked, named, valid, distinct, most, leads) =
        candidate_vote-Wins s t now env peer_id res term need have until e
          (subst (IsPolled cluster s.peers) e h) ran led
          (subst (λ x. valid_candidate x (now 1) ≡ true → valid_candidate x (now 0) ≡ true) e
            steady) in
      (term, need, have, until, e, acked, named, valid, distinct, most, leads)
  handle_vote_res-Wins {cluster = cluster} s t now env peer_id res init e other h ran led steady =
      ground (arith, handle_vote_res-NotLeading s t now env peer_id res other)
  handle_vote_res-Wins {cluster = cluster} s t now env peer_id res (leader term have need until) e
        other h ran led steady =
      ground arith
  handle_vote_res-Wins {cluster = cluster} s t now env peer_id res (follower term id tok addr until)
        e other h ran led steady =
      ground (arith, handle_vote_res-NotLeading s t now env peer_id res other)

  dispatch_peer-ran :
      (s t : Server Db) (now : Readings) (env : Envelope) (msg : PeerMsg)
      → W.parse_peer env.msg ≡ some msg
      → handle_peer s now env ≡ ok t
      → dispatch_peer s now env (PeerMsg.get_srvid msg) msg ≡ ok t
  unfolding handle_peer
  dispatch_peer-ran s t now env msg parsed ran = ground arith

  handle_peer-Wins :
      {cluster : List String} (s t : Server Db) (now : Readings) (env : Envelope)
      → IsPolled cluster s.peers s.state
      → handle_peer s now env ≡ ok t
      → is_leader s.state ≡ false
      → is_leader t.state ≡ true
      → (valid_candidate s.state (now 1) ≡ true → valid_candidate s.state (now 0) ≡ true)
      → (msg : PeerMsg) × (W.parse_peer env.msg ≡ some msg)
        × (PeerMsg.has_vote_res msg ≡ true)
        × Wins cluster s t (now 1) env (PeerMsg.get_vote_res msg)
  unfolding handle_peer dispatch_peer
  handle_peer-Wins s t now env h ran other led steady = elim (Option-cases (W.parse_peer env.msg)) [
    | inl garbled ↦ ground arith
    | inr (msg, parsed) ↦ elim (Bool-cases (PeerMsg.has_vote_res msg)) [
      | inl votes ↦ (
        msg,
        parsed,
        votes,
        handle_vote_res-Wins s t now env (PeerMsg.get_srvid msg) (PeerMsg.get_vote_res msg) s.state
            refl other h (ground (arith, dispatch_peer-ran s t now env msg parsed ran)) led steady,
      )
      | inr silent ↦ ground (
        arith,
        Keeps-result (Holds NotLeading) _ t
            (dispatch_peer-NotLeading s now env (PeerMsg.get_srvid msg) msg other silent)
            (dispatch_peer-ran s t now env msg parsed ran),
      )
    ]
  ]

  -- What a turn makes of a server that did not lead.
  handle-Wins :
      {cluster : List String} (s t : Server Db) (now : Readings) (input : Input)
      → IsPolled cluster s.peers s.state
      → handle s (now, input) ≡ ok t
      → is_leader s.state ≡ false
      → is_leader t.state ≡ true
      → (valid_candidate s.state (now 1) ≡ true → valid_candidate s.state (now 0) ≡ true)
      → (env : Envelope) × (msg : PeerMsg) × (input ≡ peer_request env)
        × (W.parse_peer env.msg ≡ some msg)
        × (PeerMsg.has_vote_res msg ≡ true)
        × Wins cluster s t (now 1) env (PeerMsg.get_vote_res msg)
  unfolding handle
  handle-Wins s t now (peer_request env) h ran other led steady =
      let (msg, parsed, votes, wins) = handle_peer-Wins s t now env h ran other led steady in
      (env, msg, refl, parsed, votes, wins)
  handle-Wins s t now (cli_request env) h ran other led steady =
      ground
        (arith, Keeps-result (Holds NotLeading) _ t (handle_cli-Holds NotLeading s env other) ran)
  handle-Wins s t now cron_tick h ran other led steady =
      ground (arith, Keeps-result (Holds NotLeading) _ t (cron-NotLeading s now other) ran)

  -- In a cluster of fewer than 510 servers, a server that started afresh, after any inputs of its
  -- three threads and with any readings of the clock, becomes a leader only as a candidate, in
  -- its term and until the end of its lease, by an ack in that term, taken up before that end,
  -- from a socket that is not among those that it has recorded as votes, which are distinct and
  -- with this one more than half as many as the peers, where the clock does not step back past
  -- the end of the lease between the first two readings of that turn.
  pub run-Wins :
      (id : PeerId) (peers : List String) (db : Db) (inputs : List (Readings × Input))
      (s t : Server Db) (now : Readings) (input : Input)
      → length peers < 510
      → run (started id peers db) inputs ≡ ok s
      → handle s (now, input) ≡ ok t
      → is_leader s.state ≡ false
      → is_leader t.state ≡ true
      → (valid_candidate s.state (now 1) ≡ true → valid_candidate s.state (now 0) ≡ true)
      → (env : Envelope) × (msg : PeerMsg) × (input ≡ peer_request env)
        × (W.parse_peer env.msg ≡ some msg)
        × (PeerMsg.has_vote_res msg ≡ true)
        × Wins peers s t (now 1) env (PeerMsg.get_vote_res msg)
  unfolding started
  run-Wins id peers db inputs s t now input few before ran other led steady =
      handle-Wins s t now input
        (Keeps-result (Holds (IsPolled peers)) (run (started id peers db) inputs) s
          (run-IsPolled (started id peers db) inputs (refl, few, tt)) before)
        ran other led steady
