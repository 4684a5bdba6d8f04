-- ===== src/Server/Voting/Turns.antt =====
-- The votes of a candidate over the turns of the threads of src/server/server.rs.
use rasputin.Prelude.{
  ◌≡◌, arith, String, List, [], ◌∷◌, false, Keeps, Keeps-bind, Option-cases, inl, inr, nat_key,
  string_key,
}
use rasputin.AckedLog.{PeerId}
use rasputin.Messages.PeerMsg
use rasputin.Messages.PeerMsg.{PeerMsg}
use rasputin.Platform.{TimeOps, Rocks, Wire}
use rasputin.Roles.{Envelope}
use rasputin.Server.{Server, Readings}
use rasputin.Server.Voting.{stand, cron}
use rasputin.Server.Voting.States.{
  Holds, handle_append-Holds, handle_append_res-Holds, handle_cli-Holds,
}
use rasputin.Server.Voting.Polls.{
  IsPolled, NotLeading, handle_vote_req-IsPolled, handle_vote_req-NotLeading,
  handle_vote_res-IsPolled, stand-IsPolled, stand-NotLeading, canvass-Holds,
}
use rasputin.Server.Running.{
  Input, peer_request, cli_request, cron_tick, dispatch_peer, handle_peer, handle, run,
}

module _ {Db : Type 0} ⦃T : TimeOps⦄ ⦃R : Rocks Db⦄ ⦃W : Wire⦄ where
  cron-IsPolled :
      {cluster : List String} (s : Server Db) (now : Readings)
      → Holds (IsPolled cluster) s
      → Keeps (Holds (IsPolled cluster)) (cron s now)
  unfolding cron
  cron-IsPolled {cluster = cluster} s now h =
      canvass-Holds (IsPolled cluster) (stand s now) now (stand-IsPolled s now h)

  pub cron-NotLeading :
      (s : Server Db) (now : Readings) → Holds NotLeading s → Keeps (Holds NotLeading) (cron s now)
  unfolding cron
  cron-NotLeading s now h = canvass-Holds NotLeading (stand s now) now (stand-NotLeading s now h)

  dispatch_peer-IsPolled :
      {cluster : List String} (s : Server Db) (now : Readings) (env : Envelope) (peer_id : PeerId)
      (msg : PeerMsg)
      → Holds (IsPolled cluster) s
      → Keeps (Holds (IsPolled cluster)) (dispatch_peer s now env peer_id msg)
  unfolding dispatch_peer
  dispatch_peer-IsPolled {cluster = cluster} s now env peer_id msg h = ground (
    arith,
    handle_vote_res-IsPolled s now env peer_id (PeerMsg.get_vote_res msg) h,
    handle_vote_req-IsPolled s now env peer_id (PeerMsg.get_vote_req msg) h,
    handle_append-Holds (IsPolled cluster) s env peer_id (PeerMsg.get_append msg) h,
    handle_append_res-Holds (IsPolled cluster) s peer_id (PeerMsg.get_append_res msg) h,
  )

  pub dispatch_peer-NotLeading :
      (s : Server Db) (now : Readings) (env : Envelope) (peer_id : PeerId) (msg : PeerMsg)
      → Holds NotLeading s
      → PeerMsg.has_vote_res msg ≡ false
      → Keeps (Holds NotLeading) (dispatch_peer s now env peer_id msg)
  unfolding dispatch_peer
  dispatch_peer-NotLeading s now env peer_id msg h other = ground (
    arith,
    handle_vote_req-NotLeading s now env peer_id (PeerMsg.get_vote_req msg) h,
    handle_append-Holds NotLeading s env peer_id (PeerMsg.get_append msg) h,
    handle_append_res-Holds NotLeading s peer_id (PeerMsg.get_append_res msg) h,
  )

  handle_peer-IsPolled :
      {cluster : List String} (s : Server Db) (now : Readings) (env : Envelope)
      → Holds (IsPolled cluster) s
      → Keeps (Holds (IsPolled cluster)) (handle_peer s now env)
  unfolding handle_peer
  handle_peer-IsPolled s now env h = elim (Option-cases (W.parse_peer env.msg)) [
    | inl garbled ↦ rw garbled tt
    | inr (msg, parsed) ↦ rw parsed (dispatch_peer-IsPolled s now env (PeerMsg.get_srvid msg) msg h)
  ]

  handle-IsPolled :
      {cluster : List String} (s : Server Db) (input : Readings × Input)
      → Holds (IsPolled cluster) s
      → Keeps (Holds (IsPolled cluster)) (handle s input)
  unfolding handle
  handle-IsPolled {cluster = cluster} s (now, peer_request env) h = handle_peer-IsPolled s now env h
  handle-IsPolled {cluster = cluster} s (now, cli_request env) h =
      handle_cli-Holds (IsPolled cluster) s env h
  handle-IsPolled {cluster = cluster} s (now, cron_tick) h = cron-IsPolled s now h

  pub run-IsPolled :
      {cluster : List String} (s : Server Db) (inputs : List (Readings × Input))
      → Holds (IsPolled cluster) s
      → Keeps (Holds (IsPolled cluster)) (run s inputs)
  unfolding run
  run-IsPolled {cluster = cluster} s [] h = h
  run-IsPolled {cluster = cluster} s (input ∷ rest) h =
      Keeps-bind (Holds (IsPolled cluster)) (Holds (IsPolled cluster)) (handle s input) _
        (handle-IsPolled s input h) λ t w. run-IsPolled t rest w
