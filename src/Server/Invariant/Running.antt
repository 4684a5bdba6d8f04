-- ===== src/Server/Invariant/Running.antt =====
-- The invariant and the turns of the threads of src/server/server.rs, from the start on.
use rasputin.Prelude.{
  String, refl, List, [], ◌∷◌, Keeps, Keeps-bind, Returns-Keeps, arith, inl, inr, Option-cases,
}
use rasputin.AckedLog.{PeerId}
use rasputin.Messages.PeerMsg
use rasputin.Messages.PeerMsg.{PeerMsg}
use rasputin.Platform.{TimeOps, Rocks, Wire}
use rasputin.Roles.{Envelope}
use rasputin.Server.{Server, Readings}
use rasputin.Server.Running.{
  Input, peer_request, cli_request, cron_tick, dispatch_peer, handle_peer, handle, run, started,
}
use rasputin.Server.Invariant.{Inv}
use rasputin.Server.Invariant.Replicating.{handle_append-Inv, handle_append_res-Inv}
use rasputin.Server.Invariant.Voting.{handle_vote_req-Inv, handle_vote_res-Inv, cron-Inv}
use rasputin.Server.Invariant.Clients.{handle_cli-Keeps}

module _ {Db : Type 0} ⦃T : TimeOps⦄ ⦃R : Rocks Db⦄ ⦃W : Wire⦄ where
  dispatch_peer-Inv :
      (s : Server Db) (now : Readings) (env : Envelope) (peer_id : PeerId) (msg : PeerMsg)
      → Inv s
      → Keeps Inv (dispatch_peer s now env peer_id msg)
  unfolding dispatch_peer
  dispatch_peer-Inv s now env peer_id msg v = ground (
    arith,
    handle_vote_res-Inv s now env peer_id (PeerMsg.get_vote_res msg) v,
    handle_vote_req-Inv s now env peer_id (PeerMsg.get_vote_req msg) v,
    handle_append-Inv s env peer_id (PeerMsg.get_append msg) v,
    Returns-Keeps Inv _ (handle_append_res-Inv s peer_id (PeerMsg.get_append_res msg) v),
  )

  handle_peer-Inv :
      (s : Server Db) (now : Readings) (env : Envelope) → Inv s → Keeps Inv (handle_peer s now env)
  unfolding handle_peer
  handle_peer-Inv s now env v = elim (Option-cases (W.parse_peer env.msg)) [
    | inl garbled ↦ rw garbled tt
    | inr (msg, parsed) ↦ rw parsed (dispatch_peer-Inv s now env (PeerMsg.get_srvid msg) msg v)
  ]

  pub handle-Inv : (s : Server Db) (input : Readings × Input) → Inv s → Keeps Inv (handle s input)
  unfolding handle
  handle-Inv s (now, peer_request env) v = handle_peer-Inv s now env v
  handle-Inv s (now, cli_request env) v = handle_cli-Keeps s env v
  handle-Inv s (now, cron_tick) v = Returns-Keeps Inv _ (cron-Inv s now v)

  -- Whatever the peers and the clients send, in whatever order the threads take their turns, and
  -- whatever the clock reads, the invariant holds as long as the server runs.
  pub run-Inv :
      (s : Server Db) (inputs : List (Readings × Input)) → Inv s → Keeps Inv (run s inputs)
  unfolding run
  run-Inv s [] v = v
  run-Inv s (input ∷ rest) v =
      Keeps-bind Inv Inv (handle s input) _ (handle-Inv s input v) λ t w. run-Inv t rest w

  -- A server that starts afresh keeps the invariant (the log is in order, the generator stands at
  -- the last accepted txid, the state's term is the highest term) through any inputs of its three
  -- threads and any readings of the clock, as long as it runs.
  pub run-started-Inv :
      (id : PeerId) (peers : List String) (db : Db) (inputs : List (Readings × Input))
      → Keeps Inv (run (started id peers db) inputs)
  unfolding started
  run-started-Inv id peers db inputs =
      run-Inv (started id peers db) inputs
        record { log_valid = omega arith; generated = refl; current = tt }
