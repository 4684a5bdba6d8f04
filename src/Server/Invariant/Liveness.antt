-- ===== src/Server/Invariant/Liveness.antt =====
-- Sequences of inputs to the threads of src/server/server.rs, and what each has to be.
use rasputin.Prelude.{
  ◌≡◌, ◌<◌, ◌+◌, ◌^◌, arith, List, [], ◌∷◌, Outcome, ok, panic, Returns, Returns-bind, Keeps, some,
}
use rasputin.AckedLog.{PeerId}
use rasputin.Messages.Append
use rasputin.Messages.PeerMsg
use rasputin.Messages.PeerMsg.{PeerMsg}
use rasputin.Messages.CliReq.{CliReq}
use rasputin.Platform.{TimeOps, Rocks, Wire}
use rasputin.Roles.{Envelope, SocketAddr}
use rasputin.Server.{Server, Readings}
use rasputin.Server.Running.{
  Input, peer_request, cli_request, cron_tick, dispatch_peer, handle_peer, handle, run,
}
use rasputin.Server.Invariant.{Inv}
use rasputin.Server.Invariant.Replicating.{handle_append_res-Inv}
use rasputin.Server.Invariant.Voting.{cron-Inv}
use rasputin.Server.Invariant.Clients.{handle_cli-Inv}
use rasputin.Server.Invariant.Safety.{
  IsRising, handle_append-Returns, handle_vote_req-Returns, handle_vote_res-Returns,
}

Returns-and {ℓ} :
    {A : Type ℓ} (P Q : A → Type 0) (m : Outcome A)
    → Returns P m
    → Keeps Q m
    → Returns (λ a. P a × Q a) m
Returns-and P Q (ok a) h k = (h, k)
Returns-and P Q panic h k = elim h [ ]

module _ {Db : Type 0} ⦃T : TimeOps⦄ ⦃R : Rocks Db⦄ ⦃W : Wire⦄ where
  -- What parses, with the address of a peer, terms that do not fall in a batch, and a generator
  -- that has not reached its end.
  abbrev pub IsServable : Server Db → Input → Type 0
  IsServable s (peer_request env) =
      (msg : PeerMsg) × (addr : SocketAddr) × (W.parse_peer env.msg ≡ some msg)
      × (env.address ≡ some addr)
      × IsRising s.rep_log.last_accepted_term (Append.get_batch (PeerMsg.get_append msg))
  IsServable s (cli_request env) =
      (cli_req : CliReq) × (W.parse_cli_req env.msg ≡ some cli_req)
      × (s.max_generated_txid + 1 < 2 ^ 64)
  IsServable s cron_tick = Unit {0}

  -- Each input is servable by the server as it is when its turn comes.
  abbrev pub AreServable : Server Db → List (Readings × Input) → Type 0
  AreServable s [] = Unit {0}
  AreServable s (input ∷ rest) =
      IsServable s input.1 × Keeps (λ t. AreServable t rest) (handle s input)

  dispatch_peer-Returns :
      (s : Server Db) (now : Readings) (env : Envelope) (peer_id : PeerId) (msg : PeerMsg)
      (addr : SocketAddr)
      → Inv s
      → env.address ≡ some addr
      → IsRising s.rep_log.last_accepted_term (Append.get_batch (PeerMsg.get_append msg))
      → Returns Inv (dispatch_peer s now env peer_id msg)
  unfolding dispatch_peer
  dispatch_peer-Returns s now env peer_id msg addr v a r = ground (
    arith,
    handle_vote_res-Returns s now env peer_id (PeerMsg.get_vote_res msg) addr v a,
    handle_vote_req-Returns s now env peer_id (PeerMsg.get_vote_req msg) addr v a,
    handle_append-Returns s env peer_id (PeerMsg.get_append msg) v r,
    handle_append_res-Inv s peer_id (PeerMsg.get_append_res msg) v,
  )

  -- On a server in the invariant, a turn on a servable input never panics, and the invariant
  -- holds afterwards.
  pub handle-Returns :
      (s : Server Db) (input : Readings × Input)
      → Inv s
      → IsServable s input.1
      → Returns Inv (handle s input)
  unfolding handle handle_peer
  handle-Returns s (now, peer_request env) v (msg, addr, p, a, r) =
      rw p (dispatch_peer-Returns s now env (PeerMsg.get_srvid msg) msg addr v a r)
  handle-Returns s (now, cli_request env) v (cli_req, p, h) = handle_cli-Inv s env cli_req v p h
  handle-Returns s (now, cron_tick) v h = cron-Inv s now v

  -- On a server in the invariant, any sequence of inputs that are servable at their turn (they
  -- parse, a peer's comes with its address and with terms that do not fall, and the generator has
  -- not reached its end) is run to its end without a panic, and the invariant holds then.
  pub run-Returns :
      (s : Server Db) (inputs : List (Readings × Input))
      → Inv s
      → AreServable s inputs
      → Returns Inv (run s inputs)
  unfolding run
  run-Returns s [] v h = v
  run-Returns s (input ∷ rest) v h =
      Returns-bind (λ t. Inv t × AreServable t rest) Inv (handle s input) _
        (Returns-and Inv (λ t. AreServable t rest) _ (handle-Returns s input v h.0) h.1)
        λ t w. run-Returns t rest w.0 w.1
