-- ===== src/Server/Running.antt =====
-- src/server/server.rs: `handle_peer`, and the three threads of `run`, which take turns at the
-- server behind its lock. A panic poisons the lock, and the process exits.
use rasputin.Prelude.{
  String, ◌+◌, ◌/◌, length, List, [], ◌∷◌, Outcome, ok, unwrap, ◌>>=◌, if◌then◌else◌,
}
use rasputin.AckedLog.{PeerId}
use rasputin.Messages.PeerMsg
use rasputin.Messages.PeerMsg.{PeerMsg}
use rasputin.Platform.{TimeOps, Rocks, Wire}
use rasputin.Roles.{Envelope, init}
use rasputin.Server.{Server, Readings}
use rasputin.Server.Replication.{handle_append, handle_append_res}
use rasputin.Server.Voting.{handle_vote_req, handle_vote_res, cron}
use rasputin.Server.Clients.{handle_cli}

-- What one of the threads takes up.
pub data Input : Type 0 where
  peer_request : Envelope → Input
  cli_request : Envelope → Input
  cron_tick : Input

module _ {Db : Type 0} where
  -- The server that `run` builds, with the identifier that it draws and the store that it opens.
  unfoldable pub started : PeerId → List String → Db → Server Db
  started id peers db = record {
    id = id;
    peers = peers;
    rep_peers = [];
    rpc_tx = [];
    max_generated_txid = 0;
    highest_term = 0;
    state = init;
    db = db;
    rep_log = record {
      pending = [];
      committed = [];
      quorum = length peers / 2 + 1;
      last_learned_txid = 0;
      last_learned_term = 0;
      last_accepted_txid = 0;
      last_accepted_term = 0;
    };
    pending = [];
  }

module _ {Db : Type 0} ⦃T : TimeOps⦄ ⦃R : Rocks Db⦄ ⦃W : Wire⦄ where
  unfoldable pub dispatch_peer :
      Server Db → Readings → Envelope → PeerId → PeerMsg → Outcome (Server Db)
  dispatch_peer s now env peer_id msg =
      if PeerMsg.has_vote_res msg
      then handle_vote_res s now env peer_id (PeerMsg.get_vote_res msg)
      else if PeerMsg.has_vote_req msg
      then handle_vote_req s now env peer_id (PeerMsg.get_vote_req msg)
      else if PeerMsg.has_append msg
      then handle_append s env peer_id (PeerMsg.get_append msg)
      else if PeerMsg.has_append_res msg
      then handle_append_res s peer_id (PeerMsg.get_append_res msg)
      else ok s

  unfoldable pub handle_peer : Server Db → Readings → Envelope → Outcome (Server Db)
  unfolding dispatch_peer
  handle_peer s now env = do
    msg ← unwrap (W.parse_peer env.msg)
    dispatch_peer s now env (PeerMsg.get_srvid msg) msg

  unfoldable pub handle : Server Db → Readings × Input → Outcome (Server Db)
  handle s (now, peer_request env) = handle_peer s now env
  handle s (now, cli_request env) = handle_cli s env
  handle s (now, cron_tick) = cron s now

  unfoldable pub run : Server Db → List (Readings × Input) → Outcome (Server Db)
  unfolding handle
  run s [] = ok s
  run s (input ∷ rest) = do s' ← handle s input; run s' rest
