-- ===== src/Examples/Broadcasts.antt =====
-- An event loop of src/server/traffic_cop.rs with one peer, to which a message is broadcast.
use rasputin.Prelude.{◌≡◌, refl, arith, true, false, Option, some, none, List, [], ◌∷◌, Outcome, ok}
use rasputin.Roles.{Envelope, peer_broadcast_token, server_peers, server_clients}
use rasputin.Codec.{TryRead}
use rasputin.ServerConn.{ServerConn, io_ok, queue_frame}
use rasputin.ServerConn
use rasputin.TrafficCop.{TrafficCop, tok_to_sc, notify, is_peer_range}
use rasputin.TrafficCop
use rasputin.TrafficCop.Sockets.{holders}
use rasputin.TrafficCop.Once.{run-broadcast}
use rasputin.TrafficCop.Loop.{Turn, timed_out, readied, run, run_made, turns, turn}
use rasputin.Examples.Connections.{calm, flags}
use rasputin.Examples.Streams.{from_memory}
use rasputin.TrafficCop.Broadcast.{queued, times, recipients, tok_to_sc-notify}
use rasputin.Examples.Slabs.{Slots, slots, slots_laws}

abbrev dialled : ServerConn
dialled = record ServerConn.new { token = some 2 }

abbrev cop : TrafficCop Slots
cop = record {
  peers = record { addr = "127.0.0.1:7770"; sock = some 2 } ∷ [];
  cli_handler = record {
    srv_token = server_clients;
    conns = slots.starting_at 1024 4096;
    req_tx = [];
  };
  peer_handler = record {
    srv_token = server_peers;
    conns = slots.set (slots.starting_at 2 15) 2 dialled;
    req_tx = [];
  };
}

abbrev news : Envelope
news = record { address = none; tok = peer_broadcast_token; msg = 7 ∷ [] }

tok_to_sc-notify_example :
    tok_to_sc (notify cop news) 2 ≡ some (queued (times 2 (recipients cop news)) dialled (7 ∷ []))
unfolding tok_to_sc is_peer_range
tok_to_sc-notify_example = tok_to_sc-notify slots_laws cop news 2 dialled refl

-- After the first two calls the peer has its socket, and gets a broadcast.
abbrev morning : List Turn
morning =
    timed_out (λ k. record { connected = io_ok tt; registered = io_ok tt })
    ∷ readied 2 (flags true false) calm
    ∷ []

abbrev ran : Outcome (Option (TrafficCop Slots))
ran = run (io_ok tt) (io_ok tt) (λ s. some s) ("127.0.0.1:7770" ∷ []) morning

abbrev nobody : TrafficCop Slots
nobody = record {
  peers = [];
  cli_handler = record { srv_token = 0; conns = slots.starting_at 0 0; req_tx = [] };
  peer_handler = record { srv_token = 0; conns = slots.starting_at 0 0; req_tx = [] };
}

abbrev handler_of : Outcome (Option (TrafficCop Slots)) → TrafficCop Slots
handler_of (ok (some cop)) = cop
handler_of _ = nobody

run-broadcast_example :
    (c : ServerConn) × (tok_to_sc (handler_of ran) 2 ≡ some c)
    × (tok_to_sc (notify (handler_of ran) news) 2 ≡ some (queue_frame c (7 ∷ [])))
unfolding run run_made turns turn TrafficCop.new TrafficCop.parse_peers TrafficCop.timeout
    rasputin.ConnSet.register rasputin.Examples.Slabs.free rasputin.TrafficCop.Ready.ready
    rasputin.ConnSet.conn_readable ServerConn.readable rasputin.Codec.decode is_peer_range
    rasputin.ConnSet.conn_writable ServerConn.writable holders
run-broadcast_example =
    run-broadcast slots_laws (io_ok tt) (io_ok tt) (λ s. some s) ("127.0.0.1:7770" ∷ []) morning
      (handler_of ran) news 2 refl (omega arith) refl
