-- ===== src/TrafficCop/Ready.antt =====
-- `ready` of src/server/traffic_cop.rs, with its three parts.
use rasputin.Prelude.{
  Bool, false, not, ◌&&◌, ◌||◌, none, some, List, [], ◌∷◌, Outcome, ok, panic, ◌>>=◌, leb, ◌==◌,
  eqb, nat_key, is_some, if◌then◌else◌,
}
use rasputin.Roles.{Token, server_clients, server_peers}
use rasputin.Codec.{TryRead}
use rasputin.ServerConn.{EventSet, unwrap_io}
use rasputin.ConnSet.{Slab, Answers, conn_readable, conn_writable, accept}
use rasputin.TrafficCop.{Peer, TrafficCop, is_peer_range, is_cli_range}

-- `sock == Some(token)`
abbrev pub has_sock : Token → Peer → Bool
has_sock tok peer = elim peer.sock [ none ↦ false | some t ↦ eqb t tok ]

-- The body of `for peer in self.peers.iter_mut()` of `ready`, and the loop.
unfoldable pub drop_peer : Token → Peer → Peer
drop_peer tok peer = if has_sock tok peer then record peer { sock = none } else peer

unfoldable pub drop_sock : Token → List Peer → List Peer
unfolding drop_peer
drop_sock tok [] = []
drop_sock tok (peer ∷ rest) = drop_peer tok peer ∷ drop_sock tok rest

-- The tokens that a `match` of `ready` takes for a peer's connection, and for a client's.
abbrev pub is_peer_token : Token → Bool
is_peer_token tok = leb 2 tok && leb tok 16

abbrev pub is_cli_token : Token → Bool
is_cli_token tok = leb 1024 tok && leb tok 4096

module _ {S : Type 0} ⦃L : Slab S⦄ where
  -- The arms of the first `match` of `ready`.
  unfoldable pub hup_peer : TrafficCop S → Token → TrafficCop S
  unfolding drop_sock
  hup_peer self tok =
      if is_some (L.get self.peer_handler.conns tok)
      then record self {
        peer_handler = record self.peer_handler { conns = L.remove self.peer_handler.conns tok };
        peers = drop_sock tok self.peers;
      }
      else self

  unfoldable pub hup_cli : TrafficCop S → Token → TrafficCop S
  hup_cli self tok =
      if is_some (L.get self.cli_handler.conns tok)
      then record self {
        cli_handler = record self.cli_handler { conns = L.remove self.cli_handler.conns tok };
      }
      else self

  unfoldable pub ready_hup : TrafficCop S → Token → EventSet → Outcome (TrafficCop S)
  unfolding hup_peer hup_cli
  ready_hup self tok events =
      if not (events.hup || events.error)
      then ok self
      else if is_peer_token tok
      then ok (hup_peer self tok)
      else if is_cli_token tok
      then ok (hup_cli self tok)
      else panic

  unfoldable pub ready_writable : TrafficCop S → Token → EventSet → Answers → Outcome (TrafficCop S)
  ready_writable self tok events answers =
      if not events.writable
      then ok self
      else if tok == server_peers || tok == server_clients
      then panic
      else if is_peer_range tok
      then (conn_writable self.peer_handler tok answers >>= λ (h, result).
          ok (record self { peer_handler = h }))
      else if is_cli_range tok
      then (conn_writable self.cli_handler tok answers >>= λ (h, result).
          ok (record self { cli_handler = h }))
      else panic

module _ {S : Type 0} ⦃L : Slab S⦄ ⦃T : TryRead⦄ where
  unfoldable pub ready_readable : TrafficCop S → Token → EventSet → Answers → Outcome (TrafficCop S)
  ready_readable self tok events answers =
      if not events.readable
      then ok self
      else if tok == server_peers
      then (accept self.peer_handler answers >>= λ (h, result).
          ok (record self { peer_handler = h }))
      else if tok == server_clients
      then (accept self.cli_handler answers >>= λ (h, result). ok (record self { cli_handler = h }))
      else if is_peer_token tok
      then (do
        (h, result) ← conn_readable self.peer_handler tok answers
        done ← unwrap_io result
        ok (record self { peer_handler = h }))
      else if is_cli_token tok
      then (do
        (h, result) ← conn_readable self.cli_handler tok answers
        done ← unwrap_io result
        ok (record self { cli_handler = h }))
      else panic

  unfoldable pub ready : TrafficCop S → Token → EventSet → Answers → Outcome (TrafficCop S)
  unfolding ready_hup ready_readable ready_writable
  ready self tok events answers = do
    s ← ready_hup self tok events
    s' ← ready_readable s tok events answers
    ready_writable s' tok events answers
