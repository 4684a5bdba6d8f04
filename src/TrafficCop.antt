-- ===== src/TrafficCop.antt =====
-- src/server/traffic_cop.rs: the event loop's handler, with the sockets of the clients and of the
-- peers. The event loop calls `ready`, `timeout` and `notify`.
pub mod Ready
pub mod Linked
pub mod Dialling
pub mod Sending
pub mod Broadcast
pub mod Sockets
pub mod Growth
pub mod Apart
pub mod Once
pub mod Turns
pub mod Loop
use rasputin.Prelude.{
  ℕ, String, Bytes, Bool, true, false, not, ◌&&◌, ◌||◌, ◌+◌, Option, none, some, List, [], ◌∷◌,
  ◌++◌, Outcome, ok, panic, unwrap, ◌>>=◌, ltb, leb, ◌==◌, eqb, nat_key, is_some, if◌then◌else◌,
}
use rasputin.Roles.{Envelope, SocketAddr, Token, server_clients, server_peers, peer_broadcast_token}
use rasputin.Codec.{TryRead}
use rasputin.ServerConn.{ServerConn, IoResult, io_ok, io_err, EventSet, queue_frame, unwrap_io}
use rasputin.ConnSet.{Slab, ConnSet, Answers, conn_readable, conn_writable, accept, register}

-- `server::Peer`
pub record Peer : Type 0 where
  pub addr : SocketAddr
  pub sock : Option Token

pub record TrafficCop (S : Type 0) : Type 0 where
  pub peers : List Peer
  pub cli_handler : ConnSet S
  pub peer_handler : ConnSet S

-- `peer.parse().unwrap()` for each address.
unfoldable pub parse_peers : (String → Option SocketAddr) → List String → Outcome (List Peer)
parse_peers parse [] = ok []
parse_peers parse (peer ∷ rest) = do
  addr ← unwrap (parse peer)
  peers ← parse_peers parse rest
  ok (record { addr = addr; sock = none } ∷ peers)

-- The wider ranges of `tok_to_sc` and of the writable branch of `ready`.
unfoldable pub is_peer_range : Token → Bool
is_peer_range tok = ltb 1 tok && leb tok 128

unfoldable pub is_cli_range : Token → Bool
is_cli_range tok = ltb 128 tok && leb tok 4096

-- The sockets that a notification is for.
unfoldable pub peer_toks : List Peer → List Token
peer_toks [] = []
peer_toks (peer ∷ rest) = elim peer.sock [ none ↦ peer_toks rest | some tok ↦ tok ∷ peer_toks rest ]

-- What a call of `connect(&peer.addr).unwrap()` and of `register` is answered.
pub record Dialed : Type 0 where
  pub connected : IoResult (Unit {0})
  pub registered : IoResult (Unit {0})

-- The `match` of `timeout` on the answer of `register`.
abbrev pub registered_as : Peer → IoResult Token → Peer
registered_as peer (io_ok tok) = record peer { sock = some tok }
registered_as peer (io_err e) = peer

module _ {S : Type 0} ⦃L : Slab S⦄ where
  -- `bound` are the answers of the two calls of `TcpListener::bind`, the clients' first.
  unfoldable pub new :
      IoResult (Unit {0})
      → IoResult (Unit {0})
      → (String → Option SocketAddr)
      → List String
      → Outcome (IoResult (TrafficCop S))
  unfolding parse_peers
  new (io_err e) bound parse peer_addrs = ok (io_err e)
  new (io_ok done) (io_err e) parse peer_addrs = ok (io_err e)
  new (io_ok done) (io_ok also) parse peer_addrs = do
    peers ← parse_peers parse peer_addrs
    ok (
        io_ok (record {
          peers = peers;
          cli_handler = record {
            srv_token = server_clients;
            conns = L.starting_at 1024 4096;
            req_tx = [];
          };
          peer_handler = record {
            srv_token = server_peers;
            conns = L.starting_at 2 15;
            req_tx = [];
          };
        }))

  unfoldable pub tok_to_sc : TrafficCop S → Token → Option ServerConn
  tok_to_sc self tok =
      if is_peer_range tok
      then L.get self.peer_handler.conns tok
      else if is_cli_range tok
      then L.get self.cli_handler.conns tok
      else none

  -- A write through what `tok_to_sc` returns.
  unfoldable pub put_sc : TrafficCop S → Token → ServerConn → TrafficCop S
  put_sc self tok conn =
      if is_peer_range tok
      then record self {
        peer_handler = record self.peer_handler { conns = L.set self.peer_handler.conns tok conn };
      }
      else record self {
        cli_handler = record self.cli_handler { conns = L.set self.cli_handler.conns tok conn };
      }

  -- The loop of `timeout`: the `k`-th peer without a socket is dialled, and `dials k` is answered.
  unfoldable pub dial_peers :
      (ℕ → Dialed) → ℕ → List Peer → ConnSet S → Outcome (List Peer × ConnSet S)
  dial_peers dials k [] handler = ok ([], handler)
  dial_peers dials k (peer ∷ rest) handler = elim peer.sock [
    | some tok ↦ do (peers, last) ← dial_peers dials (k + 1) rest handler; ok (peer ∷ peers, last)
    | none ↦ do
      done ← unwrap_io (dials k).connected
      (next, result) ← register handler (dials k).registered
      (peers, last) ← dial_peers dials (k + 1) rest next
      ok (registered_as peer result ∷ peers, last)
  ]

  -- Setting the next timer is left out.
  unfoldable pub timeout : TrafficCop S → (ℕ → Dialed) → Outcome (TrafficCop S)
  unfolding dial_peers
  timeout self dials = do
    (peers, handler) ← dial_peers dials 0 self.peers self.peer_handler
    ok (record self { peers = peers; peer_handler = handler })

  -- The body of the loop of `notify`. The answer of `reregister` is dropped.
  unfoldable pub send_to : TrafficCop S → Bytes → Token → TrafficCop S
  unfolding tok_to_sc put_sc
  send_to self msg tok = elim (tok_to_sc self tok) [
    | none ↦ self
    | some sc ↦ put_sc self tok (queue_frame sc msg)
  ]

  unfoldable pub send_each : TrafficCop S → Bytes → List Token → TrafficCop S
  unfolding send_to
  send_each self msg [] = self
  send_each self msg (tok ∷ rest) = send_each (send_to self msg tok) msg rest

  unfoldable pub notify : TrafficCop S → Envelope → TrafficCop S
  unfolding send_each peer_toks
  notify self msg =
      send_each self msg.msg
        (if msg.tok == peer_broadcast_token then peer_toks self.peers else msg.tok ∷ [])
