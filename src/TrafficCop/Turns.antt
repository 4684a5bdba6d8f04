-- ===== src/TrafficCop/Turns.antt =====
-- The turns of the event loop of src/server/traffic_cop.rs: its calls of `ready`, `timeout` and
-- `notify`.
use rasputin.Prelude.{ok, ◌>>=◌, Keeps, Keeps-bind, arith, nat_key}
use rasputin.Roles.{Token}
use rasputin.Codec.{TryRead}
use rasputin.ServerConn.{IoResult, io_ok, io_err, EventSet, unwrap_io}
use rasputin.ConnSet.{Slab, SlabLaws, ConnSet, Answers, accept, conn_readable, conn_writable}
use rasputin.ConnSet.Known.{Known, Holds, conn_writable-Known, conn_readable-Known}
use rasputin.ConnSet.Joining.{accept-Known}
use rasputin.TrafficCop.{TrafficCop}
use rasputin.TrafficCop.Ready.{ready_readable, ready_writable, ready}
use rasputin.TrafficCop.Linked.{Inv, with_peers, with_clis, ready_hup-Inv}

unwrap_io-Keeps :
    {A : Type 0} {B : Type 0} (P : B → Type 0) (r : IoResult A) (b : B)
    → P b
    → Keeps P (unwrap_io r >>= λ _. ok b)
unwrap_io-Keeps P (io_ok a) b p = p
unwrap_io-Keeps P (io_err e) b p = tt

module _ {S : Type 0} ⦃L : Slab S⦄ (laws : SlabLaws L) where
  -- What a handler's call does to the peers' set, and to the clients'.
  abbrev PeersGrow : TrafficCop S → ConnSet S × IoResult (Unit {0}) → Type 0
  PeersGrow cop r = Known laws 2 15 r.0.conns × Holds laws cop.peer_handler.conns r.0.conns

  abbrev ClisGrow : TrafficCop S → ConnSet S × IoResult (Unit {0}) → Type 0
  ClisGrow cop r = Known laws 1024 4096 r.0.conns × Holds laws cop.cli_handler.conns r.0.conns

  ready_writable-Inv :
      (cop : TrafficCop S) (tok : Token) (events : EventSet) (answers : Answers)
      → Inv laws cop
      → Keeps (Inv laws) (ready_writable cop tok events answers)
  unfolding ready_writable
  ready_writable-Inv cop tok events answers v =
      let peers : Keeps (Inv laws) (
          conn_writable cop.peer_handler tok answers >>= λ (h, result).
          ok (record cop { peer_handler = h })) =
        Keeps-bind (PeersGrow cop) (Inv laws) _ _
          (conn_writable-Known laws 2 15 cop.peer_handler tok answers v.peers_known)
          λ r q. with_peers laws cop r.0 v q.0 q.1 in
      let clis : Keeps (Inv laws) (
          conn_writable cop.cli_handler tok answers >>= λ (h, result).
          ok (record cop { cli_handler = h })) =
        Keeps-bind (ClisGrow cop) (Inv laws) _ _
          (conn_writable-Known laws 1024 4096 cop.cli_handler tok answers v.clis_known)
          λ r q. with_clis laws cop r.0 v q.0 in
      ground arith

  ready_readable-Inv :
      ⦃T : TryRead⦄ (cop : TrafficCop S) (tok : Token) (events : EventSet) (answers : Answers)
      → Inv laws cop
      → Keeps (Inv laws) (ready_readable cop tok events answers)
  unfolding ready_readable
  ready_readable-Inv cop tok events answers v =
      let peer_joins : Keeps (Inv laws) (
          accept cop.peer_handler answers >>= λ (h, result). ok (record cop { peer_handler = h })) =
        Keeps-bind (PeersGrow cop) (Inv laws) _ _
          (accept-Known laws 2 15 cop.peer_handler answers v.peers_known)
          λ r q. with_peers laws cop r.0 v q.0 q.1 in
      let client_joins : Keeps (Inv laws)
          (accept cop.cli_handler answers >>= λ (h, result). ok (record cop { cli_handler = h })) =
        Keeps-bind (ClisGrow cop) (Inv laws) _ _
          (accept-Known laws 1024 4096 cop.cli_handler answers v.clis_known)
          λ r q. with_clis laws cop r.0 v q.0 in
      let peers : Keeps (Inv laws) (
          conn_readable cop.peer_handler tok answers >>= λ (h, result).
          (unwrap_io result >>= λ done. ok (record cop { peer_handler = h }))) =
        Keeps-bind (PeersGrow cop) (Inv laws) _ _
          (conn_readable-Known laws 2 15 cop.peer_handler tok answers v.peers_known)
          λ r q. unwrap_io-Keeps (Inv laws) r.1 _ (with_peers laws cop r.0 v q.0 q.1) in
      let clis : Keeps (Inv laws) (
          conn_readable cop.cli_handler tok answers >>= λ (h, result).
          (unwrap_io result >>= λ done. ok (record cop { cli_handler = h }))) =
        Keeps-bind (ClisGrow cop) (Inv laws) _ _
          (conn_readable-Known laws 1024 4096 cop.cli_handler tok answers v.clis_known)
          λ r q. unwrap_io-Keeps (Inv laws) r.1 _ (with_clis laws cop r.0 v q.0) in
      ground arith

  pub ready-Inv :
      ⦃T : TryRead⦄ (cop : TrafficCop S) (tok : Token) (events : EventSet) (answers : Answers)
      → Inv laws cop
      → Keeps (Inv laws) (ready cop tok events answers)
  unfolding ready
  ready-Inv cop tok events answers v =
      Keeps-bind (Inv laws) (Inv laws) _ _ (ready_hup-Inv laws cop tok events v) λ s v'.
        Keeps-bind (Inv laws) (Inv laws) _ _ (ready_readable-Inv s tok events answers v')
          λ s' v''. ready_writable-Inv s' tok events answers v''
