-- ===== src/TrafficCop/Dialling.antt =====
-- `timeout` of src/server/traffic_cop.rs and the peers' connections.
use rasputin.Prelude.{
  ℕ, ◌+◌, refl, some, List, [], ◌∷◌, Outcome, ok, ◌>>=◌, Keeps, Keeps-bind, arith, Option-cases,
  inl, inr, nat_key,
}
use rasputin.Roles.{Token}
use rasputin.ServerConn.{IoResult, io_ok, io_err, unwrap_io}
use rasputin.ConnSet.{Slab, SlabLaws, ConnSet, register}
use rasputin.ConnSet.Known.{Known, Holds}
use rasputin.ConnSet.Joining.{Registered, register-Known}
use rasputin.TrafficCop.{Peer, TrafficCop, Dialed, dial_peers, timeout, registered_as}
use rasputin.TrafficCop.Linked.{IsLinked, AllLinked, Inv, AllLinked-Holds, IsLinked-Holds}

module _ {S : Type 0} ⦃L : Slab S⦄ (laws : SlabLaws L) where
  -- What dialling makes of the peers and of their connections.
  abbrev Dials : ConnSet S → List Peer × ConnSet S → Type 0
  Dials handler r =
      Known laws 2 15 r.1.conns × Holds laws handler.conns r.1.conns × AllLinked r.1.conns r.0

  dial_rest-Dials :
      (peer : Peer) (first handler : ConnSet S) (o : Outcome (List Peer × ConnSet S))
      → Holds laws first.conns handler.conns
      → IsLinked handler.conns peer.sock
      → Keeps (Dials handler) o
      → Keeps (Dials first) (o >>= λ (peers, last). ok (peer ∷ peers, last))
  dial_rest-Dials peer first handler o h l k = Keeps-bind (Dials handler) (Dials first) o _ k λ r q.
      (
        q.0,
        λ t there. q.1 t (h t there),
        (IsLinked-Holds laws handler.conns r.1.conns peer.sock q.1 l, q.2),
      )

  -- The rest of the loop keeps what it should, from any handler.
  abbrev Goes : List Peer → (ConnSet S → Outcome (List Peer × ConnSet S)) → Type 0
  Goes rest go =
      (handler : ConnSet S)
      → Known laws 2 15 handler.conns
      → AllLinked handler.conns rest
      → Keeps (Dials handler) (go handler)

  registered_as-Dials :
      (peer : Peer) (rest : List Peer) (go : ConnSet S → Outcome (List Peer × ConnSet S))
      (handler next : ConnSet S) (result : IoResult Token)
      → Goes rest go
      → AllLinked handler.conns (peer ∷ rest)
      → Registered laws 2 15 handler next result
      → Keeps
          (Dials handler)
          (go next >>= λ (peers, last). ok (registered_as peer result ∷ peers, last))
  registered_as-Dials peer rest go handler next (io_ok tok) g l r =
      let range = r.2 tok refl in
      dial_rest-Dials (record peer { sock = some tok }) handler next (go next) r.1
        (range.0, ground (arith, range))
        (g next r.0 (AllLinked-Holds laws handler.conns next.conns rest r.1 l.1))
  registered_as-Dials peer rest go handler next (io_err e) g l r =
      dial_rest-Dials peer handler next (go next) r.1
        (IsLinked-Holds laws handler.conns next.conns peer.sock r.1 l.0)
        (g next r.0 (AllLinked-Holds laws handler.conns next.conns rest r.1 l.1))

  connected-Dials :
      (peer : Peer) (rest : List Peer) (go : ConnSet S → Outcome (List Peer × ConnSet S))
      (handler : ConnSet S) (answer : Dialed)
      → Goes rest go
      → Known laws 2 15 handler.conns
      → AllLinked handler.conns (peer ∷ rest)
      → Keeps (Dials handler) (
          unwrap_io answer.connected >>= λ done.
          (register handler answer.registered >>= λ (next, result).
          (go next >>= λ (peers, last). ok (registered_as peer result ∷ peers, last))))
  connected-Dials peer rest go handler answer g known l =
      Keeps-bind (λ _. Unit {0}) (Dials handler) (unwrap_io answer.connected) _ (ground arith)
        λ _ _.
          Keeps-bind (λ r. Registered laws 2 15 handler r.0 r.1) (Dials handler) _ _
            (register-Known laws 2 15 handler answer.registered known)
            λ r q. registered_as-Dials peer rest go handler r.0 r.1 g l q

  dial_peers-Dials :
      (dials : ℕ → Dialed) (k : ℕ) (peers : List Peer) → Goes peers (dial_peers dials k peers)
  unfolding dial_peers
  dial_peers-Dials dials k [] handler known l = (known, λ t h. h, tt)
  dial_peers-Dials dials k (peer ∷ rest) handler known l =
      let g = dial_peers-Dials dials (k + 1) rest in
      elim (Option-cases peer.sock) [
        | inl none_yet ↦
            rw (none_yet, dial_peers)
              (connected-Dials peer rest (dial_peers dials (k + 1) rest) handler (dials k) g known
                l)
        | inr (tok, has) ↦
            rw (has, dial_peers)
              (dial_rest-Dials peer handler handler _ (λ t h. h) l.0 (g handler known l.1))
      ]

  pub timeout-Inv :
      (cop : TrafficCop S) (dials : ℕ → Dialed)
      → Inv laws cop
      → Keeps (Inv laws) (timeout cop dials)
  unfolding timeout
  timeout-Inv cop dials v =
      Keeps-bind (Dials cop.peer_handler) (Inv laws) _ _
        (dial_peers-Dials dials 0 cop.peers cop.peer_handler v.peers_known v.linked)
        λ r q. record { peers_known = q.0; clis_known = v.clis_known; linked = q.2 }
