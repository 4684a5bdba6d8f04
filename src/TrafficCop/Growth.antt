-- ===== src/TrafficCop/Growth.antt =====
-- `timeout` of src/server/traffic_cop.rs and the peers' sockets: none is given twice.
use rasputin.Prelude.{
  ℕ, ◌+◌, ◌≡◌, ◌≢◌, ◌≤◌, refl, sym, ap, ◌∙◌, true, is_some, Option, none, some, List, [], ◌∷◌,
  arith, Bool-cases, Option-cases, inl, inr, if◌then◌else◌, eqb, eqb_iff, Outcome, ok, ◌>>=◌, Keeps,
  Keeps-bind,
}
use mathlib.Core.Path.{subst}
use rasputin.Roles.{Token, SocketAddr}
use rasputin.ServerConn.{ServerConn, IoResult, io_ok, io_err, unwrap_io}
use rasputin.ServerConn
use rasputin.ConnSet.{Slab, SlabLaws, ConnSet, register, set_token}
use rasputin.ConnSet.Known.{Holds}
use rasputin.TrafficCop.{Peer, Dialed, dial_peers, registered_as}
use rasputin.TrafficCop.Linked.{AllLinked, AllLinked-Holds}
use rasputin.TrafficCop.Sockets.{holders, holders-cons, holders-free}

module _ {S : Type 0} ⦃L : Slab S⦄ (laws : SlabLaws L) where
  -- What a new connection changes: only its own token, which was free.
  abbrev Fresh : ConnSet S → ConnSet S → IoResult Token → Type 0
  Fresh self next (io_err e) = (t : Token) → L.get next.conns t ≡ L.get self.conns t
  Fresh self next (io_ok tok) =
      (L.get self.conns tok ≡ none)
      × (is_some (L.get next.conns tok) ≡ true)
      × ((t : Token) → t ≢ tok → L.get next.conns t ≡ L.get self.conns t)

  set_token-Fresh :
      (self : ConnSet S) (conns : S) (tok : Token) (registered : IoResult (Unit {0}))
      → L.insert self.conns ServerConn.new ≡ some (tok, conns)
      → Keeps (λ r. Fresh self r.0 r.1) (set_token (record self { conns = conns }) tok registered)
  unfolding set_token
  set_token-Fresh self conns tok (io_err e) there = tt
  set_token-Fresh self conns tok (io_ok done) there =
      let new : ServerConn = record ServerConn.new { token = some tok } in
      let made = laws.get-insert self.conns conns ServerConn.new tok there in
      rw made (
        laws.insert-fresh self.conns conns ServerConn.new tok there,
        rw (laws.get-set conns tok new ServerConn.new made) refl,
        λ t n.
            laws.get-set_ne conns tok t new n
            ∙ laws.get-insert_ne self.conns conns ServerConn.new tok t there n,
      )

  register-Fresh :
      (self : ConnSet S) (registered : IoResult (Unit {0}))
      → Keeps (λ r. Fresh self r.0 r.1) (register self registered)
  unfolding register
  register-Fresh self registered = elim (Option-cases (L.insert self.conns ServerConn.new)) [
    | inl full ↦ rw (full, register) (λ t. refl)
    | inr ((tok, conns), there) ↦
        rw (there, register) (set_token-Fresh self conns tok registered there)
  ]

  -- At most one more peer has a socket than before, and only where its token was free.
  abbrev pub Grows : ConnSet S → List Peer → List Peer × ConnSet S → Type 0
  Grows handler peers r =
      (t : Token)
      → holders t r.0 ≤ holders t peers + (if is_some (L.get handler.conns t) then 0 else 1)

  abbrev pub Goes : List Peer → (ConnSet S → Outcome (List Peer × ConnSet S)) → Type 0
  Goes rest go =
      (handler : ConnSet S) → AllLinked handler.conns rest → Keeps (Grows handler rest) (go handler)

  kept-Grows :
      (peer : Peer) (rest : List Peer) (handler : ConnSet S) (o : Outcome (List Peer × ConnSet S))
      → Keeps (Grows handler rest) o
      → Keeps (Grows handler (peer ∷ rest)) (o >>= λ (peers, last). ok (peer ∷ peers, last))
  kept-Grows peer rest handler o k =
      Keeps-bind (Grows handler rest) (Grows handler (peer ∷ rest)) o _ k
        λ r g t. omega (arith, holders-cons t peer rest, holders-cons t peer r.0, g t)

  registered-Grows :
      (peer : Peer) (rest : List Peer) (handler next : ConnSet S) (tok : Token)
      (r : List Peer × ConnSet S)
      → peer.sock ≡ none
      → AllLinked handler.conns rest
      → Fresh handler next (io_ok tok)
      → Grows next rest r
      → Grows handler (peer ∷ rest) (record peer { sock = some tok } ∷ r.0, r.1)
  registered-Grows peer rest handler next tok r e l f g t = elim (Bool-cases (eqb t tok)) [
    | inl same ↦
        let q : t ≡ tok = ground (arith, eqb_iff t tok) in
        let free : L.get handler.conns t ≡ none =
          subst (λ (u : Token). L.get handler.conns u ≡ none) (sym q) f.0 in
        let used : is_some (L.get next.conns t) ≡ true =
          subst (λ (u : Token). is_some (L.get next.conns u) ≡ true) (sym q) f.1 in
        rw free (
          ground (
            arith,
            same,
            used,
            holders-cons t (record peer { sock = some tok }) r.0,
            holders-cons t peer rest,
            holders-free laws handler.conns t rest l free,
            g t,
          ))
    | inr other ↦
        let n : t ≢ tok = λ q. ground (arith, eqb_iff t tok) in
        rw (sym (f.2 t n)) (
          ground (
            arith,
            other,
            holders-cons t (record peer { sock = some tok }) r.0,
            holders-cons t peer rest,
            g t,
          ))
  ]

  Fresh-Holds :
      (handler next : ConnSet S) (result : IoResult Token)
      → Fresh handler next result
      → Holds laws handler.conns next.conns
  Fresh-Holds handler next (io_err e) f t h = ap is_some (f t) ∙ h
  Fresh-Holds handler next (io_ok tok) f t h = elim (Bool-cases (eqb t tok)) [
    | inl same ↦
        subst (λ (u : Token). is_some (L.get next.conns u) ≡ true) (ground (arith, eqb_iff t tok))
          f.1
    | inr other ↦ ap is_some (f.2 t (λ q. ground (arith, eqb_iff t tok))) ∙ h
  ]

  registered_as-Grows :
      (peer : Peer) (rest : List Peer) (go : ConnSet S → Outcome (List Peer × ConnSet S))
      (handler next : ConnSet S) (result : IoResult Token)
      → Goes rest go
      → peer.sock ≡ none
      → AllLinked handler.conns rest
      → Fresh handler next result
      → Keeps
          (Grows handler (peer ∷ rest))
          (go next >>= λ (peers, last). ok (registered_as peer result ∷ peers, last))
  registered_as-Grows peer rest go handler next result g e l f =
      Keeps-bind (Grows next rest) (Grows handler (peer ∷ rest)) (go next) _
        (g next (
          AllLinked-Holds laws handler.conns next.conns rest (Fresh-Holds handler next result f) l))
        (grown result f)
    where
      grown :
          (result : IoResult Token)
          → Fresh handler next result
          → (r : List Peer × ConnSet S) → Grows next rest r
          → Grows handler (peer ∷ rest) (registered_as peer result ∷ r.0, r.1)
      grown (io_ok tok) f r k = registered-Grows peer rest handler next tok r e l f k
      grown (io_err x) f r k = λ t.
          rw (sym (f t)) (omega (arith, holders-cons t peer rest, holders-cons t peer r.0, k t))

  connected-Grows :
      (peer : Peer) (rest : List Peer) (go : ConnSet S → Outcome (List Peer × ConnSet S))
      (handler : ConnSet S) (answer : Dialed)
      → Goes rest go
      → peer.sock ≡ none
      → AllLinked handler.conns rest
      → Keeps (Grows handler (peer ∷ rest)) (
          unwrap_io answer.connected >>= λ done.
          (register handler answer.registered >>= λ (next, result).
          (go next >>= λ (peers, last). ok (registered_as peer result ∷ peers, last))))
  connected-Grows peer rest go handler answer g e l =
      Keeps-bind (λ _. Unit {0}) (Grows handler (peer ∷ rest)) (unwrap_io answer.connected) _
        (ground arith)
        λ _ _.
          Keeps-bind (λ (r : ConnSet S × IoResult Token). Fresh handler r.0 r.1)
            (Grows handler (peer ∷ rest)) _ _ (register-Fresh handler answer.registered)
            λ r f. registered_as-Grows peer rest go handler r.0 r.1 g e l f

  dial_one-Grows :
      (addr : SocketAddr) (sock : Option Token) (rest : List Peer) (dials : ℕ → Dialed) (k : ℕ)
      (handler : ConnSet S)
      → Goes rest (dial_peers dials (k + 1) rest)
      → AllLinked handler.conns rest
      → Keeps
          (Grows handler (record { addr = addr; sock = sock } ∷ rest))
          (dial_peers dials k (record { addr = addr; sock = sock } ∷ rest) handler)
  unfolding dial_peers
  dial_one-Grows addr none rest dials k handler g l =
      connected-Grows (record { addr = addr; sock = none }) rest (dial_peers dials (k + 1) rest)
        handler (dials k) g refl l
  dial_one-Grows addr (some tok) rest dials k handler g l =
      kept-Grows (record { addr = addr; sock = some tok }) rest handler
        (dial_peers dials (k + 1) rest handler) (g handler l)

  pub dial_peers-Grows :
      (dials : ℕ → Dialed) (k : ℕ) (peers : List Peer) → Goes peers (dial_peers dials k peers)
  unfolding dial_peers
  dial_peers-Grows dials k [] handler l = λ t. omega arith
  dial_peers-Grows dials k (peer ∷ rest) handler l =
      dial_one-Grows peer.addr peer.sock rest dials k handler (dial_peers-Grows dials (k + 1) rest)
        l.1
