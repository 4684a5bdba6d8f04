-- ===== src/TrafficCop/Once.antt =====
-- Over runs of src/server/traffic_cop.rs each peer's socket is that of one peer, and gets a
-- broadcast once.
use rasputin.Prelude.{
  ℕ, String, ◌≡◌, ◌≤◌, refl, ap, ◌∙◌, true, Option, none, some, List, [], ◌∷◌, arith, Option-cases,
  inl, inr, Outcome, ok, panic, Keeps, Keeps-bind, nat_key,
}
use mathlib.Core.Path.{subst}
use rasputin.Roles.{Token, Envelope, SocketAddr, peer_broadcast_token}
use rasputin.Codec.{TryRead}
use rasputin.ServerConn.{ServerConn, IoResult, io_ok, io_err, queue_frame}
use rasputin.ConnSet.{Slab, SlabLaws}
use rasputin.TrafficCop.{
  TrafficCop, Dialed, peer_toks, timeout, tok_to_sc, notify, parse_peers, new, is_peer_range,
}
use rasputin.TrafficCop.Ready.{is_peer_token, ready}
use rasputin.TrafficCop.Linked.{Inv}
use rasputin.TrafficCop.Loop.{
  turns-Inv, Turn, readied, timed_out, notified, turn, turns, run_made, run, Made, new-Made,
  turn-Inv,
}
use rasputin.TrafficCop.Broadcast.{times, recipients, queued, tok_to_sc-notify}
use rasputin.TrafficCop.Sockets.{holders, holders-free, holders-IsLinked, times-peer_toks}
use rasputin.TrafficCop.Growth.{Grows, dial_peers-Grows}
use rasputin.TrafficCop.Apart.{Keeps-map, Shrinks, ready-Shrinks, peers-notify}

Keeps-both :
    {A : Type 0} (P Q : A → Type 0) (o : Outcome A)
    → Keeps P o
    → Keeps Q o
    → Keeps (λ a. P a × Q a) o
Keeps-both P Q (ok a) h k = (h, k)
Keeps-both P Q panic h k = tt

module _ {S : Type 0} ⦃L : Slab S⦄ ⦃T : TryRead⦄ (laws : SlabLaws L) where
  -- At most one peer has the socket.
  abbrev One : Token → TrafficCop S → Type 0
  One t cop = holders t cop.peers ≤ 1

  timeout-One :
      (t : Token) (cop : TrafficCop S) (dials : ℕ → Dialed)
      → Inv laws cop
      → One t cop
      → Keeps (One t) (timeout cop dials)
  unfolding timeout
  timeout-One t cop dials v one =
      Keeps-bind (Grows laws cop.peer_handler cop.peers) (One t) _ _
        (dial_peers-Grows laws dials 0 cop.peers cop.peer_handler v.linked)
        λ r g. elim (Option-cases (L.get cop.peer_handler.conns t)) [
          | inl free ↦
              ground (
                arith,
                g t,
                free,
                holders-free laws cop.peer_handler.conns t cop.peers v.linked free,
              )
          | inr (c, used) ↦ ground (arith, g t, used)
        ]

  turn-One :
      (t : Token) (cop : TrafficCop S) (event : Turn)
      → Inv laws cop
      → One t cop
      → Keeps (One t) (turn cop event)
  unfolding turn
  turn-One t cop (readied tok events answers) v one =
      Keeps-map (Shrinks t cop) (One t) (ready cop tok events answers)
        (ready-Shrinks t cop tok events answers) λ c s. omega arith
  turn-One t cop (timed_out dials) v one = timeout-One t cop dials v one
  turn-One t cop (notified msg) v one = rw (peers-notify cop msg) one

  turns-One :
      (t : Token) (events : List Turn) (cop : TrafficCop S)
      → Inv laws cop
      → One t cop
      → Keeps (One t) (turns cop events)
  unfolding turns
  turns-One t [] cop v one = one
  turns-One t (event ∷ rest) cop v one =
      Keeps-bind (λ c. Inv laws c × One t c) (One t) (turn cop event) (λ next. turns next rest)
        (Keeps-both (Inv laws) (One t) (turn cop event) (turn-Inv laws cop event v)
          (turn-One t cop event v one))
        λ c q. turns-One t rest c q.0 q.1

  holders-parse_peers :
      (t : Token) (parse : String → Option SocketAddr) (peers : List String)
      → Keeps (λ found. holders t found ≡ 0) (parse_peers parse peers)
  unfolding parse_peers holders
  holders-parse_peers t parse [] = refl
  holders-parse_peers t parse (peer ∷ rest) = elim (Option-cases (parse peer)) [
    | inl bad ↦ rw (bad, parse_peers) tt
    | inr (addr, good) ↦
        rw (good, parse_peers)
          (Keeps-bind (λ found. holders t found ≡ 0) (λ found. holders t found ≡ 0)
            (parse_peers parse rest) _ (holders-parse_peers t parse rest)
            λ found e. omega (arith, e))
  ]

  -- If a handler was made, no socket is that of two of its peers.
  abbrev MadeOne : Token → IoResult (TrafficCop S) → Type 0
  MadeOne t (io_err e) = Unit {0}
  MadeOne t (io_ok cop) = One t cop

  new-One :
      (t : Token) (first second : IoResult (Unit {0})) (parse : String → Option SocketAddr)
      (peers : List String)
      → Keeps (MadeOne t) (new first second parse peers)
  unfolding new
  new-One t (io_err e) second parse peers = tt
  new-One t (io_ok done) (io_err e) parse peers = tt
  new-One t (io_ok done) (io_ok also) parse peers =
      Keeps-bind (λ found. holders t found ≡ 0) (MadeOne t) (parse_peers parse peers) _
        (holders-parse_peers t parse peers) λ found e. omega (arith, e)

  abbrev OneSome : Token → Option (TrafficCop S) → Type 0
  OneSome t none = Unit {0}
  OneSome t (some cop) = Inv laws cop × One t cop

  run_made-One :
      (t : Token) (made : IoResult (TrafficCop S)) (events : List Turn)
      → Made laws made
      → MadeOne t made
      → Keeps (OneSome t) (run_made made events)
  unfolding run_made
  run_made-One t (io_err e) events v one = tt
  run_made-One t (io_ok cop) events v one =
      Keeps-bind (λ c. Inv laws c × One t c) (OneSome t) (turns cop events) _
        (Keeps-both (Inv laws) (One t) (turns cop events) (turns-Inv laws events cop v)
          (turns-One t events cop v one))
        λ c q. q

  run-One :
      (t : Token) (first second : IoResult (Unit {0})) (parse : String → Option SocketAddr)
      (peers : List String) (events : List Turn)
      → Keeps (OneSome t) (run first second parse peers events)
  unfolding run
  run-One t first second parse peers events =
      Keeps-bind (λ made. Made laws made × MadeOne t made) (OneSome t)
        (new first second parse peers) (λ made. run_made made events)
        (Keeps-both (Made laws) (MadeOne t) (new first second parse peers)
          (new-Made laws first second parse peers) (new-One t first second parse peers))
        λ made q. run_made-One t made events q.0 q.1

  peer-tok_to_sc :
      (cop : TrafficCop S) (t : Token)
      → is_peer_token t ≡ true
      → tok_to_sc cop t ≡ L.get cop.peer_handler.conns t
  unfolding tok_to_sc is_peer_range
  peer-tok_to_sc cop t p = ground arith

  recipients-broadcast :
      (cop : TrafficCop S) (msg : Envelope)
      → msg.tok ≡ peer_broadcast_token
      → recipients cop msg ≡ peer_toks cop.peers
  unfolding recipients
  recipients-broadcast cop msg to_all = ground (arith, to_all)

  notify-once :
      (cop : TrafficCop S) (msg : Envelope) (t : Token)
      → Inv laws cop
      → One t cop
      → 1 ≤ holders t cop.peers
      → msg.tok ≡ peer_broadcast_token
      → (c : ServerConn) × (tok_to_sc cop t ≡ some c)
        × (tok_to_sc (notify cop msg) t ≡ some (queue_frame c msg.msg))
  unfolding queued
  notify-once cop msg t v one held to_all =
      let l = holders-IsLinked laws cop.peer_handler.conns t cop.peers v.linked held in
      elim (Option-cases (L.get cop.peer_handler.conns t)) [
        | inl missing ↦ absurd (ground (arith, l.0, missing))
        | inr (c, there) ↦
            let found = peer-tok_to_sc cop t l.1 ∙ there in
            let once : times t (recipients cop msg) ≡ 1 =
              ap (times t) (recipients-broadcast cop msg to_all)
              ∙ times-peer_toks t cop.peers
              ∙ omega arith in
            (
              c,
              found,
              tok_to_sc-notify laws cop msg t c found
                  ∙ ap (λ (n : ℕ). some (queued n c msg.msg)) once,
            )
      ]

  -- Over a slab that gives out free tokens in its range, after any calls of the event loop on the
  -- handler that `new` made, with any answers of the sockets, a message for all is queued exactly
  -- once on the connection of each peer that has a socket, and there is such a connection.
  pub run-broadcast :
      (first second : IoResult (Unit {0})) (parse : String → Option SocketAddr)
      (peers : List String) (events : List Turn) (cop : TrafficCop S) (msg : Envelope) (t : Token)
      → run first second parse peers events ≡ ok (some cop)
      → 1 ≤ holders t cop.peers
      → msg.tok ≡ peer_broadcast_token
      → (c : ServerConn) × (tok_to_sc cop t ≡ some c)
        × (tok_to_sc (notify cop msg) t ≡ some (queue_frame c msg.msg))
  run-broadcast first second parse peers events cop msg t e held to_all =
      let q : OneSome t (some cop) =
        subst (Keeps (OneSome t)) e (run-One t first second parse peers events) in
      notify-once cop msg t q.0 q.1 held to_all
