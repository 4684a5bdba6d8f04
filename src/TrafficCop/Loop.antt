-- ===== src/TrafficCop/Loop.antt =====
-- The event loop's run over src/server/traffic_cop.rs: its calls, one after the other.
use rasputin.Prelude.{
  ℕ, String, Option, none, some, List, [], ◌∷◌, Outcome, ok, ◌>>=◌, Keeps, Keeps-bind, inl, inr,
  Option-cases,
}
use rasputin.Roles.{Token, SocketAddr, Envelope}
use rasputin.Codec.{TryRead}
use rasputin.ServerConn.{IoResult, io_ok, io_err, EventSet}
use rasputin.ConnSet.{Slab, SlabLaws, Answers}
use rasputin.ConnSet.Known.{starting_at-Known}
use rasputin.TrafficCop.{TrafficCop, Dialed, timeout, notify, new, parse_peers}
use rasputin.TrafficCop.Ready.{ready}
use rasputin.TrafficCop.Linked.{AllLinked, Inv}
use rasputin.TrafficCop.Turns.{ready-Inv}
use rasputin.TrafficCop.Dialling.{timeout-Inv}
use rasputin.TrafficCop.Sending.{notify-Inv}

-- A call of the event loop, with what the sockets answer in it.
pub data Turn : Type 0 where
  readied : Token → EventSet → Answers → Turn
  timed_out : (ℕ → Dialed) → Turn
  notified : Envelope → Turn

module _ {S : Type 0} ⦃L : Slab S⦄ ⦃T : TryRead⦄ where
  unfoldable pub turn : TrafficCop S → Turn → Outcome (TrafficCop S)
  turn cop (readied tok events answers) = ready cop tok events answers
  turn cop (timed_out dials) = timeout cop dials
  turn cop (notified msg) = ok (notify cop msg)

  unfoldable pub turns : TrafficCop S → List Turn → Outcome (TrafficCop S)
  unfolding turn
  turns cop [] = ok cop
  turns cop (t ∷ rest) = turn cop t >>= λ next. turns next rest

  unfoldable pub run_made : IoResult (TrafficCop S) → List Turn → Outcome (Option (TrafficCop S))
  unfolding turns
  run_made (io_err e) ts = ok none
  run_made (io_ok cop) ts = turns cop ts >>= λ last. ok (some last)

  -- The handler that `new` makes, run over some calls; a failed `bind` makes none.
  unfoldable pub run :
      IoResult (Unit {0})
      → IoResult (Unit {0})
      → (String → Option SocketAddr)
      → List String
      → List Turn
      → Outcome (Option (TrafficCop S))
  unfolding new run_made
  run first second parse peers ts = new first second parse peers >>= λ made. run_made made ts

module _ {S : Type 0} ⦃L : Slab S⦄ ⦃T : TryRead⦄ (laws : SlabLaws L) where
  pub turn-Inv : (cop : TrafficCop S) (t : Turn) → Inv laws cop → Keeps (Inv laws) (turn cop t)
  unfolding turn
  turn-Inv cop (readied tok events answers) v = ready-Inv laws cop tok events answers v
  turn-Inv cop (timed_out dials) v = timeout-Inv laws cop dials v
  turn-Inv cop (notified msg) v = notify-Inv laws cop msg v

  pub turns-Inv :
      (ts : List Turn) (cop : TrafficCop S) → Inv laws cop → Keeps (Inv laws) (turns cop ts)
  unfolding turns
  turns-Inv [] cop v = v
  turns-Inv (t ∷ rest) cop v =
      Keeps-bind (Inv laws) (Inv laws) (turn cop t) (λ next. turns next rest) (turn-Inv cop t v)
        λ next w. turns-Inv rest next w

  -- None of the peers that were parsed has a socket.
  parse_peers-AllLinked :
      (s : S) (parse : String → Option SocketAddr) (peers : List String)
      → Keeps (AllLinked s) (parse_peers parse peers)
  unfolding parse_peers
  parse_peers-AllLinked s parse [] = tt
  parse_peers-AllLinked s parse (peer ∷ rest) = elim (Option-cases (parse peer)) [
    | inl bad ↦ rw (bad, parse_peers) tt
    | inr (addr, good) ↦
        rw (good, parse_peers)
          (Keeps-bind (AllLinked s) (AllLinked s) (parse_peers parse rest) _
            (parse_peers-AllLinked s parse rest) λ found l. (tt, l))
  ]

  -- If a handler was made, it has the invariant.
  abbrev pub Made : IoResult (TrafficCop S) → Type 0
  Made (io_err e) = Unit {0}
  Made (io_ok cop) = Inv laws cop

  abbrev pub InvSome : Option (TrafficCop S) → Type 0
  InvSome none = Unit {0}
  InvSome (some cop) = Inv laws cop

  pub new-Made :
      (first second : IoResult (Unit {0})) (parse : String → Option SocketAddr)
      (peers : List String)
      → Keeps Made (new first second parse peers)
  unfolding new
  new-Made (io_err e) second parse peers = tt
  new-Made (io_ok done) (io_err e) parse peers = tt
  new-Made (io_ok done) (io_ok also) parse peers =
      Keeps-bind (AllLinked (L.starting_at 2 15)) Made (parse_peers parse peers) _
        (parse_peers-AllLinked (L.starting_at 2 15) parse peers)
        λ found l. record {
          peers_known = starting_at-Known laws 2 15;
          clis_known = starting_at-Known laws 1024 4096;
          linked = l;
        }

  run_made-Inv :
      (made : IoResult (TrafficCop S)) (ts : List Turn)
      → Made made
      → Keeps InvSome (run_made made ts)
  unfolding run_made
  run_made-Inv (io_err e) ts v = tt
  run_made-Inv (io_ok cop) ts v =
      Keeps-bind (Inv laws) InvSome (turns cop ts) _ (turns-Inv ts cop v) λ last w. w

  -- Over a slab that gives out free tokens in its range, any calls of the event loop, with any
  -- answers of the sockets, keep the handler that `new` made in the invariant, as long as it
  -- runs: each connection knows its own token, and a peer with a socket has a connection in the
  -- peers' slab, under a token that `ready` takes for a peer's.
  pub run-Inv :
      (first second : IoResult (Unit {0})) (parse : String → Option SocketAddr)
      (peers : List String) (ts : List Turn)
      → Keeps InvSome (run first second parse peers ts)
  unfolding run
  run-Inv first second parse peers ts =
      Keeps-bind Made InvSome (new first second parse peers) (λ made. run_made made ts)
        (new-Made first second parse peers) λ made v. run_made-Inv made ts v
