-- ===== src/TrafficCop/Sockets.antt =====
-- The peers' sockets of src/server/traffic_cop.rs: no two peers have the same.
use rasputin.Prelude.{
  ℕ, ◌+◌, ◌≡◌, ◌≤◌, refl, sym, ap, Option, none, some, List, [], ◌∷◌, arith, Bool-cases,
  Option-cases, inl, inr, if◌then◌else◌, eqb, eqb_iff,
}
use mathlib.Core.Path.{subst}
use rasputin.Roles.{Token, SocketAddr}
use rasputin.ConnSet.{Slab, SlabLaws}
use rasputin.TrafficCop.{Peer, peer_toks}
use rasputin.TrafficCop.Ready.{drop_peer, drop_sock}
use rasputin.TrafficCop.Linked.{IsLinked, AllLinked}
use rasputin.TrafficCop.Broadcast.{times}

-- Whether this is a peer's socket, as a number.
abbrev pub held : Token → Option Token → ℕ
held t none = 0
held t (some u) = if eqb t u then 1 else 0

-- How many peers have this socket.
unfoldable pub holders : Token → List Peer → ℕ
holders t [] = 0
holders t (peer ∷ rest) = held t peer.sock + holders t rest

-- The tokens that a broadcast is for name it as often.
pub times-peer_toks : (t : Token) (peers : List Peer) → times t (peer_toks peers) ≡ holders t peers
unfolding times peer_toks holders
times-peer_toks t [] = refl
times-peer_toks t (peer ∷ rest) = elim (Option-cases peer.sock) [
  | inl e ↦ rw (e, peer_toks) (omega (arith, times-peer_toks t rest))
  | inr (u, e) ↦ rw (e, peer_toks) (ground (arith, times-peer_toks t rest))
]

pub holders-cons :
    (t : Token) (peer : Peer) (rest : List Peer)
    → holders t (peer ∷ rest) ≡ held t peer.sock + holders t rest
unfolding holders
holders-cons t peer rest = refl

held-drop_peer : (t u : Token) (peer : Peer) → held t (drop_peer u peer).sock ≤ held t peer.sock
unfolding drop_peer
held-drop_peer t u peer = dropped peer.addr peer.sock
  where
    dropped :
        (addr : SocketAddr) (sock : Option Token)
        → held t (drop_peer u (record { addr = addr; sock = sock })).sock ≤ held t sock
    dropped addr none = omega arith
    dropped addr (some v) = ground arith

pub holders-drop_sock :
    (t u : Token) (peers : List Peer) → holders t (drop_sock u peers) ≤ holders t peers
unfolding drop_sock holders
holders-drop_sock t u [] = omega arith
holders-drop_sock t u (peer ∷ rest) = omega (
  arith,
  holders-cons t (drop_peer u peer) (drop_sock u rest),
  holders-cons t peer rest,
  held-drop_peer t u peer,
  holders-drop_sock t u rest,
)

module _ {S : Type 0} ⦃L : Slab S⦄ (laws : SlabLaws L) where
  held-free :
      (s : S) (t : Token) (sock : Option Token)
      → IsLinked s sock
      → L.get s t ≡ none
      → held t sock ≡ 0
  held-free s t none l free = refl
  held-free s t (some u) l free = ground (arith, eqb_iff t u, l.0, free, ap (L.get s))

  -- A free token is no peer's socket.
  pub holders-free :
      (s : S) (t : Token) (peers : List Peer)
      → AllLinked s peers
      → L.get s t ≡ none
      → holders t peers ≡ 0
  unfolding holders
  holders-free s t [] l free = refl
  holders-free s t (peer ∷ rest) l free = omega (
    arith,
    holders-cons t peer rest,
    held-free s t peer.sock l.0 free,
    holders-free s t rest l.1 free,
  )

  held-IsLinked :
      (s : S) (t : Token) (sock : Option Token)
      → IsLinked s sock
      → 1 ≤ held t sock
      → IsLinked s (some t)
  held-IsLinked s t none l h = absurd (omega arith)
  held-IsLinked s t (some u) l h =
      let same : t ≡ u = ground (arith, eqb_iff t u) in
      subst (λ (v : Token). IsLinked s (some v)) (sym same) l

  -- A peer's socket is that of a connection.
  pub holders-IsLinked :
      (s : S) (t : Token) (peers : List Peer)
      → AllLinked s peers
      → 1 ≤ holders t peers
      → IsLinked s (some t)
  unfolding holders
  holders-IsLinked s t [] l h = absurd (omega arith)
  holders-IsLinked s t (peer ∷ rest) l h = elim (Bool-cases (eqb (held t peer.sock) 0)) [
    | inl other ↦
        holders-IsLinked s t rest l.1
          (ground (arith, holders-cons t peer rest, eqb_iff (held t peer.sock) 0))
    | inr here ↦ held-IsLinked s t peer.sock l.0 (ground (arith, eqb_iff (held t peer.sock) 0))
  ]
