-- ===== src/TrafficCop/Linked.antt =====
-- The peers' sockets of src/server/traffic_cop.rs and the connections that they name.
use rasputin.Prelude.{
  ◌≡◌, true, Option, none, some, List, [], ◌∷◌, is_some, Keeps, arith, eqb, eqb_iff, Bool-cases,
  inl, inr,
}
use rasputin.Roles.{Token, SocketAddr}
use rasputin.ServerConn.{EventSet}
use rasputin.ConnSet.{Slab, SlabLaws, ConnSet}
use rasputin.ConnSet.Known.{Known, Holds, remove-Known}
use rasputin.TrafficCop.{Peer, TrafficCop}
use rasputin.TrafficCop.Ready.{is_peer_token, drop_peer, drop_sock, hup_peer, hup_cli, ready_hup}

module _ {S : Type 0} ⦃L : Slab S⦄ where
  -- A peer without a socket, or with that of a connection in the slab, whose token `ready` takes
  -- for a peer's.
  abbrev pub IsLinked : S → Option Token → Type 0
  IsLinked s none = Unit {0}
  IsLinked s (some t) = (is_some (L.get s t) ≡ true) × (is_peer_token t ≡ true)

  abbrev pub AllLinked : S → List Peer → Type 0
  AllLinked s [] = Unit {0}
  AllLinked s (peer ∷ rest) = IsLinked s peer.sock × AllLinked s rest

module _ {S : Type 0} ⦃L : Slab S⦄ (laws : SlabLaws L) where
  pub IsLinked-Holds :
      (s s' : S) (sock : Option Token) → Holds laws s s' → IsLinked s sock → IsLinked s' sock
  IsLinked-Holds s s' none h l = tt
  IsLinked-Holds s s' (some t) h l = (h t l.0, l.1)

  pub AllLinked-Holds :
      (s s' : S) (peers : List Peer) → Holds laws s s' → AllLinked s peers → AllLinked s' peers
  AllLinked-Holds s s' [] h l = tt
  AllLinked-Holds s s' (peer ∷ rest) h l =
      (IsLinked-Holds s s' peer.sock h l.0, AllLinked-Holds s s' rest h l.1)

  pub record Inv (cop : TrafficCop S) : Type 0 where
    pub peers_known : Known laws 2 15 cop.peer_handler.conns
    pub clis_known : Known laws 1024 4096 cop.cli_handler.conns
    pub linked : AllLinked cop.peer_handler.conns cop.peers

  IsLinked-remove :
      (s : S) (t : Token) (peer : Peer)
      → IsLinked s peer.sock
      → IsLinked (L.remove s t) (drop_peer t peer).sock
  unfolding drop_peer
  IsLinked-remove s t peer l = linked peer.addr peer.sock l
    where
      linked :
          (addr : SocketAddr) (sock : Option Token)
          → IsLinked s sock
          → IsLinked (L.remove s t) (drop_peer t (record { addr = addr; sock = sock })).sock
      linked addr none l = tt
      linked addr (some u) l = elim (Bool-cases (eqb u t)) [
        | inl same ↦ rw same tt
        | inr other ↦ rw other (rw (laws.get-remove_ne s t u (λ q. ground (arith, eqb_iff u t))) l)
      ]

  AllLinked-drop_sock :
      (s : S) (t : Token) (peers : List Peer)
      → AllLinked s peers
      → AllLinked (L.remove s t) (drop_sock t peers)
  unfolding drop_sock
  AllLinked-drop_sock s t [] l = tt
  AllLinked-drop_sock s t (peer ∷ rest) l =
      (IsLinked-remove s t peer l.0, AllLinked-drop_sock s t rest l.1)

  hup_peer-Inv : (cop : TrafficCop S) (tok : Token) → Inv cop → Inv (hup_peer cop tok)
  unfolding hup_peer
  hup_peer-Inv cop tok v = elim (Bool-cases (is_some (L.get cop.peer_handler.conns tok))) [
    | inr missing ↦ rw missing v
    | inl there ↦ rw there (record {
      peers_known = remove-Known laws 2 15 cop.peer_handler.conns tok v.peers_known;
      clis_known = v.clis_known;
      linked = AllLinked-drop_sock cop.peer_handler.conns tok cop.peers v.linked;
    })
  ]

  hup_cli-Inv : (cop : TrafficCop S) (tok : Token) → Inv cop → Inv (hup_cli cop tok)
  unfolding hup_cli
  hup_cli-Inv cop tok v = elim (Bool-cases (is_some (L.get cop.cli_handler.conns tok))) [
    | inr missing ↦ rw missing v
    | inl there ↦ rw there (record {
      peers_known = v.peers_known;
      clis_known = remove-Known laws 1024 4096 cop.cli_handler.conns tok v.clis_known;
      linked = v.linked;
    })
  ]

  pub ready_hup-Inv :
      (cop : TrafficCop S) (tok : Token) (events : EventSet)
      → Inv cop
      → Keeps Inv (ready_hup cop tok events)
  unfolding ready_hup
  ready_hup-Inv cop tok events v = ground (arith, hup_peer-Inv cop tok v, hup_cli-Inv cop tok v)

  -- The handlers are replaced by ones that hold what they held.
  pub with_peers :
      (cop : TrafficCop S) (h : ConnSet S)
      → Inv cop
      → Known laws 2 15 h.conns
      → Holds laws cop.peer_handler.conns h.conns
      → Inv (record cop { peer_handler = h })
  with_peers cop h v k o = record {
    peers_known = k;
    clis_known = v.clis_known;
    linked = AllLinked-Holds cop.peer_handler.conns h.conns cop.peers o v.linked;
  }

  pub with_clis :
      (cop : TrafficCop S) (h : ConnSet S)
      → Inv cop
      → Known laws 1024 4096 h.conns
      → Inv (record cop { cli_handler = h })
  with_clis cop h v k = record { peers_known = v.peers_known; clis_known = k; linked = v.linked }
