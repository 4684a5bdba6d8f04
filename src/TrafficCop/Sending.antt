-- ===== src/TrafficCop/Sending.antt =====
-- `notify` of src/server/traffic_cop.rs and the connections that it sends to.
use rasputin.Prelude.{
  ◌≡◌, refl, some, List, [], ◌∷◌, arith, Bool-cases, Option-cases, inl, inr, Bytes, if◌then◌else◌,
  nat_key, ◌==◌,
}
use rasputin.Roles.{Token, Envelope, peer_broadcast_token}
use rasputin.ServerConn.{ServerConn, queue_frame}
use rasputin.ConnSet.{Slab, SlabLaws}
use rasputin.ConnSet.Known.{set-Known}
use rasputin.TrafficCop.{
  TrafficCop, tok_to_sc, put_sc, send_to, send_each, notify, is_peer_range, peer_toks,
}
use rasputin.TrafficCop.Linked.{Inv, with_peers, with_clis}

module _ {S : Type 0} ⦃L : Slab S⦄ (laws : SlabLaws L) where
  queue_frame-token : (c : ServerConn) (msg : Bytes) → (queue_frame c msg).token ≡ c.token
  unfolding queue_frame
  queue_frame-token c msg = refl

  put_peer-Inv :
      (cop : TrafficCop S) (tok : Token) (c d : ServerConn)
      → Inv laws cop
      → L.get cop.peer_handler.conns tok ≡ some c
      → d.token ≡ c.token
      → Inv laws (record cop {
        peer_handler = record cop.peer_handler { conns = L.set cop.peer_handler.conns tok d };
      })
  put_peer-Inv cop tok c d v e same =
      let q = set-Known laws 2 15 cop.peer_handler.conns tok c d v.peers_known e same in
      with_peers laws cop _ v q.0 q.1

  put_cli-Inv :
      (cop : TrafficCop S) (tok : Token) (c d : ServerConn)
      → Inv laws cop
      → L.get cop.cli_handler.conns tok ≡ some c
      → d.token ≡ c.token
      → Inv laws (record cop {
        cli_handler = record cop.cli_handler { conns = L.set cop.cli_handler.conns tok d };
      })
  put_cli-Inv cop tok c d v e same =
      let q = set-Known laws 1024 4096 cop.cli_handler.conns tok c d v.clis_known e same in
      with_clis laws cop _ v q.0

  put_sc-Inv :
      (cop : TrafficCop S) (tok : Token) (c d : ServerConn)
      → Inv laws cop
      → tok_to_sc cop tok ≡ some c
      → d.token ≡ c.token
      → Inv laws (put_sc cop tok d)
  unfolding tok_to_sc put_sc
  put_sc-Inv cop tok c d v e same = elim (Bool-cases (is_peer_range tok)) [
    | inl peer ↦ rw peer (put_peer-Inv cop tok c d v (ground arith) same)
    | inr other ↦ rw other (put_cli-Inv cop tok c d v (ground arith) same)
  ]

  send_to-Inv :
      (cop : TrafficCop S) (msg : Bytes) (tok : Token)
      → Inv laws cop
      → Inv laws (send_to cop msg tok)
  unfolding send_to
  send_to-Inv cop msg tok v = elim (Option-cases (tok_to_sc cop tok)) [
    | inl e ↦ rw (e, send_to) v
    | inr (c, e) ↦
        rw (e, send_to) (put_sc-Inv cop tok c (queue_frame c msg) v e (queue_frame-token c msg))
  ]

  send_each-Inv :
      (msg : Bytes) (toks : List Token) (cop : TrafficCop S)
      → Inv laws cop
      → Inv laws (send_each cop msg toks)
  unfolding send_each
  send_each-Inv msg [] cop v = v
  send_each-Inv msg (tok ∷ rest) cop v =
      send_each-Inv msg rest (send_to cop msg tok) (send_to-Inv cop msg tok v)

  pub notify-Inv : (cop : TrafficCop S) (msg : Envelope) → Inv laws cop → Inv laws (notify cop msg)
  unfolding notify
  notify-Inv cop msg v =
      send_each-Inv msg.msg
        (if msg.tok == peer_broadcast_token then peer_toks cop.peers else msg.tok ∷ []) cop v
