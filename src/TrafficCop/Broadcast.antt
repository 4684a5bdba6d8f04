-- ===== src/TrafficCop/Broadcast.antt =====
-- Which connections `notify` of src/server/traffic_cop.rs queues a message on.
use rasputin.Prelude.{
  ℕ, zero, suc, ◌≡◌, refl, ap, ◌∙◌, Bool, true, false, some, List, [], ◌∷◌, arith, Option-cases,
  inl, inr, Bytes, if◌then◌else◌, eqb, eqb_iff, nat_key, ◌==◌,
}
use rasputin.Roles.{Token, Envelope, peer_broadcast_token}
use rasputin.ServerConn.{ServerConn, queue_frame}
use rasputin.ConnSet.{Slab, SlabLaws}
use rasputin.TrafficCop.{
  TrafficCop, tok_to_sc, put_sc, send_to, send_each, notify, is_peer_range, is_cli_range, peer_toks,
}

-- The frame of a message is queued so many times.
unfoldable pub queued : ℕ → ServerConn → Bytes → ServerConn
queued zero c msg = c
queued (suc n) c msg = queued n (queue_frame c msg) msg

unfoldable pub times : Token → List Token → ℕ
times t [] = 0
times t (u ∷ rest) = let n = times t rest in if eqb t u then suc n else n

queued-if :
    (b : Bool) (n : ℕ) (c : ServerConn) (msg : Bytes)
    → queued n (if b then queue_frame c msg else c) msg ≡ queued (if b then suc n else n) c msg
unfolding queued
queued-if true n c msg = refl
queued-if false n c msg = refl

-- For whom a message is.
unfoldable pub recipients : {S : Type 0} → TrafficCop S → Envelope → List Token
recipients cop msg = if msg.tok == peer_broadcast_token then peer_toks cop.peers else msg.tok ∷ []

module _ {S : Type 0} ⦃L : Slab S⦄ (laws : SlabLaws L) where
  tok_to_sc-put_sc :
      (cop : TrafficCop S) (t u : Token) (c d : ServerConn)
      → tok_to_sc cop t ≡ some c
      → tok_to_sc (put_sc cop t d) u ≡ (if eqb u t then some d else tok_to_sc cop u)
  unfolding tok_to_sc put_sc is_peer_range is_cli_range
  tok_to_sc-put_sc cop t u c d e = ground (
    arith,
    eqb_iff u t,
    laws.get-set cop.peer_handler.conns t d c,
    laws.get-set cop.cli_handler.conns t d c,
    laws.get-set_ne cop.peer_handler.conns t u d,
    laws.get-set_ne cop.cli_handler.conns t u d,
  )

  tok_to_sc-send_to :
      (cop : TrafficCop S) (msg : Bytes) (t u : Token) (c : ServerConn)
      → tok_to_sc cop u ≡ some c
      → tok_to_sc (send_to cop msg t) u ≡ some (if eqb u t then queue_frame c msg else c)
  unfolding send_to
  tok_to_sc-send_to cop msg t u c e = elim (Option-cases (tok_to_sc cop t)) [
    | inl missing ↦
        rw (missing, send_to) (ground (arith, eqb_iff u t, e, missing, ap (tok_to_sc cop)))
    | inr (d, there) ↦
        rw (there, send_to, tok_to_sc-put_sc cop t u d (queue_frame d msg) there)
          (ground (arith, eqb_iff u t, e, there, ap (tok_to_sc cop)))
  ]

  tok_to_sc-send_each :
      (msg : Bytes) (toks : List Token) (cop : TrafficCop S) (u : Token) (c : ServerConn)
      → tok_to_sc cop u ≡ some c
      → tok_to_sc (send_each cop msg toks) u ≡ some (queued (times u toks) c msg)
  unfolding send_each times queued
  tok_to_sc-send_each msg [] cop u c e = e
  tok_to_sc-send_each msg (t ∷ rest) cop u c e =
      tok_to_sc-send_each msg rest (send_to cop msg t) u (if eqb u t then queue_frame c msg else c)
        (tok_to_sc-send_to cop msg t u c e)
      ∙ ap some (queued-if (eqb u t) (times u rest) c msg)

  -- Over a slab, a connection that tok_to_sc finds gets the frame of a message queued by notify
  -- once for each time that the message is for it, which is for its own token, or for a broadcast
  -- the tokens of the peers with sockets; so another connection stays as it is.
  pub tok_to_sc-notify :
      (cop : TrafficCop S) (msg : Envelope) (u : Token) (c : ServerConn)
      → tok_to_sc cop u ≡ some c
      → tok_to_sc (notify cop msg) u ≡ some (queued (times u (recipients cop msg)) c msg.msg)
  unfolding notify recipients
  tok_to_sc-notify cop msg u c e = tok_to_sc-send_each msg.msg (recipients cop msg) cop u c e
