-- ===== src/TrafficCop/Apart.antt =====
-- What the calls of src/server/traffic_cop.rs but `timeout` do to the peers' sockets.
use rasputin.Prelude.{
  ◌≡◌, ◌≤◌, refl, ◌∙◌, List, [], ◌∷◌, arith, Bytes, if◌then◌else◌, Outcome, ok, panic, ◌>>=◌, Keeps,
  Keeps-bind, ◌==◌, nat_key,
}
use rasputin.Roles.{Token, Envelope, peer_broadcast_token}
use rasputin.Codec.{TryRead}
use rasputin.ServerConn.{EventSet, unwrap_io}
use rasputin.ConnSet.{Slab, Answers, accept, conn_readable, conn_writable}
use rasputin.TrafficCop.{TrafficCop, peer_toks, put_sc, send_to, send_each, notify}
use rasputin.TrafficCop.Ready.{hup_peer, hup_cli, ready_hup, ready_readable, ready_writable, ready}
use rasputin.TrafficCop.Sockets.{holders, holders-drop_sock}

Keeps-all :
    {A B : Type 0} (P : B → Type 0) (o : Outcome A) (f : A → Outcome B)
    → ((a : A) → Keeps P (f a))
    → Keeps P (o >>= f)
Keeps-all P (ok a) f k = k a
Keeps-all P panic f k = tt

pub Keeps-map :
    {A : Type 0} (P Q : A → Type 0) (o : Outcome A) → Keeps P o → ((a : A) → P a → Q a) → Keeps Q o
Keeps-map P Q (ok a) h k = k a h
Keeps-map P Q panic h k = tt

module _ {S : Type 0} ⦃L : Slab S⦄ where
  -- No more peers have the socket than before.
  abbrev pub Shrinks : Token → TrafficCop S → TrafficCop S → Type 0
  Shrinks t cop c = holders t c.peers ≤ holders t cop.peers

  ready_hup-Shrinks :
      (t : Token) (cop : TrafficCop S) (tok : Token) (events : EventSet)
      → Keeps (Shrinks t cop) (ready_hup cop tok events)
  unfolding ready_hup hup_peer hup_cli
  ready_hup-Shrinks t cop tok events = ground (arith, holders-drop_sock t tok cop.peers)

  ready_writable-Shrinks :
      (t : Token) (cop : TrafficCop S) (tok : Token) (events : EventSet) (answers : Answers)
      → Keeps (Shrinks t cop) (ready_writable cop tok events answers)
  unfolding ready_writable
  ready_writable-Shrinks t cop tok events answers =
      let peers =
        Keeps-all (Shrinks t cop) (conn_writable cop.peer_handler tok answers)
          (λ r. ok (record cop { peer_handler = r.0 })) (λ r. omega arith) in
      let clis =
        Keeps-all (Shrinks t cop) (conn_writable cop.cli_handler tok answers)
          (λ r. ok (record cop { cli_handler = r.0 })) (λ r. omega arith) in
      ground arith

  ready_readable-Shrinks :
      ⦃T : TryRead⦄ (t : Token) (cop : TrafficCop S) (tok : Token) (events : EventSet)
      (answers : Answers)
      → Keeps (Shrinks t cop) (ready_readable cop tok events answers)
  unfolding ready_readable
  ready_readable-Shrinks t cop tok events answers =
      let peer_joins =
        Keeps-all (Shrinks t cop) (accept cop.peer_handler answers)
          (λ r. ok (record cop { peer_handler = r.0 })) (λ r. omega arith) in
      let client_joins =
        Keeps-all (Shrinks t cop) (accept cop.cli_handler answers)
          (λ r. ok (record cop { cli_handler = r.0 })) (λ r. omega arith) in
      let peers =
        Keeps-all (Shrinks t cop) (conn_readable cop.peer_handler tok answers)
          (λ r. unwrap_io r.1 >>= λ done. ok (record cop { peer_handler = r.0 }))
          (λ r. Keeps-all (Shrinks t cop) (unwrap_io r.1) _ (λ done. omega arith)) in
      let clis =
        Keeps-all (Shrinks t cop) (conn_readable cop.cli_handler tok answers)
          (λ r. unwrap_io r.1 >>= λ done. ok (record cop { cli_handler = r.0 }))
          (λ r. Keeps-all (Shrinks t cop) (unwrap_io r.1) _ (λ done. omega arith)) in
      ground arith

  pub ready-Shrinks :
      ⦃T : TryRead⦄ (t : Token) (cop : TrafficCop S) (tok : Token) (events : EventSet)
      (answers : Answers)
      → Keeps (Shrinks t cop) (ready cop tok events answers)
  unfolding ready
  ready-Shrinks t cop tok events answers =
      Keeps-bind (Shrinks t cop) (Shrinks t cop) _ _ (ready_hup-Shrinks t cop tok events) λ a p.
        Keeps-bind (Shrinks t a) (Shrinks t cop) _ _ (ready_readable-Shrinks t a tok events answers)
          λ b q.
            Keeps-map (Shrinks t b) (Shrinks t cop) (ready_writable b tok events answers)
              (ready_writable-Shrinks t b tok events answers) λ c r. omega arith

  peers-send_to :
      (cop : TrafficCop S) (msg : Bytes) (tok : Token) → (send_to cop msg tok).peers ≡ cop.peers
  unfolding send_to put_sc
  peers-send_to cop msg tok = ground arith

  peers-send_each :
      (msg : Bytes) (toks : List Token) (cop : TrafficCop S)
      → (send_each cop msg toks).peers ≡ cop.peers
  unfolding send_each
  peers-send_each msg [] cop = refl
  peers-send_each msg (tok ∷ rest) cop =
      peers-send_each msg rest (send_to cop msg tok) ∙ peers-send_to cop msg tok

  pub peers-notify : (cop : TrafficCop S) (msg : Envelope) → (notify cop msg).peers ≡ cop.peers
  unfolding notify
  peers-notify cop msg =
      peers-send_each msg.msg
        (if msg.tok == peer_broadcast_token then peer_toks cop.peers else msg.tok ∷ []) cop
