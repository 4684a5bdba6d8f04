-- ===== src/ConnSet/Joining.antt =====
-- A new connection in a `ConnSet` of src/server/connset.rs.
use rasputin.Prelude.{
  ℕ, ◌+◌, ◌≡◌, ◌≤◌, ◌<◌, refl, sym, ap, true, some, is_some, Keeps, Keeps-bind, arith, eqb_iff,
  Option-cases, inl, inr,
}
use rasputin.Roles.{Token}
use rasputin.ServerConn.{
  ServerConn, IoResult, io_ok, io_err, WriteAnswer, ReadAnswer, writable, readable,
}
use rasputin.ServerConn
use rasputin.ConnSet.{
  Slab, SlabLaws, ConnSet, Answers, set_token, register, accept, AcceptAnswer, accepted, none_waits,
  accept_failed,
}
use rasputin.ConnSet.Known.{Known, Holds}

module _ {S : Type 0} ⦃L : Slab S⦄ (laws : SlabLaws L) where
  -- What a new connection makes of a set.
  abbrev pub Registered :
      (first : Token) (capacity : ℕ) → ConnSet S → ConnSet S → IoResult Token → Type 0
  Registered first capacity self next result =
      Known laws first capacity next.conns
      × Holds laws self.conns next.conns
      × ((t : Token)
          → result ≡ io_ok t
          → (is_some (L.get next.conns t) ≡ true) × (first ≤ t) × (t < first + capacity))

  insert-Known :
      (first : Token) (capacity : ℕ) (s s' : S) (t : Token)
      → Known laws first capacity s
      → L.insert s ServerConn.new ≡ some (t, s')
      → let s'' = L.set s' t (record ServerConn.new { token = some t }) in
        Known laws first capacity s'' × Holds laws s s'' × (is_some (L.get s'' t) ≡ true)
  insert-Known first capacity s s' t k e =
      let c : ServerConn = record ServerConn.new { token = some t } in
      (
        record {
          within =
              laws.set-Within first capacity s' t c
                (laws.insert-Within first capacity s s' ServerConn.new t k.within e).0;
          tokens = λ u x g. ground (
            arith,
            eqb_iff u t,
            laws.get-insert s s' ServerConn.new t e,
            laws.get-set s' t c ServerConn.new,
            laws.get-set_ne s' t u c,
            laws.get-insert_ne s s' ServerConn.new t u e,
            k.tokens u x,
            ap (L.get (L.set s' t c)),
          );
        },
        λ u h. ground (
          arith,
          eqb_iff u t,
          laws.get-insert s s' ServerConn.new t e,
          laws.get-set s' t c ServerConn.new,
          laws.get-set_ne s' t u c,
          laws.get-insert_ne s s' ServerConn.new t u e,
          ap (L.get (L.set s' t c)),
        ),
        rw (laws.get-set s' t c ServerConn.new (laws.get-insert s s' ServerConn.new t e)) refl,
      )

  set_token-Known :
      (first : Token) (capacity : ℕ) (self : ConnSet S) (conns : S) (tok : Token)
      (registered : IoResult (Unit {0}))
      → Known laws first capacity self.conns
      → L.insert self.conns ServerConn.new ≡ some (tok, conns)
      → Keeps
          (λ r. Registered first capacity self r.0 r.1)
          (set_token (record self { conns = conns }) tok registered)
  unfolding set_token
  set_token-Known first capacity self conns tok (io_err e) k there = tt
  set_token-Known first capacity self conns tok (io_ok done) k there =
      let made = insert-Known first capacity self.conns conns tok k there in
      let range =
        laws.insert-Within first capacity self.conns conns ServerConn.new tok k.within there in
      rw (laws.get-insert self.conns conns ServerConn.new tok there)
        (made.0, made.1, λ t e. let q : tok ≡ t = cc in rw (sym q) (made.2, range.1, range.2))

  pub register-Known :
      (first : Token) (capacity : ℕ) (self : ConnSet S) (registered : IoResult (Unit {0}))
      → Known laws first capacity self.conns
      → Keeps (λ r. Registered first capacity self r.0 r.1) (register self registered)
  unfolding register
  register-Known first capacity self registered k =
      elim (Option-cases (L.insert self.conns ServerConn.new)) [
        | inl full ↦ rw (full, register) (k, λ t h. h, λ t e. ground arith)
        | inr ((tok, conns), there) ↦
            rw (there, register) (set_token-Known first capacity self conns tok registered k there)
      ]

  accept_answered-Known :
      (first : Token) (capacity : ℕ) (self : ConnSet S) (answers : Answers) (answer : AcceptAnswer)
      → answers.accept ≡ answer
      → Known laws first capacity self.conns
      → Keeps
          (λ r. Known laws first capacity r.0.conns × Holds laws self.conns r.0.conns)
          (accept self answers)
  unfolding accept
  accept_answered-Known first capacity self answers accepted e k =
      rw (e, accept)
        (Keeps-bind (λ r. Registered first capacity self r.0 r.1)
          (λ r. Known laws first capacity r.0.conns × Holds laws self.conns r.0.conns) _ _
          (register-Known first capacity self answers.register k) λ r q. (q.0, q.1))
  accept_answered-Known first capacity self answers none_waits e k = rw (e, accept) tt
  accept_answered-Known first capacity self answers (accept_failed x) e k =
      rw (e, accept) (k, λ t h. h)

  pub accept-Known :
      (first : Token) (capacity : ℕ) (self : ConnSet S) (answers : Answers)
      → Known laws first capacity self.conns
      → Keeps
          (λ r. Known laws first capacity r.0.conns × Holds laws self.conns r.0.conns)
          (accept self answers)
  accept-Known first capacity self answers k =
      accept_answered-Known first capacity self answers answers.accept refl k
