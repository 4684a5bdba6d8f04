-- ===== src/ConnSet/Known.antt =====
-- The connections of a `ConnSet` of src/server/connset.rs know their tokens, and stay.
use rasputin.Prelude.{
  ℕ, ◌≡◌, ap, true, Option, some, is_some, Keeps, Keeps-bind, arith, eqb_iff, Option-cases, inl,
  inr,
}
use rasputin.Roles.{Token, SocketAddr}
use rasputin.Codec.{TryRead}
use rasputin.ServerConn.{ServerConn, IoResult, WriteAnswer, ReadAnswer, writable, readable}
use rasputin.ConnSet.{Slab, SlabLaws, ConnSet, Answers, conn_writable, conn_readable}

writable-token :
    (c : ServerConn) (answer : WriteAnswer) (registered : IoResult (Unit {0}))
    → Keeps (λ r. r.0.token ≡ c.token) (writable c answer registered)
unfolding writable
writable-token c answer registered = ground arith

readable-token :
    ⦃S : TryRead⦄ (c : ServerConn) (answer : ReadAnswer) (addr : Option SocketAddr)
    (registered : IoResult (Unit {0}))
    → Keeps (λ r. r.0.token ≡ c.token) (readable c answer addr registered)
unfolding readable
readable-token c answer addr registered = ground arith

module _ {S : Type 0} ⦃L : Slab S⦄ (laws : SlabLaws L) where
  -- The slab is where it was made, and each of its connections has its own token.
  pub record Known (first : Token) (capacity : ℕ) (s : S) : Type 0 where
    pub within : laws.Within first capacity s
    pub tokens : (t : Token) (c : ServerConn) → L.get s t ≡ some c → c.token ≡ some t

  -- No connection is lost.
  abbrev pub Holds : S → S → Type 0
  Holds s s' = (t : Token) → is_some (L.get s t) ≡ true → is_some (L.get s' t) ≡ true

  pub starting_at-Known :
      (first : Token) (capacity : ℕ) → Known first capacity (L.starting_at first capacity)
  starting_at-Known first capacity = record {
    within = laws.starting_at-Within first capacity;
    tokens = λ t c e. ground (arith, laws.get-starting_at first capacity t);
  }

  pub remove-Known :
      (first : Token) (capacity : ℕ) (s : S) (t : Token)
      → Known first capacity s
      → Known first capacity (L.remove s t)
  remove-Known first capacity s t k = record {
    within = laws.remove-Within first capacity s t k.within;
    tokens = λ u c e. ground (
      arith,
      eqb_iff u t,
      laws.get-remove s t,
      laws.get-remove_ne s t u,
      k.tokens u c,
      ap (L.get (L.remove s t)),
    );
  }

  pub set-Known :
      (first : Token) (capacity : ℕ) (s : S) (t : Token) (c d : ServerConn)
      → Known first capacity s
      → L.get s t ≡ some c
      → d.token ≡ c.token
      → Known first capacity (L.set s t d) × Holds s (L.set s t d)
  set-Known first capacity s t c d k e same = (
    record {
      within = laws.set-Within first capacity s t d k.within;
      tokens = λ u x g. ground (
        arith,
        eqb_iff u t,
        laws.get-set s t d c,
        laws.get-set_ne s t u d,
        k.tokens u x,
        k.tokens t c,
        ap (L.get (L.set s t d)),
      );
    },
    λ u h. ground (
      arith,
      eqb_iff u t,
      laws.get-set s t d c,
      laws.get-set_ne s t u d,
      ap (L.get (L.set s t d)),
    ),
  )

  pub conn_writable-Known :
      (first : Token) (capacity : ℕ) (self : ConnSet S) (tok : Token) (answers : Answers)
      → Known first capacity self.conns
      → Keeps
          (λ r. Known first capacity r.0.conns × Holds self.conns r.0.conns)
          (conn_writable self tok answers)
  unfolding conn_writable
  conn_writable-Known first capacity self tok answers k =
      elim (Option-cases (L.get self.conns tok)) [
        | inl missing ↦ rw (missing, conn_writable) (k, λ t h. h)
        | inr (conn, there) ↦
            rw (there, conn_writable)
              (Keeps-bind (λ r. r.0.token ≡ conn.token)
                (λ r. Known first capacity r.0.conns × Holds self.conns r.0.conns) _ _
                (writable-token conn answers.write answers.reregister)
                λ r same. set-Known first capacity self.conns tok conn r.0 k there same)
      ]

  pub conn_readable-Known :
      ⦃T : TryRead⦄ (first : Token) (capacity : ℕ) (self : ConnSet S) (tok : Token)
      (answers : Answers)
      → Known first capacity self.conns
      → Keeps
          (λ r. Known first capacity r.0.conns × Holds self.conns r.0.conns)
          (conn_readable self tok answers)
  unfolding conn_readable
  conn_readable-Known first capacity self tok answers k =
      elim (Option-cases (L.get self.conns tok)) [
        | inl missing ↦ rw (missing, conn_readable) (k, λ t h. h)
        | inr (conn, there) ↦
            rw (there, conn_readable)
              (Keeps-bind (λ r. r.0.token ≡ conn.token)
                (λ r. Known first capacity r.0.conns × Holds self.conns r.0.conns) _ _
                (readable-token conn answers.read answers.peer_addr answers.reregister)
                λ r same. set-Known first capacity self.conns tok conn r.0 k there same)
      ]
