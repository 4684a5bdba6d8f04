-- ===== src/Examples/Slabs.antt =====
-- A slab of connections as src/server/connset.rs uses it: a function from tokens.
use rasputin.Prelude.{
  ℕ, zero, suc, ◌+◌, ◌≡◌, ◌≢◌, ◌≤◌, ◌<◌, refl, sym, ap, ◌∙◌, Option, none, some, eqb, eqb_iff,
  if◌then◌else◌, arith, Option-cases, inl, inr,
}
use mathlib.Core.Path.{subst}
use rasputin.Roles.{Token}
use rasputin.ServerConn.{ServerConn}
use rasputin.ConnSet.{Slab, SlabLaws}

pub record Slots : Type 0 where
  pub first : Token
  pub capacity : ℕ
  pub slot : Token → Option ServerConn

-- The first of `n` tokens that is free.
unfoldable pub free : (Token → Option ServerConn) → Token → ℕ → Option Token
free slot t zero = none
free slot t (suc n) =
    let later = free slot (t + 1) n in elim (slot t) [ none ↦ some t | some c ↦ later ]

abbrev pub put : Slots → Token → Option ServerConn → Slots
put s t c = record s { slot = λ u. if eqb u t then c else s.slot u }

instance abbrev pub slots : Slab Slots
slots = record {
  starting_at = λ first capacity. record { first = first; capacity = capacity; slot = λ t. none };
  get = λ s t. s.slot t;
  set = λ s t c. put s t (some c);
  insert = λ s c. elim (free s.slot s.first s.capacity) [
    | none ↦ none
    | some t ↦ some (t, put s t (some c))
  ];
  remove = λ s t. put s t none;
}

free-Within :
    (slot : Token → Option ServerConn) (t u : Token) (n : ℕ)
    → free slot t n ≡ some u
    → (slot u ≡ none) × (t ≤ u) × (u < t + n)
unfolding free
free-Within slot t u zero e = ground arith
free-Within slot t u (suc n) e = elim (Option-cases (slot t)) [
  | inl here ↦ ground (arith, here)
  | inr (c, taken) ↦ ground (arith, taken, free-Within slot (t + 1) u n)
]

taken :
    (s s' : Slots) (c : ServerConn) (t u : Token)
    → ◌≡◌ {A = Option (Token × Slots)} (some (u, put s u (some c))) (some (t, s'))
    → (s.slot u ≡ none) × (s.first ≤ u) × (u < s.first + s.capacity)
    → (s' ≡ put s t (some c)) × (s.slot t ≡ none) × (s.first ≤ t) × (t < s.first + s.capacity)
taken s s' c t u e q =
    let same : u ≡ t = cc in
    let p : put s u (some c) ≡ s' = cc in
    let z =
      subst (λ (v : Token). (s.slot v ≡ none) × (s.first ≤ v) × (v < s.first + s.capacity)) same
        q in
    (sym (subst (λ (v : Token). put s v (some c) ≡ s') same p), z.0, z.1, z.2)

insert-Within :
    (s s' : Slots) (c : ServerConn) (t : Token)
    → slots.insert s c ≡ some (t, s')
    → (s' ≡ put s t (some c)) × (s.slot t ≡ none) × (s.first ≤ t) × (t < s.first + s.capacity)
insert-Within s s' c t e = elim (Option-cases (free s.slot s.first s.capacity)) [
  | inl full ↦ ground (arith, full)
  | inr (u, found) ↦
      taken s s' c t u (sym (inserted u found) ∙ e) (free-Within s.slot s.first u s.capacity found)
]
  where
    inserted :
        (u : Token)
        → free s.slot s.first s.capacity ≡ some u
        → slots.insert s c ≡ some (u, put s u (some c))
    inserted u found = rw (slots, found) refl

put-same : (s : Slots) (t : Token) (c : Option ServerConn) → (put s t c).slot t ≡ c
put-same s t c = ground (arith, eqb_iff t t)

put-other :
    (s : Slots) (t u : Token) (c : Option ServerConn) → u ≢ t → (put s t c).slot u ≡ s.slot u
put-other s t u c n = ground (arith, eqb_iff u t)

pub slots_laws : SlabLaws slots
slots_laws = record {
  Within = λ first capacity s. (s.first ≡ first) × (s.capacity ≡ capacity);
  starting_at-Within = λ first capacity. (refl, refl);
  set-Within = λ first capacity s t c w. w;
  remove-Within = λ first capacity s t w. w;
  insert-Within = λ first capacity s s' c t w e.
      let q = insert-Within s s' c t e in
      (
        (ap (λ (x : Slots). x.first) q.0 ∙ w.0, ap (λ (x : Slots). x.capacity) q.0 ∙ w.1),
        omega (arith, q.2, w.0),
        omega (arith, q.3, w.0, w.1),
      );
  get-starting_at = λ first capacity t. refl;
  get-set = λ s t c d e. put-same s t (some c);
  get-set_ne = λ s t u c n. put-other s t u (some c) n;
  get-remove = λ s t. put-same s t none;
  get-remove_ne = λ s t u n. put-other s t u none n;
  get-insert = λ s s' c t e.
      ap (λ (x : Slots). x.slot t) (insert-Within s s' c t e).0 ∙ put-same s t (some c);
  get-insert_ne = λ s s' c t u e n.
      ap (λ (x : Slots). x.slot u) (insert-Within s s' c t e).0 ∙ put-other s t u (some c) n;
  insert-fresh = λ s s' c t e. (insert-Within s s' c t e).1;
}
