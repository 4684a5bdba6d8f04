-- ===== src/RangeBounds/Order.antt =====
-- The order of src/range_bounds.rs, and the keys that a range holds.
use Prim.Native.Nat.{Ordering}
use rasputin.Prelude.{Bytes, ◌≡◌, refl, ap, true, false, [], ◌∷◌, arith, ok, Bool-cases, inl, inr}
use rasputin.RangeBounds.{RangeBounds, bytes_lt, cmp}

bytes_lt_irrefl : (xs : Bytes) → bytes_lt xs xs ≡ false
unfolding bytes_lt
bytes_lt_irrefl [] = refl
bytes_lt_irrefl (x ∷ xs) = ground (arith, bytes_lt_irrefl xs)

bytes_lt_trans :
    (xs ys zs : Bytes) → bytes_lt xs ys ≡ true → bytes_lt ys zs ≡ true → bytes_lt xs zs ≡ true
unfolding bytes_lt
bytes_lt_trans xs [] zs p q = cc
bytes_lt_trans xs (y ∷ ys) [] p q = cc
bytes_lt_trans [] (y ∷ ys) (z ∷ zs) p q = refl
bytes_lt_trans (x ∷ xs) (y ∷ ys) (z ∷ zs) p q = ground (arith, bytes_lt_trans xs ys zs)

-- Of two keys one is below the other or they are the same.
bytes_lt_total : (xs ys : Bytes) → bytes_lt xs ys ≡ false → bytes_lt ys xs ≡ false → xs ≡ ys
unfolding bytes_lt
bytes_lt_total [] [] p q = refl
bytes_lt_total [] (y ∷ ys) p q = cc
bytes_lt_total (x ∷ xs) [] p q = cc
bytes_lt_total (x ∷ xs) (y ∷ ys) p q = ground (arith, bytes_lt_total xs ys)

bytes_lt-le_trans :
    (xs ys zs : Bytes) → bytes_lt xs ys ≡ true → bytes_lt zs ys ≡ false → bytes_lt xs zs ≡ true
bytes_lt-le_trans xs ys zs p q = elim (Bool-cases (bytes_lt xs zs)) [
  | inl below ↦ below
  | inr upto ↦ elim (Bool-cases (bytes_lt zs xs)) [
    | inl above ↦ ground (arith, bytes_lt_trans zs xs ys above p)
    | inr same ↦ ground (arith, ap (λ (t : Bytes). bytes_lt t ys) (bytes_lt_total xs zs upto same))
  ]
]

bytes_lt_asym : (xs ys : Bytes) → bytes_lt xs ys ≡ true → bytes_lt ys xs ≡ false
bytes_lt_asym xs ys p = ground (arith, bytes_lt_trans xs ys xs p, bytes_lt_irrefl xs)

-- A range that `new` makes.
abbrev pub IsProper : RangeBounds → Type 0
IsProper r = bytes_lt r.lower r.upper ≡ true

-- A key from the lower bound on and below the upper one.
abbrev pub Holds : RangeBounds → Bytes → Type 0
Holds r k = (bytes_lt k r.lower ≡ false) × (bytes_lt k r.upper ≡ true)

cmp-lt : (r q : RangeBounds) → cmp r q ≡ ok Ordering.lt → bytes_lt q.lower r.upper ≡ false
unfolding cmp
cmp-lt r q before = ground arith

-- When cmp puts one range before another, every key of the one is below every key of the other.
pub cmp-below :
    (r q : RangeBounds) (k l : Bytes)
    → cmp r q ≡ ok Ordering.lt
    → Holds r k
    → Holds q l
    → bytes_lt k l ≡ true
cmp-below r q k l before (_, below) (from, _) =
    bytes_lt-le_trans k q.lower l (bytes_lt-le_trans k r.upper q.lower below (cmp-lt r q before))
      from

cmp-eq :
    (r q : RangeBounds)
    → cmp r q ≡ ok Ordering.eq
    → IsProper r
      × IsProper q
      × (bytes_lt q.lower r.upper ≡ true)
      × (bytes_lt r.lower q.upper ≡ true)
unfolding cmp
cmp-eq r q same = ground arith

-- For two ranges that cmp calls equal there is a key that both hold.
cmp-shared : (r q : RangeBounds) → cmp r q ≡ ok Ordering.eq → (k : Bytes) × Holds r k × Holds q k
cmp-shared r q same =
    let facts = cmp-eq r q same in
    elim (Bool-cases (bytes_lt r.lower q.lower)) [
      | inl below ↦ (
        q.lower,
        (bytes_lt_asym r.lower q.lower below, facts.2),
        (bytes_lt_irrefl q.lower, facts.1),
      )
      | inr upto ↦ (r.lower, (bytes_lt_irrefl r.lower, facts.0), (upto, facts.3))
    ]

-- Swapping the two ranges swaps before and after.
pub cmp-flip :
    (r q : RangeBounds)
    → IsProper r
    → IsProper q
    → cmp r q ≡ ok Ordering.lt
    → cmp q r ≡ ok Ordering.gt
unfolding cmp
cmp-flip r q p1 p2 before = ground (
  arith,
  cmp-lt r q before,
  bytes_lt-le_trans r.lower r.upper q.lower p1,
  bytes_lt_trans r.lower q.lower q.upper,
)
