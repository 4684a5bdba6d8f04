-- ===== src/BTreeMap.antt =====
-- `std::collections::BTreeMap`: the entries in the order of their keys.
use rasputin.Prelude.{
  ℕ, ◌<◌, ◌≡◌, refl, ◌≢◌, Option, none, some, List, [], ◌∷◌, arith, Key, nat_key, ◌==◌,
  if◌then◌else◌,
}

abbrev pub BTreeMap {ℓ κ} : Type ℓ → Type κ → Type (ℓ ⊔ κ)
BTreeMap K V = List (K × V)

module _ {ℓ κ} {K : Type ℓ} {V : Type κ} ⦃k : Key K⦄ where
  unfoldable pub get : K → BTreeMap K V → Option V
  get q [] = none
  get q ((j, v) ∷ m) = if j == q then some v else get q m

  -- The insertion point is before the first greater key; an equal key has its value replaced.
  unfoldable pub insert : K → V → BTreeMap K V → BTreeMap K V
  insert q v [] = (q, v) ∷ []
  insert q v ((j, w) ∷ m) =
      if j == q
      then (q, v) ∷ m
      else if k.blt q j
      then (q, v) ∷ (j, w) ∷ m
      else (j, w) ∷ insert q v m

  unfoldable pub remove : K → BTreeMap K V → BTreeMap K V
  remove q [] = []
  remove q ((j, w) ∷ m) = if j == q then m else (j, w) ∷ remove q m

  pub get-insert :
      (p q : K) (v : V) (m : BTreeMap K V)
      → get p (insert q v m) ≡ (if q == p then some v else get p m)
  unfolding get insert
  get-insert p q v [] = refl
  get-insert p q v ((j, w) ∷ m) =
      ground (arith, k.beq_iff j q, k.beq_iff j p, k.beq_iff q p, get-insert p q v m)

  pub get-insert_ne : (p q : K) (v : V) (m : BTreeMap K V) → p ≢ q → get p (insert q v m) ≡ get p m
  get-insert_ne p q v m h = ground (arith, get-insert p q v m, k.beq_iff q p)

  pub get-remove_ne : (p q : K) (m : BTreeMap K V) → p ≢ q → get p (remove q m) ≡ get p m
  unfolding get remove
  get-remove_ne p q [] h = refl
  get-remove_ne p q ((j, w) ∷ m) h =
      ground (arith, k.beq_iff j q, k.beq_iff j p, get-remove_ne p q m h)

module _ {ℓ} {V : Type ℓ} where
  -- The keys rise along the list, from above `n`.
  abbrev pub Above : ℕ → BTreeMap ℕ V → Type 0
  Above n [] = Unit {0}
  Above n ((j, v) ∷ m) = (n < j) × Above j m

  pub get-Above : (n q : ℕ) (m : BTreeMap ℕ V) → Above n m → q < n → get q m ≡ none
  unfolding get
  get-Above n q [] a h = refl
  get-Above n q ((j, v) ∷ m) a h = ground (arith, get-Above j q m)
