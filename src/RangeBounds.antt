-- ===== src/RangeBounds.antt =====
-- src/range_bounds.rs: half-open ranges of keys, ordered by `cmp`.
use Prim.Native.Nat.{compare}
pub mod Order
use rasputin.Prelude.{
  ℕ, Bytes, Bool, true, false, ◌&&◌, List, [], ◌∷◌, Outcome, ok, panic, assert, ◌>>=◌, ◌>>◌, not,
  if◌then◌else◌, ltb, eqb, bytes_eq,
}
use Prim.Native.Nat.{Ordering}

-- `<` on `Vec<u8>`: lexicographic.
unfoldable pub bytes_lt : Bytes → Bytes → Bool
bytes_lt _ [] = false
bytes_lt [] (y ∷ ys) = true
bytes_lt (x ∷ xs) (y ∷ ys) =
    let rest = bytes_lt xs ys in if ltb x y then true else if eqb x y then rest else false

pub record RangeBounds : Type 0 where
  pub lower : Bytes
  pub upper : Bytes

pub data NewResult : Type 0 where
  created : RangeBounds → NewResult
  refused : NewResult

-- `lower >= upper` is the negation of `lower < upper`.
unfoldable pub new : Bytes → Bytes → NewResult
new lower upper =
    if not (bytes_lt lower upper)
    then refused
    else created (record { lower = lower; upper = upper })

unfoldable pub cmp : RangeBounds → RangeBounds → Outcome Ordering
cmp self other = do
  assert (bytes_lt self.lower self.upper)
  assert (bytes_lt other.lower other.upper)
  ok (
      if not (bytes_lt other.lower self.upper)
      then Ordering.lt
      else if not (bytes_lt self.lower other.upper)
      then Ordering.gt
      else Ordering.eq)

-- `PartialEq`
unfoldable pub eq : RangeBounds → RangeBounds → Bool
eq self other = bytes_eq self.lower other.lower && bytes_eq self.upper other.upper
