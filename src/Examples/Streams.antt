-- ===== src/Examples/Streams.antt =====
-- Frames of src/codec.rs read from memory, and ranges of src/range_bounds.rs.
use rasputin.Prelude.{
  ℕ, Bytes, ◌≡◌, refl, arith, true, false, some, List, [], ◌∷◌, ok, take, drop, bytes_eq,
}
use Prim.Native.Nat.{Ordering}
use rasputin.Codec.{TryRead, ReadLaws}
use rasputin.Codec.Frames.{AllFit}
use rasputin.RangeBounds.{RangeBounds, bytes_lt, cmp, eq}
use rasputin.RangeBounds.Order.{cmp-below}

instance abbrev pub from_memory : TryRead
from_memory = record { read = λ n buf. some (take n buf, drop n buf) }

pub from_memory_laws : ReadLaws from_memory
from_memory_laws = record { read_lem = λ n buf. refl }

abbrev pub messages : List Bytes
messages = (7 ∷ 8 ∷ []) ∷ [] ∷ (9 ∷ []) ∷ []

pub messages-AllFit : AllFit messages
messages-AllFit = (omega arith, (omega arith, (omega arith, tt)))

abbrev range : ℕ → ℕ → RangeBounds
range lower upper = record { lower = lower ∷ []; upper = upper ∷ [] }

-- Two ranges that overlap compare as equal, and are not.
overlap : (cmp (range 1 3) (range 2 4) ≡ ok Ordering.eq) × (eq (range 1 3) (range 2 4) ≡ false)
unfolding cmp eq bytes_lt bytes_eq
overlap = (refl, refl)

cmp-below_example : bytes_lt (1 ∷ 5 ∷ []) (3 ∷ []) ≡ true
unfolding cmp bytes_lt
cmp-below_example =
    cmp-below (range 1 3) (range 3 4) (1 ∷ 5 ∷ []) (3 ∷ []) refl (refl, refl) (refl, refl)
