-- ===== src/Codec/Sizes.antt =====
-- The size prefix of src/codec.rs.
use rasputin.Prelude.{ℕ, ◌≡◌, ◌<◌, ◌%◌, ◌^◌, arith}
use rasputin.Codec.{usize_to_array, array_to_usize}

-- Spelling a size in four bytes and reading it back keeps its low 32 bits, and no more.
pub array_to_usize-usize_to_array : (u : ℕ) → array_to_usize (usize_to_array u) ≡ u % 2 ^ 32
unfolding array_to_usize usize_to_array
array_to_usize-usize_to_array u = omega arith

-- Reading four numbers below 2^8 as a size and spelling it gives them back.
usize_to_array-array_to_usize :
    (a b c d : ℕ)
    → a < 2 ^ 8
    → b < 2 ^ 8
    → c < 2 ^ 8
    → d < 2 ^ 8
    → usize_to_array (array_to_usize (a, b, c, d)) ≡ (a, b, c, d)
unfolding array_to_usize usize_to_array
usize_to_array-array_to_usize a b c d ha hb hc hd = ground arith
