-- ===== src/Codec.antt =====
-- src/codec.rs: the frames of messages on a stream. `ByteBuf` is the bytes that are left in it,
-- and reading from one into another (`try_read_buf` of `mio`, over the `Read` of `bytes`) is a
-- parameter. Allocation is left out.
pub mod Sizes
pub mod Frames
pub mod Feed
pub mod Rounds
pub mod Cuts
pub mod Stacks
use rasputin.Prelude.{
  ℕ, zero, suc, ◌+◌, ◌-◌, ◌*◌, ◌/◌, ◌%◌, ◌^◌, ◌≡◌, Bytes, Option, none, some, List, [], ◌∷◌, ◌++◌,
  eqb, length, take, drop, if◌then◌else◌,
}

-- `try_read_buf` with room for `n` bytes: the bytes moved and those left, or `none` for an answer
-- other than `Ok(Some(_))`.
pub record TryRead : Type 0 where
  pub read : ℕ → Bytes → Option (Bytes × Bytes)

-- A read from memory moves as many bytes as there are and fit.
pub record ReadLaws (S : TryRead) : Type 0 where
  pub read_lem : (n : ℕ) (buf : Bytes) → S.read n buf ≡ some (take n buf, drop n buf)

unfoldable pub usize_to_array : ℕ → ℕ × ℕ × ℕ × ℕ
usize_to_array u = (u / 2 ^ 24 % 2 ^ 8, u / 2 ^ 16 % 2 ^ 8, u / 2 ^ 8 % 2 ^ 8, u % 2 ^ 8)

unfoldable pub array_to_usize : ℕ × ℕ × ℕ × ℕ → ℕ
array_to_usize (a, b, c, d) = a * 2 ^ 24 + b * 2 ^ 16 + c * 2 ^ 8 + d

-- A message of which `filled` has arrived.
pub record Partial : Type 0 where
  pub filled : Bytes
  pub size : ℕ

pub record Framed : Type 0 where
  pub sz_buf : Bytes
  pub msg : Option Partial

abbrev pub new : Framed
new = record { sz_buf = []; msg = none }

-- The size that four bytes spell; `decode` asks for it only when there are four.
unfoldable pub size_of : Bytes → ℕ
unfolding array_to_usize
size_of (a ∷ b ∷ c ∷ d ∷ _) = array_to_usize (a, b, c, d)
size_of _ = 0

-- What a read has moved, and what is left.
abbrev pub moved_by : Option (Bytes × Bytes) → Bytes → Bytes × Bytes
moved_by none buf = ([], buf)
moved_by (some r) buf = r

module _ ⦃S : TryRead⦄ where
  -- The first `if` of the loop: the decoder, and what is left.
  unfoldable pub read_size : Framed → Option Partial → Bytes → Framed × Bytes
  unfolding size_of
  read_size f (some p) buf = (f, buf)
  read_size f none buf =
      let (moved, left) = moved_by (S.read (4 - length f.sz_buf) buf) buf in
      let sz_buf = f.sz_buf ++ moved in
      if eqb (length sz_buf) 4
      then (
        record { sz_buf = sz_buf; msg = some (record { filled = []; size = size_of sz_buf }) },
        left,
      )
      else (record { sz_buf = sz_buf; msg = none }, left)

  -- A round of the loop, after its first `if`. A read that does not answer `Ok(Some(_))` ends the
  -- loop, and the message that was taken out is lost. `again` is the rest of the loop.
  unfoldable pub read_msg :
      (Framed → Bytes → List Bytes × Framed) → Framed → Option Partial → Bytes → List Bytes × Framed
  read_msg again f none buf = ([], f)
  read_msg again f (some p) buf = elim (S.read (p.size - length p.filled) buf) [
    | none ↦ ([], record f { msg = none })
    | some (moved, left) ↦
        let filled = p.filled ++ moved in
        let (out, f') = again new left in
        if eqb (length filled) p.size
        then (filled ∷ out, f')
        else ([], record f { msg = some (record p { filled = filled }) })
  ]

  -- The `loop` of `decode`, on fuel.
  unfoldable pub decode_loop : ℕ → Framed → Bytes → List Bytes × Framed
  unfolding read_size read_msg
  decode_loop zero f buf = ([], f)
  decode_loop (suc fuel) f buf =
      let (f', left) = read_size f f.msg buf in read_msg (decode_loop fuel) f' f'.msg left

  -- Each round but the last takes a byte at least.
  unfoldable pub decode : Framed → Bytes → List Bytes × Framed
  unfolding decode_loop
  decode f buf = decode_loop (suc (length buf)) f buf

unfoldable pub encode : Bytes → Bytes
unfolding usize_to_array
encode b = let (w, x, y, z) = usize_to_array (length b) in w ∷ x ∷ y ∷ z ∷ b
