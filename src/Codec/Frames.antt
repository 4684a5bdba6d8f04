-- ===== src/Codec/Frames.antt =====
-- Messages through `encode` and `decode` of src/codec.rs.
use rasputin.Prelude.{
  ℕ, zero, suc, ◌+◌, ◌-◌, ◌≡◌, ◌<◌, ◌^◌, refl, ap, ◌∙◌, Bytes, some, List, [], ◌∷◌, ◌++◌, arith,
  length, length-append, take, drop,
}
use rasputin.Codec.{
  TryRead, ReadLaws, Framed, new, usize_to_array, array_to_usize, encode, decode_loop, read_msg,
  decode,
}
use rasputin.Codec.Sizes.{array_to_usize-usize_to_array}

pub take-length {ℓ} : {A : Type ℓ} (xs ys : List A) → take (length xs) (xs ++ ys) ≡ xs
take-length [] ys = refl
take-length (x ∷ xs) ys = ap (◌∷◌ x) (take-length xs ys)

pub drop-length {ℓ} : {A : Type ℓ} (xs ys : List A) → drop (length xs) (xs ++ ys) ≡ ys
drop-length [] ys = refl
drop-length (x ∷ xs) ys = drop-length xs ys

-- The frames of messages, one after the other.
unfoldable pub encode_each : List Bytes → Bytes
encode_each [] = []
encode_each (m ∷ ms) = encode m ++ encode_each ms

-- Each size fits the prefix.
abbrev pub AllFit : List Bytes → Type 0
AllFit [] = Unit {0}
AllFit (m ∷ ms) = (length m < 2 ^ 32) × AllFit ms

size_fits : (m : Bytes) → length m < 2 ^ 32 → array_to_usize (usize_to_array (length m)) ≡ length m
size_fits m h = omega (arith, array_to_usize-usize_to_array (length m))

length-encode : (m rest : Bytes) → length (encode m ++ rest) ≡ 4 + length m + length rest
unfolding encode
length-encode m rest = omega (arith, length-append m rest)

module _ ⦃S : TryRead⦄ (laws : ReadLaws S) where
  read_msg_whole :
      (again : Framed → Bytes → List Bytes × Framed) (f : Framed) (size : ℕ) (m rest : Bytes)
      → size ≡ length m
      → read_msg again f (some (record { filled = []; size = size })) (m ++ rest)
        ≡ (m ∷ (again new rest).0, (again new rest).1)
  unfolding read_msg
  read_msg_whole again f size m rest e =
      let whole : size - 0 ≡ length m = omega arith in
      ground (
        arith,
        laws.read_lem (size - 0) (m ++ rest),
        take-length m rest,
        drop-length m rest,
        ap (λ (n : ℕ). take n (m ++ rest)) whole,
        ap (λ (n : ℕ). drop n (m ++ rest)) whole,
      )

  decode_loop-encode :
      (fuel : ℕ) (m rest : Bytes)
      → length m < 2 ^ 32
      → decode_loop (suc fuel) new (encode m ++ rest)
        ≡ (m ∷ (decode_loop fuel new rest).0, (decode_loop fuel new rest).1)
  unfolding decode_loop encode
  decode_loop-encode fuel m rest h =
      let (w, x, y, z) = usize_to_array (length m) in
      let f : Framed = record {
        sz_buf = w ∷ x ∷ y ∷ z ∷ [];
        msg = some (record { filled = []; size = array_to_usize (w, x, y, z) });
      } in
      rw laws.read_lem (read_msg_whole (decode_loop fuel) f _ m rest (size_fits m h))

  decode_loop-empty : (fuel : ℕ) → decode_loop (suc fuel) new [] ≡ ([], new)
  unfolding decode_loop
  decode_loop-empty fuel = rw laws.read_lem

  decode_loop-encode_each :
      (fuel : ℕ) (ms : List Bytes)
      → AllFit ms
      → length (encode_each ms) < fuel
      → decode_loop fuel new (encode_each ms) ≡ (ms, new)
  unfolding encode_each
  decode_loop-encode_each zero ms fit enough = elim enough [ ]
  decode_loop-encode_each (suc fuel) [] fit enough = decode_loop-empty fuel
  decode_loop-encode_each (suc fuel) (m ∷ ms) fit enough =
      decode_loop-encode fuel m (encode_each ms) fit.0
      ∙ ap (λ (r : List Bytes × Framed). (m ∷ r.0, r.1))
          (decode_loop-encode_each fuel ms fit.1
            (omega (arith, enough, length-encode m (encode_each ms))))

  -- Where a read from memory moves as many bytes as there are and fit, the frames of any messages
  -- shorter than 2^32 bytes, fed to a fresh decoder at once, give the messages back in order and
  -- leave the decoder fresh: the fuel is enough.
  pub decode-encode_each : (ms : List Bytes) → AllFit ms → decode new (encode_each ms) ≡ (ms, new)
  unfolding decode
  decode-encode_each ms fit =
      decode_loop-encode_each (suc (length (encode_each ms))) ms fit (omega arith)
