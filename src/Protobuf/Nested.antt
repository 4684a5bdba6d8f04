-- ===== src/Protobuf/Nested.antt =====
-- What `merge_from` of src/serialization.rs reads of a nested message that was written.
use rasputin.Prelude.{
  ℕ, ◌^◌, ◌≡◌, ◌<◌, ◌∙◌, refl, ap, sym, arith, Bytes, Option, none, some, List, [], ◌∷◌, ◌++◌,
  length, length-append,
}
use mathlib.Core.Path.{subst}
use mathlib.Core.List.{append_assoc, append-nil}
use rasputin.Protobuf.{Coding, CodingLaws, WireType, length_delimited, ProtobufResult, done}
use rasputin.Protobuf.Merging.{on_message, on_repeated}
use rasputin.Protobuf.Rounds.{OptAll, All, Merges, Merges-write}
use rasputin.Protobuf.Sizes.{iter, write_each, write_message, Counts, split_bound}

module _ ⦃C : Coding⦄ (laws : CodingLaws C) {M : Type 0}
    (arms : M → ℕ → WireType → Bytes → ProtobufResult (M × Bytes)) where
  body_bound :
      (n size : ℕ) (body more : Bytes)
      → length (write_message n size body ++ more) < 2 ^ 32
      → length body < 2 ^ 32
  body_bound n size body more b = omega (
    arith,
    length-append (write_message n size body) more,
    length-append (C.write_tag n length_delimited) (C.write_raw_varint32 size ++ body),
    length-append (C.write_raw_varint32 size) body,
  )

  -- A nested message that is read back by its own `merge_from`.
  pub Merges-message :
      {N : Type 0} (n : ℕ) (o : Option N) (merge_from : N → Bytes → ProtobufResult N) (new : N)
      (size : N → ℕ) (body : N → Bytes) (Fits : N → Type 0) (set : Option N → M) (last : M)
      (rest : Bytes)
      → 0 < n
      → n < 16
      → ((is : Bytes)
          → arms (set none) n length_delimited is
            ≡ on_message merge_from new length_delimited is (λ v. set (some v)))
      → ((v : N) → Counts (size v) (body v))
      → ((v : N) → Fits v → length (body v) < 2 ^ 32 → merge_from new (body v) ≡ done v)
      → OptAll Fits o
      → length (write_each (iter o) (λ v. write_message n (size v) (body v))) < 2 ^ 32
      → Merges arms (set o) rest last
      → Merges arms
          (set none)
          (write_each (iter o) (λ v. write_message n (size v) (body v)) ++ rest)
          last
  unfolding write_each on_message
  Merges-message n none merge_from new size body Fits set last rest lo hi e c back fits b k = k
  Merges-message n (some v) merge_from new size body Fits set last rest lo hi e c back fits b k =
      let short : length (body v) < 2 ^ 32 = body_bound n (size v) (body v) [] b in
      let prefix : C.write_raw_varint32 (size v) ++ body v
          ≡ C.write_raw_varint32 (length (body v)) ++ body v =
        ap (λ (t : ℕ). C.write_raw_varint32 t ++ body v) (c v short) in
      rw (append-nil (write_message n (size v) (body v))) (
        Merges-write laws arms n length_delimited (set none) (set (some v)) last
          (write_message n (size v) (body v)) (C.write_raw_varint32 (length (body v)) ++ body v)
          rest (ap (◌++◌ (C.write_tag n length_delimited)) prefix) lo hi
          (e ((C.write_raw_varint32 (length (body v)) ++ body v) ++ rest)
            ∙ rw
                (
                  append_assoc (C.write_raw_varint32 (length (body v))) (body v) rest,
                  laws.merge_message_lem merge_from new (body v) rest short,
                  back v fits short,
                )
                refl)
          k)

  -- Nested messages that are repeated.
  pub Merges-repeated :
      {N : Type 0} (n : ℕ) (l have : List N) (merge_from : N → Bytes → ProtobufResult N) (new : N)
      (size : N → ℕ) (body : N → Bytes) (Fits : N → Type 0) (set : List N → M) (last : M)
      (rest : Bytes)
      → 0 < n
      → n < 16
      → ((all : List N) (is : Bytes)
          → arms (set all) n length_delimited is
            ≡ on_repeated merge_from new all length_delimited is set)
      → ((v : N) → Counts (size v) (body v))
      → ((v : N) → Fits v → length (body v) < 2 ^ 32 → merge_from new (body v) ≡ done v)
      → All Fits l
      → length (write_each l (λ v. write_message n (size v) (body v))) < 2 ^ 32
      → Merges arms (set (have ++ l)) rest last
      → Merges arms (set have) (write_each l (λ v. write_message n (size v) (body v)) ++ rest) last
  unfolding write_each on_repeated
  Merges-repeated n [] have merge_from new size body Fits set last rest lo hi e c back fits b k =
      subst (λ t. Merges arms (set t) rest last) (append-nil have) k
  Merges-repeated {N = N} n (v ∷ l) have merge_from new size body Fits set last rest lo hi e c back
        fits b k =
      let w : N → Bytes = λ v. write_message n (size v) (body v) in
      let short : length (body v) < 2 ^ 32 = body_bound n (size v) (body v) (write_each l w) b in
      let left : Bytes = write_each l w ++ rest in
      let prefix : C.write_raw_varint32 (size v) ++ body v
          ≡ C.write_raw_varint32 (length (body v)) ++ body v =
        ap (λ (t : ℕ). C.write_raw_varint32 t ++ body v) (c v short) in
      rw (append_assoc (w v) (write_each l w) rest) (
        Merges-write laws arms n length_delimited (set have) (set (have ++ v ∷ [])) last (w v)
          (C.write_raw_varint32 (length (body v)) ++ body v) left
          (ap (◌++◌ (C.write_tag n length_delimited)) prefix) lo hi
          (e have ((C.write_raw_varint32 (length (body v)) ++ body v) ++ left)
            ∙ rw
                (
                  append_assoc (C.write_raw_varint32 (length (body v))) (body v) left,
                  laws.read_repeated_lem merge_from new have (body v) left short,
                  back v fits.0 short,
                )
                refl)
          (Merges-repeated n l (have ++ v ∷ []) merge_from new size body Fits set last rest lo hi e
            c back fits.1 (split_bound (w v) (write_each l w) (2 ^ 32) b).1
            (subst (λ t. Merges arms (set t) rest last) (sym (append_assoc have (v ∷ []) l)) k)))
