-- ===== src/Protobuf/Rounds.antt =====
-- What `merge_from` of src/serialization.rs reads of a field that was written.
use rasputin.Prelude.{
  ℕ, zero, suc, ◌^◌, ◌≡◌, ◌<◌, ◌∙◌, refl, ap, arith, String, Bytes, Bool, Option, none, some, List,
  [], ◌∷◌, ◌++◌, length, length-append,
}
use mathlib.Core.List.{append_assoc, append-nil}
use rasputin.Messages.Mutation.{MutationType}
use rasputin.Protobuf.{
  Coding, CodingLaws, WireType, ProtobufError, varint, length_delimited, ProtobufResult, done,
  failed, ◌>>=◌,
}
use rasputin.Protobuf.Merging.{
  on_uint64, on_bool, on_enum, on_bytes, on_string, merge_loop, merge_all,
}
use rasputin.Protobuf.Sizes.{iter, write_each}

-- What is said of the value of an optional field.
abbrev pub OptAll {ℓ} : {A : Type ℓ} → (A → Type 0) → Option A → Type 0
OptAll P none = Unit
OptAll P (some a) = P a

abbrev pub All {ℓ} : {A : Type ℓ} → (A → Type 0) → List A → Type 0
All P [] = Unit
All P (a ∷ l) = P a × All P l

module _ ⦃C : Coding⦄ {M : Type 0}
    (arms : M → ℕ → WireType → Bytes → ProtobufResult (M × Bytes)) where
  -- With fuel enough, the loop ends with this message.
  abbrev pub Merges : M → Bytes → M → Type 0
  Merges m is last = (fuel : ℕ) → length is < fuel → merge_loop arms fuel m is ≡ done last

  pub Merges-nil : (m : M) → Merges m [] m
  unfolding merge_loop
  Merges-nil m zero h = absurd (omega arith)
  Merges-nil m (suc fuel) h = refl

  pub merge_all-Merges :
      (m last : M) (is : Bytes) → Merges m is last → merge_all arms m is ≡ done last
  unfolding merge_all
  merge_all-Merges m last is k = k (suc (length is)) (omega arith)

  merge_loop-some :
      (fuel : ℕ) (m : M) (is : Bytes)
      → 0 < length is
      → merge_loop arms (suc fuel) m is ≡ (
          C.read_tag_unpack is >>= λ (field_number, wire_type, rest).
          (arms m field_number wire_type rest >>= λ (next, left). merge_loop arms fuel next left))
  unfolding merge_loop
  merge_loop-some fuel m [] h = absurd (omega arith)
  merge_loop-some fuel m (b ∷ is) h = refl

module _ ⦃C : Coding⦄ (laws : CodingLaws C) {M : Type 0}
    (arms : M → ℕ → WireType → Bytes → ProtobufResult (M × Bytes)) where
  -- A round of the loop over a tag and a value.
  Merges-tagged :
      (n : ℕ) (t : WireType) (m next last : M) (value rest : Bytes)
      → 0 < n
      → n < 16
      → arms m n t (value ++ rest) ≡ done (next, rest)
      → Merges arms next rest last
      → Merges arms m ((C.write_tag n t ++ value) ++ rest) last
  Merges-tagged n t m next last value rest lo hi e k zero h = absurd (omega arith)
  Merges-tagged n t m next last value rest lo hi e k (suc fuel) h =
      let tag = laws.tag_size n t lo hi in
      let outer = length-append (C.write_tag n t) (value ++ rest) in
      let inner = length-append value rest in
      let assoc = append_assoc (C.write_tag n t) value rest in
      ap (merge_loop arms (suc fuel) m) assoc
      ∙ merge_loop-some arms fuel m (C.write_tag n t ++ (value ++ rest)) (omega (arith, outer, tag))
      ∙ rw (laws.read-tag n t (value ++ rest) lo (omega arith), e)
          (k fuel (omega (arith, outer, inner, tag, h, ap (length {A = ℕ}) assoc)))

  pub Merges-write :
      (n : ℕ) (t : WireType) (m next last : M) (written value rest : Bytes)
      → written ≡ C.write_tag n t ++ value
      → 0 < n
      → n < 16
      → arms m n t (value ++ rest) ≡ done (next, rest)
      → Merges arms next rest last
      → Merges arms m (written ++ rest) last
  Merges-write n t m next last written value rest w lo hi e k =
      rw w (Merges-tagged n t m next last value rest lo hi e k)

  pub Merges-uint64 :
      (n : ℕ) (o : Option ℕ) (set : Option ℕ → M) (last : M) (rest : Bytes)
      → 0 < n
      → n < 16
      → ((is : Bytes) → arms (set none) n varint is ≡ on_uint64 varint is (λ v. set (some v)))
      → OptAll (λ v. v < 2 ^ 64) o
      → Merges arms (set o) rest last
      → Merges arms (set none) (write_each (iter o) (C.write_uint64 n) ++ rest) last
  unfolding write_each on_uint64
  Merges-uint64 n none set last rest lo hi e fits k = k
  Merges-uint64 n (some v) set last rest lo hi e fits k = rw (append-nil (C.write_uint64 n v)) (
      Merges-write n varint (set none) (set (some v)) last (C.write_uint64 n v) (C.uint64_no_tag v)
        rest (laws.uint64_tagged n v) lo hi
        (e (C.uint64_no_tag v ++ rest) ∙ rw (laws.read-uint64 v rest fits) refl) k)

  pub Merges-bool :
      (n : ℕ) (o : Option Bool) (set : Option Bool → M) (last : M) (rest : Bytes)
      → 0 < n
      → n < 16
      → ((is : Bytes) → arms (set none) n varint is ≡ on_bool varint is (λ v. set (some v)))
      → Merges arms (set o) rest last
      → Merges arms (set none) (write_each (iter o) (C.write_bool n) ++ rest) last
  unfolding write_each on_bool
  Merges-bool n none set last rest lo hi e k = k
  Merges-bool n (some v) set last rest lo hi e k = rw (append-nil (C.write_bool n v)) (
      Merges-write n varint (set none) (set (some v)) last (C.write_bool n v) (C.bool_no_tag v) rest
        (laws.bool_tagged n v) lo hi (e (C.bool_no_tag v ++ rest) ∙ rw (laws.read-bool v rest) refl)
        k)

  pub Merges-bytes :
      (n : ℕ) (o : Option Bytes) (set : Option Bytes → M) (last : M) (rest : Bytes)
      → 0 < n
      → n < 16
      → ((is : Bytes)
          → arms (set none) n length_delimited is
            ≡ on_bytes length_delimited is (λ v. set (some v)))
      → length (write_each (iter o) (C.write_bytes n)) < 2 ^ 32
      → Merges arms (set o) rest last
      → Merges arms (set none) (write_each (iter o) (C.write_bytes n) ++ rest) last
  unfolding write_each on_bytes
  Merges-bytes n none set last rest lo hi e b k = k
  Merges-bytes n (some v) set last rest lo hi e b k = rw (append-nil (C.write_bytes n v)) (
      Merges-write n length_delimited (set none) (set (some v)) last (C.write_bytes n v)
        (C.bytes_no_tag v) rest (laws.bytes_tagged n v) lo hi
        (e (C.bytes_no_tag v ++ rest)
          ∙ rw
              (laws.read-bytes v rest (
                omega (
                  arith,
                  b,
                  ap (length {A = ℕ}) (laws.bytes_tagged n v),
                  length-append (C.write_bytes n v) [],
                  length-append (C.write_tag n length_delimited) (C.bytes_no_tag v),
                )))
              refl)
        k)

  pub Merges-string :
      (n : ℕ) (o : Option String) (set : Option String → M) (last : M) (rest : Bytes)
      → 0 < n
      → n < 16
      → ((is : Bytes)
          → arms (set none) n length_delimited is
            ≡ on_string length_delimited is (λ v. set (some v)))
      → length (write_each (iter o) (C.write_string n)) < 2 ^ 32
      → Merges arms (set o) rest last
      → Merges arms (set none) (write_each (iter o) (C.write_string n) ++ rest) last
  unfolding write_each on_string
  Merges-string n none set last rest lo hi e b k = k
  Merges-string n (some v) set last rest lo hi e b k = rw (append-nil (C.write_string n v)) (
      Merges-write n length_delimited (set none) (set (some v)) last (C.write_string n v)
        (C.string_no_tag v) rest (laws.string_tagged n v) lo hi
        (e (C.string_no_tag v ++ rest)
          ∙ rw
              (laws.read-string v rest (
                omega (
                  arith,
                  b,
                  ap (length {A = ℕ}) (laws.string_tagged n v),
                  length-append (C.write_string n v) [],
                  length-append (C.write_tag n length_delimited) (C.string_no_tag v),
                )))
              refl)
        k)

  pub Merges-enum :
      (n : ℕ) (o : Option MutationType) (from : ℕ → Option MutationType) (value : MutationType → ℕ)
      (set : Option MutationType → M) (last : M) (rest : Bytes)
      → 0 < n
      → n < 16
      → ((is : Bytes) → arms (set none) n varint is ≡ on_enum from varint is (λ v. set (some v)))
      → ((a : MutationType) → (from (value a) ≡ some a) × (value a < 2 ^ 31))
      → Merges arms (set o) rest last
      → Merges arms (set none) (write_each (iter o) (λ v. C.write_enum n (value v)) ++ rest) last
  unfolding write_each on_enum
  Merges-enum n none from value set last rest lo hi e back k = k
  Merges-enum n (some a) from value set last rest lo hi e back k =
      rw (append-nil (C.write_enum n (value a))) (
        Merges-write n varint (set none) (set (some a)) last (C.write_enum n (value a))
          (C.enum_no_tag (value a)) rest (laws.enum_tagged n (value a)) lo hi
          (e (C.enum_no_tag (value a) ++ rest)
            ∙ rw (laws.read-enum from (value a) a rest (back a).0 (back a).1) refl)
          k)

  -- A field whose arm fails.
  pub merge_all-failed :
      (n : ℕ) (t : WireType) (m : M) (rest : Bytes)
      → 0 < n
      → n < 16
      → (e : ProtobufError) → arms m n t rest ≡ failed e
      → merge_all arms m (C.write_tag n t ++ rest) ≡ failed e
  unfolding merge_all
  merge_all-failed n t m rest lo hi e wrong =
      let size = laws.tag_size n t lo hi in
      merge_loop-some arms (length (C.write_tag n t ++ rest)) m (C.write_tag n t ++ rest)
        (omega (arith, size, length-append (C.write_tag n t) rest))
      ∙ rw (laws.read-tag n t rest lo (omega arith), wrong) refl
