-- ===== src/Protobuf/Fields.antt =====
-- What `merge_from` of src/serialization.rs reads, one field after the other.
use rasputin.Prelude.{
  ℕ, ◌^◌, ◌≡◌, ◌<◌, sym, String, Bytes, Bool, Option, none, some, List, [], ◌++◌, length,
}
use mathlib.Core.Path.{subst}
use mathlib.Core.List.{append_assoc, append-nil}
use rasputin.Messages.Mutation.{MutationType, value_of, from_i32, from_i32-value_of}
use rasputin.Messages.Unknown.{UnknownFields}
use rasputin.Protobuf.{Coding, CodingLaws, WireType, varint, length_delimited, ProtobufResult, done}
use rasputin.Protobuf.Merging.{
  on_uint64, on_bool, on_enum, on_bytes, on_string, on_message, on_repeated, merge_all,
}
use rasputin.Protobuf.Sizes.{iter, write_each, write_message, Counts, split_bound, IsOneByte}
use rasputin.Protobuf.Rounds.{
  OptAll, All, Merges, Merges-nil, merge_all-Merges, Merges-uint64, Merges-bool, Merges-enum,
  Merges-bytes, Merges-string,
}
use rasputin.Protobuf.Nested.{Merges-message, Merges-repeated}

-- The bytes that were written turn the first message into the second.
module _ ⦃C : Coding⦄ {M : Type 0}
    (arms : M → ℕ → WireType → Bytes → ProtobufResult (M × Bytes)) where
  pub record Reads (first : M) (out : Bytes) (second : M) : Type 0 where
    pub along :
        length out < 2 ^ 32
        → (rest : Bytes) (last : M) → Merges arms second rest last
        → Merges arms first (out ++ rest) last

  pub Reads-nothing : (m : M) → Reads m [] m
  Reads-nothing m = record { along = λ _ rest last k. k }

  pub Reads-merge_all :
      (first second : M) (out : Bytes)
      → Reads first out second
      → length out < 2 ^ 32
      → merge_all arms first out ≡ done second
  Reads-merge_all first second out reads b = merge_all-Merges arms first second out (
      subst (λ t. Merges arms first t second) (append-nil out)
        (reads.along b [] second (Merges-nil arms second)))

module _ ⦃C : Coding⦄ {M : Type 0}
    {arms : M → ℕ → WireType → Bytes → ProtobufResult (M × Bytes)} where
  infixr 4 ◌then_reads◌
  pub ◌then_reads◌ :
      {x y z : M} {a b : Bytes} → Reads arms x a y → Reads arms y b z → Reads arms x (a ++ b) z
  ◌then_reads◌ {x = x} {y = y} {z = z} {a = a} {b = b} one two = record {
    along = λ h rest last k.
        subst (λ t. Merges arms x t last) (sym (append_assoc a b rest))
          (one.along (split_bound a b (2 ^ 32) h).0 (b ++ rest) last
            (two.along (split_bound a b (2 ^ 32) h).1 rest last k));
  }

module _ ⦃C : Coding⦄ (laws : CodingLaws C) {M : Type 0}
    (arms : M → ℕ → WireType → Bytes → ProtobufResult (M × Bytes)) where
  pub Reads-uint64 :
      (n : ℕ) (o : Option ℕ) (set : Option ℕ → M)
      → IsOneByte n
      → ((is : Bytes) → arms (set none) n varint is ≡ on_uint64 varint is (λ v. set (some v)))
      → OptAll (λ v. v < 2 ^ 64) o
      → Reads arms (set none) (write_each (iter o) (C.write_uint64 n)) (set o)
  Reads-uint64 n o set (lo, hi) e fits = record {
    along = λ h rest last k. Merges-uint64 laws arms n o set last rest lo hi e fits k;
  }

  pub Reads-bool :
      (n : ℕ) (o : Option Bool) (set : Option Bool → M)
      → IsOneByte n
      → ((is : Bytes) → arms (set none) n varint is ≡ on_bool varint is (λ v. set (some v)))
      → Reads arms (set none) (write_each (iter o) (C.write_bool n)) (set o)
  Reads-bool n o set (lo, hi) e = record {
    along = λ h rest last k. Merges-bool laws arms n o set last rest lo hi e k;
  }

  pub Reads-bytes :
      (n : ℕ) (o : Option Bytes) (set : Option Bytes → M)
      → IsOneByte n
      → ((is : Bytes)
          → arms (set none) n length_delimited is
            ≡ on_bytes length_delimited is (λ v. set (some v)))
      → Reads arms (set none) (write_each (iter o) (C.write_bytes n)) (set o)
  Reads-bytes n o set (lo, hi) e = record {
    along = λ h rest last k. Merges-bytes laws arms n o set last rest lo hi e h k;
  }

  pub Reads-string :
      (n : ℕ) (o : Option String) (set : Option String → M)
      → IsOneByte n
      → ((is : Bytes)
          → arms (set none) n length_delimited is
            ≡ on_string length_delimited is (λ v. set (some v)))
      → Reads arms (set none) (write_each (iter o) (C.write_string n)) (set o)
  Reads-string n o set (lo, hi) e = record {
    along = λ h rest last k. Merges-string laws arms n o set last rest lo hi e h k;
  }

  pub Reads-enum :
      (n : ℕ) (o : Option MutationType) (set : Option MutationType → M)
      → IsOneByte n
      → ((is : Bytes)
          → arms (set none) n varint is ≡ on_enum from_i32 varint is (λ v. set (some v)))
      → Reads arms (set none) (write_each (iter o) (λ v. C.write_enum n (value_of v))) (set o)
  Reads-enum n o set (lo, hi) e = record {
    along = λ h rest last k.
        Merges-enum laws arms n o from_i32 value_of set last rest lo hi e from_i32-value_of k;
  }

  pub Reads-message :
      {N : Type 0} (n : ℕ) (o : Option N) (merge_from : N → Bytes → ProtobufResult N) (new : N)
      (size : N → ℕ) (body : N → Bytes) (Fits : N → Type 0) (set : Option N → M)
      → IsOneByte n
      → ((is : Bytes)
          → arms (set none) n length_delimited is
            ≡ on_message merge_from new length_delimited is (λ v. set (some v)))
      → ((v : N) → Counts (size v) (body v))
      → ((v : N) → Fits v → length (body v) < 2 ^ 32 → merge_from new (body v) ≡ done v)
      → OptAll Fits o
      → Reads arms (set none) (write_each (iter o) (λ v. write_message n (size v) (body v))) (set o)
  Reads-message n o merge_from new size body Fits set (lo, hi) e c back fits = record {
    along = λ h rest last k.
        Merges-message laws arms n o merge_from new size body Fits set last rest lo hi e c back fits
          h k;
  }

  pub Reads-repeated :
      {N : Type 0} (n : ℕ) (l : List N) (merge_from : N → Bytes → ProtobufResult N) (new : N)
      (size : N → ℕ) (body : N → Bytes) (Fits : N → Type 0) (set : List N → M)
      → IsOneByte n
      → ((all : List N) (is : Bytes)
          → arms (set all) n length_delimited is
            ≡ on_repeated merge_from new all length_delimited is set)
      → ((v : N) → Counts (size v) (body v))
      → ((v : N) → Fits v → length (body v) < 2 ^ 32 → merge_from new (body v) ≡ done v)
      → All Fits l
      → Reads arms (set []) (write_each l (λ v. write_message n (size v) (body v))) (set l)
  Reads-repeated n l merge_from new size body Fits set (lo, hi) e c back fits = record {
    along = λ h rest last k.
        Merges-repeated laws arms n l [] merge_from new size body Fits set last rest lo hi e c back
          fits h k;
  }

  -- No field is unknown.
  pub Reads-unknown :
      (fields : UnknownFields) (set : UnknownFields → M)
      → fields ≡ []
      → Reads arms (set []) (C.write_unknown_fields fields) (set fields)
  Reads-unknown fields set known =
      subst (λ (t : UnknownFields). Reads arms (set []) (C.write_unknown_fields t) (set t))
        (sym known) (rw laws.unknown_fields-none (Reads-nothing arms (set [])))
