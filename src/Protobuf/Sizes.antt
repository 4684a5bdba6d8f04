-- ===== src/Protobuf/Sizes.antt =====
-- The shapes of code that `compute_size` and `write_to_with_cached_sizes` of src/serialization.rs
-- are made of. The size that is cached is the one that `compute_size` returns.
use rasputin.Prelude.{
  ℕ, ◌+◌, ◌%◌, ◌^◌, ◌≡◌, ◌<◌, ◌∙◌, ap, sym, arith, String, Bool, Bytes, Option, none, some, List,
  [], ◌∷◌, ◌++◌, length, length-append,
}
use rasputin.Messages.Mutation.{MutationType, value_of}
use rasputin.Messages.Unknown.{UnknownFields}
use rasputin.Protobuf.{Coding, CodingLaws, varint, length_delimited}

-- `+=` on a `u32`
abbrev pub add32 : ℕ → ℕ → ℕ
add32 a b = (a + b) % 2 ^ 32

-- `iter()` and `if let Some(v)` of an optional field.
abbrev pub iter {ℓ} : {A : Type ℓ} → Option A → List A
iter none = []
iter (some a) = a ∷ []

-- `for value in … { my_size += …; }`
unfoldable pub size_each {ℓ} : {A : Type ℓ} → ℕ → List A → (A → ℕ) → ℕ
size_each my_size [] f = my_size
size_each my_size (a ∷ rest) f = size_each (add32 my_size (f a)) rest f

-- `for v in … { os.write_…; }`
unfoldable pub write_each {ℓ} : {A : Type ℓ} → List A → (A → Bytes) → Bytes
write_each [] w = []
write_each (a ∷ rest) w = w a ++ write_each rest w

module _ ⦃C : Coding⦄ where
  -- `1 + compute_raw_varint32_size(len) + len`
  abbrev pub message_size : ℕ → ℕ
  message_size len = add32 (add32 1 (C.compute_raw_varint32_size len)) len

  -- A nested message, with its cached size.
  abbrev pub write_message : ℕ → ℕ → Bytes → Bytes
  write_message n size body = C.write_tag n length_delimited ++ (C.write_raw_varint32 size ++ body)

-- The tag of such a field is one byte.
abbrev pub IsOneByte : ℕ → Type 0
IsOneByte n = (0 < n) × (n < 16)

-- What `in_order` is given is written one after the other.
abbrev pub in_order : List Bytes → Bytes
in_order [] = []
in_order (out ∷ rest) = out ++ in_order rest

-- The size is that of the bytes, as far as a `u32` reaches.
abbrev pub Counts : ℕ → Bytes → Type 0
Counts size out = length out < 2 ^ 32 → size ≡ length out

-- What is added to a size is the number of the bytes.
pub record Adds (add : ℕ → ℕ) (out : Bytes) : Type 0 where
  pub sum : (n : ℕ) → n + length out < 2 ^ 32 → add n ≡ n + length out

pub split_bound :
    (xs ys : Bytes) (n : ℕ) → length (xs ++ ys) < n → (length xs < n) × (length ys < n)
split_bound xs ys n h = (omega (arith, length-append xs ys), omega (arith, length-append xs ys))

pub Adds-nothing : Adds (λ n. n) []
Adds-nothing = record { sum = λ n h. omega arith }

infixr 4 ◌then_adds◌
pub ◌then_adds◌ : {f g : ℕ → ℕ} {a b : Bytes} → Adds f a → Adds g b → Adds (λ n. g (f n)) (a ++ b)
◌then_adds◌ {f = f} {g = g} {a = a} {b = b} first second =
    let whole = length-append a b in
    record {
      sum = λ n h.
          ap g (first.sum n (omega (arith, whole)))
          ∙ second.sum (n + length a) (omega (arith, whole))
          ∙ omega (arith, whole);
    }

pub Adds-Counts : {add : ℕ → ℕ} {out : Bytes} → Adds add out → Counts (add 0) out
Adds-Counts all h = all.sum 0 (omega arith) ∙ omega arith

size_each-write_each {ℓ} :
    {A : Type ℓ} (n : ℕ) (l : List A) (f : A → ℕ) (w : A → Bytes)
    → ((a : A) → Counts (f a) (w a))
    → n + length (write_each l w) < 2 ^ 32
    → size_each n l f ≡ n + length (write_each l w)
unfolding size_each write_each
size_each-write_each n [] f w k h = omega arith
size_each-write_each n (a ∷ rest) f w k h =
    let sum = length-append (w a) (write_each rest w) in
    let one = k a (omega (arith, sum)) in
    size_each-write_each (add32 n (f a)) rest f w k (omega (arith, sum, one))
    ∙ omega (arith, sum, one)

pub Adds-each {ℓ} :
    {A : Type ℓ} (l : List A) (f : A → ℕ) (w : A → Bytes)
    → ((a : A) → Counts (f a) (w a))
    → Adds (λ n. size_each n l f) (write_each l w)
Adds-each l f w k = record { sum = λ n h. size_each-write_each n l f w k h }

module _ ⦃C : Coding⦄ (laws : CodingLaws C) where
  Counts-message :
      (n size : ℕ) (body : Bytes)
      → 0 < n
      → n < 16
      → Counts size body
      → Counts (message_size size) (write_message n size body)
  Counts-message n size body lo hi c h =
      let outer =
        length-append (C.write_tag n length_delimited) (C.write_raw_varint32 size ++ body) in
      let inner = length-append (C.write_raw_varint32 size) body in
      let whole : size ≡ length body = c (omega (arith, outer, inner)) in
      let prefix = laws.varint32_size size (omega (arith, outer, inner, whole)) in
      omega (arith, outer, inner, whole, prefix, laws.tag_size n length_delimited lo hi)

  pub Adds-uint64 :
      (n : ℕ) (o : Option ℕ)
      → Adds
          (λ s. size_each s (iter o) (λ v. C.value_size n v varint))
          (write_each (iter o) (C.write_uint64 n))
  Adds-uint64 n o =
      Adds-each (iter o) (λ v. C.value_size n v varint) (C.write_uint64 n)
        (λ v _. laws.value_size_lem n v)

  pub Adds-bool :
      (n : ℕ) (o : Option Bool)
      → IsOneByte n
      → Adds (λ s. size_each s (iter o) (λ _. 2)) (write_each (iter o) (C.write_bool n))
  Adds-bool n o (lo, hi) =
      Adds-each (iter o) (λ _. 2) (C.write_bool n) (λ v _. sym (laws.bool_size n v lo hi))

  pub Adds-enum :
      (n : ℕ) (o : Option MutationType)
      → Adds
          (λ s. size_each s (iter o) (λ v. C.enum_size n (value_of v)))
          (write_each (iter o) (λ v. C.write_enum n (value_of v)))
  Adds-enum n o =
      Adds-each (iter o) (λ v. C.enum_size n (value_of v)) (λ v. C.write_enum n (value_of v))
        (λ v _. laws.enum_size_lem n (value_of v))

  pub Adds-bytes :
      (n : ℕ) (o : Option Bytes)
      → Adds (λ s. size_each s (iter o) (C.bytes_size n)) (write_each (iter o) (C.write_bytes n))
  Adds-bytes n o =
      Adds-each (iter o) (C.bytes_size n) (C.write_bytes n) (λ v _. laws.bytes_size_lem n v)

  pub Adds-string :
      (n : ℕ) (o : Option String)
      → Adds (λ s. size_each s (iter o) (C.string_size n)) (write_each (iter o) (C.write_string n))
  Adds-string n o =
      Adds-each (iter o) (C.string_size n) (C.write_string n) (λ v _. laws.string_size_lem n v)

  pub Adds-messages :
      {N : Type 0} (n : ℕ) (l : List N) (size : N → ℕ) (body : N → Bytes)
      → IsOneByte n
      → ((v : N) → Counts (size v) (body v))
      → Adds
          (λ s. size_each s l (λ v. message_size (size v)))
          (write_each l (λ v. write_message n (size v) (body v)))
  Adds-messages n l size body (lo, hi) c =
      Adds-each l (λ v. message_size (size v)) (λ v. write_message n (size v) (body v))
        (λ v. Counts-message n (size v) (body v) lo hi (c v))

  pub Adds-unknown :
      (fields : UnknownFields)
      → Adds (λ s. add32 s (C.unknown_fields_size fields)) (C.write_unknown_fields fields)
  Adds-unknown fields = record {
    sum = λ n h. omega (arith, h, laws.unknown_fields_size_lem fields);
  }
