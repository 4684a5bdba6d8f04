-- ===== src/Examples/Coding.antt =====
-- A plain coding of the values in src/serialization.rs, on which the theorems about messages are
-- applied: a tag is one byte, a number is one element, and a text is the numbers of its characters.
use rasputin.Prelude.{
  ℕ, ◌+◌, ◌*◌, ◌/◌, ◌%◌, ◌≡◌, ◌<◌, refl, arith, String, Bytes, Bool, true, false, Option, none,
  some, List, [], ◌∷◌, ◌++◌, length, take, drop, eqb, if◌then◌else◌,
}
use rasputin.Codec.Frames.{take-length, drop-length}
use rasputin.Messages.Mutation.{MutationType}
use rasputin.Messages.Unknown.{UnknownValue, UnknownFields}
use rasputin.Protobuf.{
  Coding, CodingLaws, WireType, varint, fixed64, length_delimited, start_group, end_group, fixed32,
  wire_error, stream_error, ProtobufResult, done, failed, ◌>>=◌,
}
use rasputin.Examples.Characters.{codes, from_codes, from_codes-codes}

abbrev type_code : WireType → ℕ
type_code varint = 0
type_code fixed64 = 1
type_code length_delimited = 2
type_code start_group = 3
type_code end_group = 4
type_code fixed32 = 5

abbrev type_of : ℕ → WireType
type_of n =
    if eqb n 0
    then varint
    else if eqb n 1
    then fixed64
    else if eqb n 2
    then length_delimited
    else if eqb n 3
    then start_group
    else if eqb n 4
    then end_group
    else fixed32

abbrev pub read_tag_unpack : Bytes → ProtobufResult (ℕ × WireType × Bytes)
read_tag_unpack [] = failed stream_error
read_tag_unpack (b ∷ rest) = done (b / 8, type_of (b % 8), rest)

abbrev pub read_uint64 : Bytes → ProtobufResult (ℕ × Bytes)
read_uint64 [] = failed stream_error
read_uint64 (b ∷ rest) = done (b, rest)

abbrev pub read_bool : Bytes → ProtobufResult (Bool × Bytes)
read_bool [] = failed stream_error
read_bool (b ∷ rest) = done (eqb b 1, rest)

abbrev pub read_value : Option MutationType → Bytes → ProtobufResult (MutationType × Bytes)
read_value none rest = failed (wire_error "unexpected value")
read_value (some a) rest = done (a, rest)

abbrev pub read_enum : (ℕ → Option MutationType) → Bytes → ProtobufResult (MutationType × Bytes)
read_enum from [] = failed stream_error
read_enum from (b ∷ rest) = read_value (from b) rest

-- What follows a length, of that length.
abbrev pub cut : ℕ → Bytes → ProtobufResult (Bytes × Bytes)
cut n is = done (take n is, drop n is)

abbrev pub read_bytes : Bytes → ProtobufResult (Bytes × Bytes)
read_bytes [] = failed stream_error
read_bytes (n ∷ rest) = cut n rest

abbrev pub read_string : Bytes → ProtobufResult (String × Bytes)
read_string is = read_bytes is >>= λ (b, rest). done (from_codes b, rest)

abbrev pub read_unknown : WireType → Bytes → ProtobufResult (UnknownValue × Bytes)
read_unknown varint (b ∷ rest) = done (UnknownValue.varint b, rest)
read_unknown length_delimited (n ∷ rest) =
    done (UnknownValue.length_delimited (take n rest), drop n rest)
read_unknown t is = failed stream_error

abbrev pub merge_message :
    {M : Type 0} → (M → Bytes → ProtobufResult M) → M → Bytes → ProtobufResult (M × Bytes)
merge_message f m is = read_bytes is >>= λ (b, rest). (f m b >>= λ m'. done (m', rest))

abbrev pub read_repeated :
    {M : Type 0}
    → WireType
    → (M → Bytes → ProtobufResult M)
    → M
    → List M
    → Bytes
    → ProtobufResult (List M × Bytes)
read_repeated length_delimited f new have is =
    merge_message f new is >>= λ (m, rest). done (have ++ m ∷ [], rest)
read_repeated t f new have is = failed (wire_error "unexpected wire type")

abbrev value_fields : UnknownFields → Bytes
value_fields [] = []
value_fields ((n, UnknownValue.varint v) ∷ rest) = (8 * n) ∷ v ∷ value_fields rest
value_fields ((n, UnknownValue.fixed32 v) ∷ rest) = (8 * n + 5) ∷ v ∷ value_fields rest
value_fields ((n, UnknownValue.fixed64 v) ∷ rest) = (8 * n + 1) ∷ v ∷ value_fields rest
value_fields ((n, UnknownValue.length_delimited b) ∷ rest) =
    (8 * n + 2) ∷ length b ∷ (b ++ value_fields rest)

abbrev tag : ℕ → WireType → ℕ
tag n t = 8 * n + type_code t

abbrev bool_code : Bool → ℕ
bool_code true = 1
bool_code false = 0

instance abbrev pub plain : Coding
plain = record {
  read_tag_unpack = read_tag_unpack;
  read_uint64 = read_uint64;
  read_bool = read_bool;
  read_enum = read_enum;
  read_bytes = read_bytes;
  read_string = read_string;
  read_unknown = read_unknown;
  merge_message = merge_message;
  read_repeated = read_repeated;
  add_value = λ fields n v. fields ++ (n, v) ∷ [];
  write_tag = λ n t. tag n t ∷ [];
  write_raw_varint32 = λ v. v ∷ [];
  write_uint64 = λ n v. tag n varint ∷ v ∷ [];
  write_bool = λ n v. tag n varint ∷ bool_code v ∷ [];
  write_enum = λ n v. tag n varint ∷ v ∷ [];
  write_bytes = λ n v. tag n length_delimited ∷ length v ∷ v;
  write_string = λ n v. tag n length_delimited ∷ length (codes v) ∷ codes v;
  write_unknown_fields = value_fields;
  value_size = λ n v t. 2;
  enum_size = λ n v. 2;
  bytes_size = λ n v. 2 + length v;
  string_size = λ n v. 2 + length (codes v);
  unknown_fields_size = λ fields. length (value_fields fields);
  compute_raw_varint32_size = λ v. 1;
  uint64_no_tag = λ v. v ∷ [];
  bool_no_tag = λ v. bool_code v ∷ [];
  enum_no_tag = λ v. v ∷ [];
  bytes_no_tag = λ v. length v ∷ v;
  string_no_tag = λ v. length (codes v) ∷ codes v;
}

type_of-type_code : (t : WireType) → type_of (type_code t) ≡ t
type_of-type_code varint = refl
type_of-type_code fixed64 = refl
type_of-type_code length_delimited = refl
type_of-type_code start_group = refl
type_of-type_code end_group = refl
type_of-type_code fixed32 = refl

type_code_below : (t : WireType) → type_code t < 8
type_code_below varint = omega arith
type_code_below fixed64 = omega arith
type_code_below length_delimited = omega arith
type_code_below start_group = omega arith
type_code_below end_group = omega arith
type_code_below fixed32 = omega arith

read_tag_back :
    (n : ℕ) (t : WireType) (rest : Bytes) → read_tag_unpack (tag n t ∷ rest) ≡ done (n, t, rest)
read_tag_back n t rest =
    let k = type_code_below t in
    let number : (8 * n + type_code t) / 8 ≡ n = omega (arith, k) in
    let type : (8 * n + type_code t) % 8 ≡ type_code t = omega (arith, k) in
    rw (number, type, type_of-type_code t) refl

read_bool_back : (v : Bool) (rest : Bytes) → read_bool (bool_code v ∷ rest) ≡ done (v, rest)
read_bool_back true rest = refl
read_bool_back false rest = refl

cut-append : (b rest : Bytes) → cut (length b) (b ++ rest) ≡ done (b, rest)
cut-append b rest = rw (take-length b rest, drop-length b rest) refl

collected :
    {M : Type 0} (r : ProtobufResult M) (ms : List M) (rest : Bytes)
    → let one : ProtobufResult (M × Bytes) = r >>= λ m. done (m, rest) in
      let all : M × Bytes → ProtobufResult (List M × Bytes) =
        λ (m, left). done (ms ++ m ∷ [], left) in
      (one >>= all) ≡ (r >>= λ m. done (ms ++ m ∷ [], rest))
collected (done m) ms rest = refl
collected (failed e) ms rest = refl

pub plain_laws : CodingLaws plain
plain_laws = record {
  uint64_tagged = λ n v. refl;
  bool_tagged = λ n v. refl;
  enum_tagged = λ n v. refl;
  bytes_tagged = λ n v. refl;
  string_tagged = λ n v. refl;
  read-tag = λ n t rest lo hi. read_tag_back n t rest;
  read-uint64 = λ v rest h. refl;
  read-bool = λ v rest. read_bool_back v rest;
  read-enum = λ from v a rest e h. rw e refl;
  read-bytes = λ v rest h. cut-append v rest;
  read-string = λ v rest h.
      rw (take-length (codes v) rest, drop-length (codes v) rest, from_codes-codes v) refl;
  merge_message_lem = λ f m b rest h. rw (take-length b rest, drop-length b rest) refl;
  read_repeated_lem = λ f new ms b rest h.
      rw (take-length b rest, drop-length b rest) (collected (f new b) ms rest);
  tag_size = λ n t lo hi. refl;
  bool_size = λ n v lo hi. refl;
  value_size_lem = λ n v. refl;
  enum_size_lem = λ n v. refl;
  bytes_size_lem = λ n v. omega arith;
  string_size_lem = λ n v. omega arith;
  varint32_size = λ v h. refl;
  unknown_fields_size_lem = λ fields. refl;
  unknown_fields-none = refl;
}
