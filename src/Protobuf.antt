-- ===== src/Protobuf.antt =====
-- What src/serialization.rs uses of the library `protobuf`, as parameters: the two coded streams,
-- as functions on bytes, and the helpers of `protobuf::rt`.
pub mod Sizes
pub mod Merging
pub mod Rounds
pub mod Nested
pub mod Fields
pub mod Ends
use rasputin.Prelude.{
  ℕ, ◌+◌, ◌^◌, ◌≡◌, ◌≤◌, ◌<◌, String, Bytes, Bool, true, false, Option, some, List, [], ◌∷◌, ◌++◌,
  length,
}
use rasputin.Messages.Mutation.{MutationType}
use rasputin.Messages.Unknown.{UnknownValue, UnknownFields}

-- `protobuf::wire_format::WireType`
pub data WireType : Type 0 where
  varint fixed64 length_delimited start_group end_group fixed32 : WireType

-- `ProtobufError`. `spent` stands for a loop of the model that is out of fuel.
pub data ProtobufError : Type 0 where
  wire_error : String → ProtobufError
  stream_error : ProtobufError
  spent : ProtobufError

-- `ProtobufResult`
pub data ProtobufResult {ℓ} (A : Type ℓ) : Type ℓ where
  done : A → ProtobufResult A
  failed : ProtobufError → ProtobufResult A

infixl 5 ◌>>=◌
abbrev pub ◌>>=◌ {ℓ κ} :
    {A : Type ℓ} {B : Type κ} → ProtobufResult A → (A → ProtobufResult B) → ProtobufResult B
done a >>= f = f a
failed e >>= f = failed e

-- `CodedInputStream`: a read returns what it read and the bytes that are left; a value that is not
-- known is kept as it is. `CodedOutputStream`: what a write appends. `merge_message` and
-- `read_repeated_message_into` are given the `merge_from` of the message.
pub record Coding : Type 1 where
  pub read_tag_unpack : Bytes → ProtobufResult (ℕ × WireType × Bytes)
  pub read_uint64 : Bytes → ProtobufResult (ℕ × Bytes)
  pub read_bool : Bytes → ProtobufResult (Bool × Bytes)
  pub read_enum : (ℕ → Option MutationType) → Bytes → ProtobufResult (MutationType × Bytes)
  pub read_bytes : Bytes → ProtobufResult (Bytes × Bytes)
  pub read_string : Bytes → ProtobufResult (String × Bytes)
  pub read_unknown : WireType → Bytes → ProtobufResult (UnknownValue × Bytes)
  pub merge_message :
      {M : Type 0} → (M → Bytes → ProtobufResult M) → M → Bytes → ProtobufResult (M × Bytes)
  pub read_repeated :
      {M : Type 0}
      → WireType
      → (M → Bytes → ProtobufResult M)
      → M
      → List M
      → Bytes
      → ProtobufResult (List M × Bytes)
  pub add_value : UnknownFields → ℕ → UnknownValue → UnknownFields
  pub write_tag : ℕ → WireType → Bytes
  pub write_raw_varint32 : ℕ → Bytes
  pub write_uint64 : ℕ → ℕ → Bytes
  pub write_bool : ℕ → Bool → Bytes
  pub write_enum : ℕ → ℕ → Bytes
  pub write_bytes : ℕ → Bytes → Bytes
  pub write_string : ℕ → String → Bytes
  pub write_unknown_fields : UnknownFields → Bytes
  pub value_size : ℕ → ℕ → WireType → ℕ
  pub enum_size : ℕ → ℕ → ℕ
  pub bytes_size : ℕ → Bytes → ℕ
  pub string_size : ℕ → String → ℕ
  pub unknown_fields_size : UnknownFields → ℕ
  pub compute_raw_varint32_size : ℕ → ℕ
  -- The value without its tag, as the writes above append it.
  pub uint64_no_tag : ℕ → Bytes
  pub bool_no_tag : Bool → Bytes
  pub enum_no_tag : ℕ → Bytes
  pub bytes_no_tag : Bytes → Bytes
  pub string_no_tag : String → Bytes

-- A write appends the tag and the value, and a read takes back what was written.
pub record CodingLaws (C : Coding) : Type 1 where
  pub uint64_tagged : (n v : ℕ) → C.write_uint64 n v ≡ C.write_tag n varint ++ C.uint64_no_tag v
  pub bool_tagged : (n : ℕ) (v : Bool) → C.write_bool n v ≡ C.write_tag n varint ++ C.bool_no_tag v
  pub enum_tagged : (n v : ℕ) → C.write_enum n v ≡ C.write_tag n varint ++ C.enum_no_tag v
  pub bytes_tagged :
      (n : ℕ) (v : Bytes) → C.write_bytes n v ≡ C.write_tag n length_delimited ++ C.bytes_no_tag v
  pub string_tagged :
      (n : ℕ) (v : String)
      → C.write_string n v ≡ C.write_tag n length_delimited ++ C.string_no_tag v
  pub read-tag :
      (n : ℕ) (t : WireType) (rest : Bytes)
      → 0 < n
      → n < 2 ^ 29
      → C.read_tag_unpack (C.write_tag n t ++ rest) ≡ done (n, t, rest)
  pub read-uint64 :
      (v : ℕ) (rest : Bytes)
      → v < 2 ^ 64
      → C.read_uint64 (C.uint64_no_tag v ++ rest) ≡ done (v, rest)
  pub read-bool : (v : Bool) (rest : Bytes) → C.read_bool (C.bool_no_tag v ++ rest) ≡ done (v, rest)
  pub read-enum :
      (from : ℕ → Option MutationType) (v : ℕ) (a : MutationType) (rest : Bytes)
      → from v ≡ some a
      → v < 2 ^ 31
      → C.read_enum from (C.enum_no_tag v ++ rest) ≡ done (a, rest)
  pub read-bytes :
      (v rest : Bytes)
      → length (C.bytes_no_tag v) < 2 ^ 32
      → C.read_bytes (C.bytes_no_tag v ++ rest) ≡ done (v, rest)
  pub read-string :
      (v : String) (rest : Bytes)
      → length (C.string_no_tag v) < 2 ^ 32
      → C.read_string (C.string_no_tag v ++ rest) ≡ done (v, rest)
  pub merge_message_lem :
      {M : Type 0} (f : M → Bytes → ProtobufResult M) (m : M) (b rest : Bytes)
      → length b < 2 ^ 32
      → C.merge_message f m (C.write_raw_varint32 (length b) ++ (b ++ rest))
        ≡ (f m b >>= λ m'. done (m', rest))
  pub read_repeated_lem :
      {M : Type 0} (f : M → Bytes → ProtobufResult M) (new : M) (ms : List M) (b rest : Bytes)
      → length b < 2 ^ 32
      → C.read_repeated length_delimited f new ms (C.write_raw_varint32 (length b) ++ (b ++ rest))
        ≡ (f new b >>= λ m. done (ms ++ m ∷ [], rest))
  -- A tag below 16 is one byte, and so is a Boolean; the sizes are those of what is written.
  pub tag_size : (n : ℕ) (t : WireType) → 0 < n → n < 16 → length (C.write_tag n t) ≡ 1
  pub bool_size : (n : ℕ) (v : Bool) → 0 < n → n < 16 → length (C.write_bool n v) ≡ 2
  pub value_size_lem : (n v : ℕ) → C.value_size n v varint ≡ length (C.write_uint64 n v)
  pub enum_size_lem : (n v : ℕ) → C.enum_size n v ≡ length (C.write_enum n v)
  pub bytes_size_lem : (n : ℕ) (v : Bytes) → C.bytes_size n v ≡ length (C.write_bytes n v)
  pub string_size_lem : (n : ℕ) (v : String) → C.string_size n v ≡ length (C.write_string n v)
  pub varint32_size :
      (v : ℕ) → v < 2 ^ 32 → C.compute_raw_varint32_size v ≡ length (C.write_raw_varint32 v)
  pub unknown_fields_size_lem :
      (fields : UnknownFields)
      → C.unknown_fields_size fields ≡ length (C.write_unknown_fields fields)
  pub unknown_fields-none : C.write_unknown_fields [] ≡ []
