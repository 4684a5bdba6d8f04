-- ===== src/Protobuf/Merging.antt =====
-- The shapes of code that each `merge_from` of src/serialization.rs is made of.
use rasputin.Prelude.{
  ℕ, zero, suc, String, Bytes, Bool, true, false, Option, List, [], ◌∷◌, length, if◌then◌else◌,
}
use rasputin.Messages.Mutation.{MutationType}
use rasputin.Messages.Unknown.{UnknownFields}
use rasputin.Protobuf.{
  Coding, WireType, varint, length_delimited, wire_error, spent, ProtobufResult, done, failed,
  ◌>>=◌,
}

abbrev pub is_varint : WireType → Bool
is_varint varint = true
is_varint _ = false

abbrev pub is_length_delimited : WireType → Bool
is_length_delimited length_delimited = true
is_length_delimited _ = false

abbrev pub unexpected {ℓ} : {A : Type ℓ} → ProtobufResult A
unexpected = failed (wire_error "unexpected wire type")

module _ ⦃C : Coding⦄ {M : Type 0} where
  -- An arm that checks the wire type, reads a value, and sets the field.
  unfoldable pub on_uint64 : WireType → Bytes → (ℕ → M) → ProtobufResult (M × Bytes)
  on_uint64 wire_type is set =
      if is_varint wire_type
      then (C.read_uint64 is >>= λ (tmp, rest). done (set tmp, rest))
      else unexpected

  unfoldable pub on_bool : WireType → Bytes → (Bool → M) → ProtobufResult (M × Bytes)
  on_bool wire_type is set =
      if is_varint wire_type
      then (C.read_bool is >>= λ (tmp, rest). done (set tmp, rest))
      else unexpected

  unfoldable pub on_enum :
      (ℕ → Option MutationType) → WireType → Bytes → (MutationType → M) → ProtobufResult (M × Bytes)
  on_enum from_i32 wire_type is set =
      if is_varint wire_type
      then (C.read_enum from_i32 is >>= λ (tmp, rest). done (set tmp, rest))
      else unexpected

  unfoldable pub on_bytes : WireType → Bytes → (Bytes → M) → ProtobufResult (M × Bytes)
  on_bytes wire_type is set =
      if is_length_delimited wire_type
      then (C.read_bytes is >>= λ (tmp, rest). done (set tmp, rest))
      else unexpected

  unfoldable pub on_string : WireType → Bytes → (String → M) → ProtobufResult (M × Bytes)
  on_string wire_type is set =
      if is_length_delimited wire_type
      then (C.read_string is >>= λ (tmp, rest). done (set tmp, rest))
      else unexpected

  -- `set_default` starts from the message that is new.
  unfoldable pub on_message :
      {N : Type 0}
      → (N → Bytes → ProtobufResult N)
      → N
      → WireType
      → Bytes
      → (N → M)
      → ProtobufResult (M × Bytes)
  on_message merge_from new wire_type is set =
      if is_length_delimited wire_type
      then (C.merge_message merge_from new is >>= λ (tmp, rest). done (set tmp, rest))
      else unexpected

  unfoldable pub on_repeated :
      {N : Type 0}
      → (N → Bytes → ProtobufResult N)
      → N
      → List N
      → WireType
      → Bytes
      → (List N → M)
      → ProtobufResult (M × Bytes)
  on_repeated merge_from new have wire_type is set =
      C.read_repeated wire_type merge_from new have is >>= λ (all, rest). done (set all, rest)

  -- The last arm: `add_value`.
  unfoldable pub on_unknown :
      ℕ → WireType → Bytes → UnknownFields → (UnknownFields → M) → ProtobufResult (M × Bytes)
  on_unknown field_number wire_type is fields set =
      C.read_unknown wire_type is >>= λ (unknown, rest).
      done (set (C.add_value fields field_number unknown), rest)

  -- `while !try!(is.eof())`, over the arms of the `match` on the field's number.
  unfoldable pub merge_loop :
      (M → ℕ → WireType → Bytes → ProtobufResult (M × Bytes)) → ℕ → M → Bytes → ProtobufResult M
  merge_loop arms zero m is = failed spent
  merge_loop arms (suc fuel) m [] = done m
  merge_loop arms (suc fuel) m (b ∷ is) =
      C.read_tag_unpack (b ∷ is) >>= λ (field_number, wire_type, rest).
      (arms m field_number wire_type rest >>= λ (next, left). merge_loop arms fuel next left)

  -- Each round reads a tag, so that the number of bytes and one more is fuel enough.
  unfoldable pub merge_all :
      (M → ℕ → WireType → Bytes → ProtobufResult (M × Bytes)) → M → Bytes → ProtobufResult M
  unfolding merge_loop
  merge_all arms m is = merge_loop arms (suc (length is)) m is
