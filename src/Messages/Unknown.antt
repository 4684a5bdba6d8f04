-- ===== src/Messages/Unknown.antt =====
-- `protobuf::UnknownFields`: what a message of src/serialization.rs keeps of fields that it does not
-- know.
use rasputin.Prelude.{ℕ, Bytes, List}

pub data UnknownValue : Type 0 where
  fixed32 fixed64 varint : ℕ → UnknownValue
  length_delimited : Bytes → UnknownValue

-- Each value with the number of its field.
abbrev pub UnknownFields : Type 0
UnknownFields = List (ℕ × UnknownValue)
