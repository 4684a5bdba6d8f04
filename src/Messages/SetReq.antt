-- ===== src/Messages/SetReq.antt =====
-- src/serialization.rs: the message `SetReq` of include/serialization.proto, its accessors.
use rasputin.Prelude.{Bytes, [], Option, none, some, unwrap_or}
use rasputin.Messages.Unknown.{UnknownFields}

pub record SetReq : Type 0 where
  pub key : Option Bytes
  pub value : Option Bytes
  pub unknown_fields : UnknownFields

abbrev pub new : SetReq
new = record { key = none; value = none; unknown_fields = [] }

abbrev pub get_key : SetReq → Bytes
get_key m = unwrap_or m.key []

abbrev pub get_value : SetReq → Bytes
get_value m = unwrap_or m.value []

abbrev pub set_key : SetReq → Bytes → SetReq
set_key m v = record m { key = some v }

abbrev pub set_value : SetReq → Bytes → SetReq
set_value m v = record m { value = some v }
