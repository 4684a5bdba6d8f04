-- ===== src/Messages/CasReq.antt =====
-- src/serialization.rs: the message `CASReq` of include/serialization.proto, its accessors.
use rasputin.Prelude.{Bytes, [], Option, none, some, unwrap_or}
use rasputin.Messages.Unknown.{UnknownFields}

pub record CasReq : Type 0 where
  pub key : Option Bytes
  pub new_value : Option Bytes
  pub old_value : Option Bytes
  pub unknown_fields : UnknownFields

abbrev pub new : CasReq
new = record { key = none; new_value = none; old_value = none; unknown_fields = [] }

abbrev pub get_key : CasReq → Bytes
get_key m = unwrap_or m.key []

abbrev pub get_new_value : CasReq → Bytes
get_new_value m = unwrap_or m.new_value []

abbrev pub get_old_value : CasReq → Bytes
get_old_value m = unwrap_or m.old_value []

abbrev pub set_key : CasReq → Bytes → CasReq
set_key m v = record m { key = some v }

abbrev pub set_old_value : CasReq → Bytes → CasReq
set_old_value m v = record m { old_value = some v }

abbrev pub set_new_value : CasReq → Bytes → CasReq
set_new_value m v = record m { new_value = some v }
