-- ===== src/Messages/DelReq.antt =====
-- src/serialization.rs: the message `DelReq` of include/serialization.proto, its accessors.
use rasputin.Prelude.{Bytes, [], Option, none, some, unwrap_or}
use rasputin.Messages.Unknown.{UnknownFields}

pub record DelReq : Type 0 where
  pub key : Option Bytes
  pub unknown_fields : UnknownFields

abbrev pub new : DelReq
new = record { key = none; unknown_fields = [] }

abbrev pub get_key : DelReq → Bytes
get_key m = unwrap_or m.key []

abbrev pub set_key : DelReq → Bytes → DelReq
set_key m v = record m { key = some v }
