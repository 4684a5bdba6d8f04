-- ===== src/Messages/GetReq.antt =====
-- src/serialization.rs: the message `GetReq` of include/serialization.proto, its accessors.
use rasputin.Prelude.{Bytes, [], Option, none, some, unwrap_or}
use rasputin.Messages.Unknown.{UnknownFields}

pub record GetReq : Type 0 where
  pub key : Option Bytes
  pub unknown_fields : UnknownFields

abbrev pub new : GetReq
new = record { key = none; unknown_fields = [] }

abbrev pub get_key : GetReq → Bytes
get_key m = unwrap_or m.key []

abbrev pub set_key : GetReq → Bytes → GetReq
set_key m v = record m { key = some v }
