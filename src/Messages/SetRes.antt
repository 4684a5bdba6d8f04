-- ===== src/Messages/SetRes.antt =====
-- src/serialization.rs: the message `SetRes` of include/serialization.proto, its accessors.
use rasputin.Prelude.{[], ℕ, String, Bool, Option, none, some}
use rasputin.Messages.Unknown.{UnknownFields}

pub record SetRes : Type 0 where
  pub success : Option Bool
  pub txid : Option ℕ
  pub err : Option String
  pub unknown_fields : UnknownFields

abbrev pub new : SetRes
new = record { success = none; txid = none; err = none; unknown_fields = [] }

abbrev pub set_success : SetRes → Bool → SetRes
set_success m v = record m { success = some v }

abbrev pub set_err : SetRes → String → SetRes
set_err m v = record m { err = some v }
