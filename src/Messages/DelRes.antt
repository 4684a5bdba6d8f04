-- ===== src/Messages/DelRes.antt =====
-- src/serialization.rs: the message `DelRes` of include/serialization.proto, its accessors.
use rasputin.Prelude.{[], ℕ, String, Bytes, Bool, Option, none, some}
use rasputin.Messages.Unknown.{UnknownFields}

pub record DelRes : Type 0 where
  pub success : Option Bool
  pub txid : Option ℕ
  pub value : Option Bytes
  pub err : Option String
  pub unknown_fields : UnknownFields

abbrev pub new : DelRes
new = record { success = none; txid = none; value = none; err = none; unknown_fields = [] }

abbrev pub set_success : DelRes → Bool → DelRes
set_success m v = record m { success = some v }

abbrev pub set_value : DelRes → Bytes → DelRes
set_value m v = record m { value = some v }

abbrev pub set_err : DelRes → String → DelRes
set_err m v = record m { err = some v }
