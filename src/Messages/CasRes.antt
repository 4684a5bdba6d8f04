-- ===== src/Messages/CasRes.antt =====
-- src/serialization.rs: the message `CASRes` of include/serialization.proto, its accessors.
use rasputin.Prelude.{[], ℕ, String, Bytes, Bool, false, Option, none, some, unwrap_or}
use rasputin.Messages.Unknown.{UnknownFields}

pub record CasRes : Type 0 where
  pub success : Option Bool
  pub txid : Option ℕ
  pub value : Option Bytes
  pub err : Option String
  pub unknown_fields : UnknownFields

abbrev pub new : CasRes
new = record { success = none; txid = none; value = none; err = none; unknown_fields = [] }

abbrev pub get_success : CasRes → Bool
get_success m = unwrap_or m.success false

abbrev pub set_success : CasRes → Bool → CasRes
set_success m v = record m { success = some v }

abbrev pub set_txid : CasRes → ℕ → CasRes
set_txid m v = record m { txid = some v }

abbrev pub set_value : CasRes → Bytes → CasRes
set_value m v = record m { value = some v }

abbrev pub set_err : CasRes → String → CasRes
set_err m v = record m { err = some v }
