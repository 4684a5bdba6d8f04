-- ===== src/Messages/GetRes.antt =====
-- src/serialization.rs: the message `GetRes` of include/serialization.proto, its accessors.
use rasputin.Prelude.{ℕ, String, Bytes, Bool, false, [], Option, none, some, unwrap_or}
use rasputin.Messages.Unknown.{UnknownFields}

pub record GetRes : Type 0 where
  pub success : Option Bool
  pub txid : Option ℕ
  pub value : Option Bytes
  pub err : Option String
  pub unknown_fields : UnknownFields

abbrev pub new : GetRes
new = record { success = none; txid = none; value = none; err = none; unknown_fields = [] }

abbrev pub get_success : GetRes → Bool
get_success m = unwrap_or m.success false

abbrev pub set_success : GetRes → Bool → GetRes
set_success m v = record m { success = some v }

abbrev pub get_txid : GetRes → ℕ
get_txid m = unwrap_or m.txid 0

abbrev pub set_txid : GetRes → ℕ → GetRes
set_txid m v = record m { txid = some v }

abbrev pub get_value : GetRes → Bytes
get_value m = unwrap_or m.value []

abbrev pub set_value : GetRes → Bytes → GetRes
set_value m v = record m { value = some v }

abbrev pub set_err : GetRes → String → GetRes
set_err m v = record m { err = some v }
