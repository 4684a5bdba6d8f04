-- ===== src/Messages/RedirectRes.antt =====
-- src/serialization.rs: the message `RedirectRes` of include/serialization.proto, its accessors.
use rasputin.Prelude.{[], String, Bool, false, Option, none, some, unwrap_or}
use rasputin.Messages.Unknown.{UnknownFields}

pub record RedirectRes : Type 0 where
  pub success : Option Bool
  pub address : Option String
  pub err : Option String
  pub unknown_fields : UnknownFields

abbrev pub new : RedirectRes
new = record { success = none; address = none; err = none; unknown_fields = [] }

abbrev pub get_success : RedirectRes → Bool
get_success m = unwrap_or m.success false

abbrev pub set_success : RedirectRes → Bool → RedirectRes
set_success m v = record m { success = some v }

abbrev pub get_address : RedirectRes → String
get_address m = unwrap_or m.address ""

abbrev pub set_address : RedirectRes → String → RedirectRes
set_address m v = record m { address = some v }

abbrev pub set_err : RedirectRes → String → RedirectRes
set_err m v = record m { err = some v }
