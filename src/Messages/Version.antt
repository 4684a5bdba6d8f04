-- ===== src/Messages/Version.antt =====
-- src/serialization.rs: the message `Version` of include/serialization.proto, its accessors.
use rasputin.Prelude.{[], ℕ, Option, none, some, unwrap_or}
use rasputin.Messages.Unknown.{UnknownFields}

pub record Version : Type 0 where
  pub txid : Option ℕ
  pub term : Option ℕ
  pub unknown_fields : UnknownFields

abbrev pub new : Version
new = record { txid = none; term = none; unknown_fields = [] }

abbrev pub get_txid : Version → ℕ
get_txid m = unwrap_or m.txid 0

abbrev pub set_txid : Version → ℕ → Version
set_txid m v = record m { txid = some v }

abbrev pub get_term : Version → ℕ
get_term m = unwrap_or m.term 0

abbrev pub set_term : Version → ℕ → Version
set_term m v = record m { term = some v }
