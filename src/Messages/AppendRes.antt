-- ===== src/Messages/AppendRes.antt =====
-- src/serialization.rs: the message `AppendRes` of include/serialization.proto, its accessors.
use rasputin.Prelude.{[], ℕ, Bool, false, Option, none, some, unwrap_or}
use rasputin.Messages.Unknown.{UnknownFields}

pub record AppendRes : Type 0 where
  pub accepted : Option Bool
  pub last_accepted_txid : Option ℕ
  pub last_accepted_term : Option ℕ
  pub unknown_fields : UnknownFields

abbrev pub new : AppendRes
new = record {
  accepted = none;
  last_accepted_txid = none;
  last_accepted_term = none;
  unknown_fields = [];
}

abbrev pub get_accepted : AppendRes → Bool
get_accepted m = unwrap_or m.accepted false

abbrev pub set_accepted : AppendRes → Bool → AppendRes
set_accepted m v = record m { accepted = some v }

abbrev pub get_last_accepted_txid : AppendRes → ℕ
get_last_accepted_txid m = unwrap_or m.last_accepted_txid 0

abbrev pub set_last_accepted_txid : AppendRes → ℕ → AppendRes
set_last_accepted_txid m v = record m { last_accepted_txid = some v }

abbrev pub get_last_accepted_term : AppendRes → ℕ
get_last_accepted_term m = unwrap_or m.last_accepted_term 0

abbrev pub set_last_accepted_term : AppendRes → ℕ → AppendRes
set_last_accepted_term m v = record m { last_accepted_term = some v }
