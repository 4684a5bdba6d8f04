-- ===== src/Messages/VoteRes.antt =====
-- src/serialization.rs: the message `VoteRes` of include/serialization.proto, its accessors.
use rasputin.Prelude.{[], ℕ, Bool, false, Option, none, some, unwrap_or}
use rasputin.Messages.Unknown.{UnknownFields}

pub record VoteRes : Type 0 where
  pub success : Option Bool
  pub term : Option ℕ
  pub unknown_fields : UnknownFields

abbrev pub new : VoteRes
new = record { success = none; term = none; unknown_fields = [] }

abbrev pub get_success : VoteRes → Bool
get_success m = unwrap_or m.success false

abbrev pub set_success : VoteRes → Bool → VoteRes
set_success m v = record m { success = some v }

abbrev pub get_term : VoteRes → ℕ
get_term m = unwrap_or m.term 0

abbrev pub set_term : VoteRes → ℕ → VoteRes
set_term m v = record m { term = some v }
