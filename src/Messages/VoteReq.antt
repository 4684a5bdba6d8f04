-- ===== src/Messages/VoteReq.antt =====
-- src/serialization.rs: the message `VoteReq` of include/serialization.proto, its accessors.
use rasputin.Prelude.{[], ℕ, Option, none, some, unwrap_or}
use rasputin.Messages.Unknown.{UnknownFields}

pub record VoteReq : Type 0 where
  pub term : Option ℕ
  pub last_learned_term : Option ℕ
  pub last_learned_txid : Option ℕ
  pub last_accepted_term : Option ℕ
  pub last_accepted_txid : Option ℕ
  pub unknown_fields : UnknownFields

abbrev pub new : VoteReq
new = record {
  term = none;
  last_learned_term = none;
  last_learned_txid = none;
  last_accepted_term = none;
  last_accepted_txid = none;
  unknown_fields = [];
}

abbrev pub get_term : VoteReq → ℕ
get_term m = unwrap_or m.term 0

abbrev pub set_term : VoteReq → ℕ → VoteReq
set_term m v = record m { term = some v }

abbrev pub get_last_learned_term : VoteReq → ℕ
get_last_learned_term m = unwrap_or m.last_learned_term 0

abbrev pub set_last_learned_term : VoteReq → ℕ → VoteReq
set_last_learned_term m v = record m { last_learned_term = some v }

abbrev pub set_last_learned_txid : VoteReq → ℕ → VoteReq
set_last_learned_txid m v = record m { last_learned_txid = some v }

abbrev pub set_last_accepted_term : VoteReq → ℕ → VoteReq
set_last_accepted_term m v = record m { last_accepted_term = some v }

abbrev pub get_last_accepted_txid : VoteReq → ℕ
get_last_accepted_txid m = unwrap_or m.last_accepted_txid 0

abbrev pub set_last_accepted_txid : VoteReq → ℕ → VoteReq
set_last_accepted_txid m v = record m { last_accepted_txid = some v }
