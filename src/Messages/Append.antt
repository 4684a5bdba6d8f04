-- ===== src/Messages/Append.antt =====
-- src/serialization.rs: the message `Append` of include/serialization.proto, its accessors.
use rasputin.Prelude.{ℕ, List, [], Option, none, some, unwrap_or}
use rasputin.Messages.Unknown.{UnknownFields}
use rasputin.Messages.Mutation.{Mutation}

pub record Append : Type 0 where
  pub from_txid : Option ℕ
  pub from_term : Option ℕ
  pub batch : List Mutation
  pub last_learned_txid : Option ℕ
  pub unknown_fields : UnknownFields

abbrev pub new : Append
new = record {
  from_txid = none;
  from_term = none;
  batch = [];
  last_learned_txid = none;
  unknown_fields = [];
}

abbrev pub get_from_txid : Append → ℕ
get_from_txid m = unwrap_or m.from_txid 0

abbrev pub set_from_txid : Append → ℕ → Append
set_from_txid m v = record m { from_txid = some v }

abbrev pub get_from_term : Append → ℕ
get_from_term m = unwrap_or m.from_term 0

abbrev pub set_from_term : Append → ℕ → Append
set_from_term m v = record m { from_term = some v }

abbrev pub get_batch : Append → List Mutation
get_batch m = m.batch

abbrev pub set_batch : Append → List Mutation → Append
set_batch m v = record m { batch = v }

abbrev pub get_last_learned_txid : Append → ℕ
get_last_learned_txid m = unwrap_or m.last_learned_txid 0

abbrev pub set_last_learned_txid : Append → ℕ → Append
set_last_learned_txid m v = record m { last_learned_txid = some v }
