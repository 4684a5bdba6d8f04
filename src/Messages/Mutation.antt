-- ===== src/Messages/Mutation.antt =====
-- src/serialization.rs: the message `Mutation` of include/serialization.proto, its accessors.
use rasputin.Prelude.{
  ℕ, eqb, refl, arith, ◌≡◌, ◌<◌, ◌^◌, if◌then◌else◌, Bytes, Bool, [], Option, none, some, unwrap_or,
  is_some,
}
use rasputin.Messages.Unknown.{UnknownFields}
use rasputin.Messages.Version.{Version}
use rasputin.Messages.Version

pub data MutationType : Type 0 where
  kv_set kv_cas kv_del : MutationType

-- `*self as i32`
abbrev pub value_of : MutationType → ℕ
value_of kv_set = 1
value_of kv_cas = 2
value_of kv_del = 3

abbrev pub from_i32 : ℕ → Option MutationType
from_i32 value =
    if eqb value 1
    then some kv_set
    else if eqb value 2
    then some kv_cas
    else if eqb value 3
    then some kv_del
    else none

pub from_i32-value_of :
    (t : MutationType) → (from_i32 (value_of t) ≡ some t) × (value_of t < 2 ^ 31)
from_i32-value_of kv_set = (refl, omega arith)
from_i32-value_of kv_cas = (refl, omega arith)
from_i32-value_of kv_del = (refl, omega arith)

pub record Mutation : Type 0 where
  pub field_type : Option MutationType
  pub version : Option Version
  pub key : Option Bytes
  pub value : Option Bytes
  pub old_value : Option Bytes
  pub unknown_fields : UnknownFields

abbrev pub new : Mutation
new = record {
  field_type = none;
  version = none;
  key = none;
  value = none;
  old_value = none;
  unknown_fields = [];
}

abbrev pub get_field_type : Mutation → MutationType
get_field_type m = unwrap_or m.field_type kv_set

abbrev pub set_field_type : Mutation → MutationType → Mutation
set_field_type m v = record m { field_type = some v }

abbrev pub get_version : Mutation → Version
get_version m = unwrap_or m.version Version.new

abbrev pub set_version : Mutation → Version → Mutation
set_version m v = record m { version = some v }

abbrev pub get_key : Mutation → Bytes
get_key m = unwrap_or m.key []

abbrev pub set_key : Mutation → Bytes → Mutation
set_key m v = record m { key = some v }

abbrev pub get_value : Mutation → Bytes
get_value m = unwrap_or m.value []

abbrev pub set_value : Mutation → Bytes → Mutation
set_value m v = record m { value = some v }

abbrev pub get_old_value : Mutation → Bytes
get_old_value m = unwrap_or m.old_value []

abbrev pub has_old_value : Mutation → Bool
has_old_value m = is_some m.old_value

abbrev pub set_old_value : Mutation → Bytes → Mutation
set_old_value m v = record m { old_value = some v }
