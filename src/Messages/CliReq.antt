-- ===== src/Messages/CliReq.antt =====
-- src/serialization.rs: the message `CliReq` of include/serialization.proto, its accessors.
use rasputin.Prelude.{[], ℕ, Bool, Option, none, some, unwrap_or, is_some}
use rasputin.Messages.Unknown.{UnknownFields}
use rasputin.Messages.CasReq.{CasReq}
use rasputin.Messages.CasReq
use rasputin.Messages.DelReq.{DelReq}
use rasputin.Messages.DelReq
use rasputin.Messages.GetReq.{GetReq}
use rasputin.Messages.GetReq
use rasputin.Messages.SetReq.{SetReq}
use rasputin.Messages.SetReq
use rasputin.Messages.WatchReq.{WatchReq}

pub record CliReq : Type 0 where
  pub req_id : Option ℕ
  pub get : Option GetReq
  pub set : Option SetReq
  pub cas : Option CasReq
  pub del : Option DelReq
  pub watch : Option WatchReq
  pub unknown_fields : UnknownFields

abbrev pub new : CliReq
new = record {
  req_id = none;
  get = none;
  set = none;
  cas = none;
  del = none;
  watch = none;
  unknown_fields = [];
}

abbrev pub get_req_id : CliReq → ℕ
get_req_id m = unwrap_or m.req_id 0

abbrev pub set_req_id : CliReq → ℕ → CliReq
set_req_id m v = record m { req_id = some v }

abbrev pub get_get : CliReq → GetReq
get_get m = unwrap_or m.get GetReq.new

abbrev pub set_get : CliReq → GetReq → CliReq
set_get m v = record m { get = some v }

abbrev pub has_get : CliReq → Bool
has_get m = is_some m.get

abbrev pub get_set : CliReq → SetReq
get_set m = unwrap_or m.set SetReq.new

abbrev pub set_set : CliReq → SetReq → CliReq
set_set m v = record m { set = some v }

abbrev pub has_set : CliReq → Bool
has_set m = is_some m.set

abbrev pub get_cas : CliReq → CasReq
get_cas m = unwrap_or m.cas CasReq.new

abbrev pub set_cas : CliReq → CasReq → CliReq
set_cas m v = record m { cas = some v }

abbrev pub has_cas : CliReq → Bool
has_cas m = is_some m.cas

abbrev pub get_del : CliReq → DelReq
get_del m = unwrap_or m.del DelReq.new

abbrev pub set_del : CliReq → DelReq → CliReq
set_del m v = record m { del = some v }

abbrev pub has_del : CliReq → Bool
has_del m = is_some m.del

-- Every required field is set; nested messages are not looked into.
abbrev pub is_initialized : CliReq → Bool
is_initialized m = is_some m.req_id
