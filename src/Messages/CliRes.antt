-- ===== src/Messages/CliRes.antt =====
-- src/serialization.rs: the message `CliRes` of include/serialization.proto, its accessors.
use rasputin.Prelude.{[], ℕ, Bool, Option, none, some, unwrap_or, is_some}
use rasputin.Messages.Unknown.{UnknownFields}
use rasputin.Messages.CasRes.{CasRes}
use rasputin.Messages.CasRes
use rasputin.Messages.DelRes.{DelRes}
use rasputin.Messages.DelRes
use rasputin.Messages.GetRes.{GetRes}
use rasputin.Messages.GetRes
use rasputin.Messages.RedirectRes.{RedirectRes}
use rasputin.Messages.RedirectRes
use rasputin.Messages.SetRes.{SetRes}
use rasputin.Messages.SetRes
use rasputin.Messages.WatchRes.{WatchRes}

pub record CliRes : Type 0 where
  pub req_id : Option ℕ
  pub get : Option GetRes
  pub set : Option SetRes
  pub cas : Option CasRes
  pub del : Option DelRes
  pub watch : Option WatchRes
  pub redirect : Option RedirectRes
  pub unknown_fields : UnknownFields

abbrev pub new : CliRes
new = record {
  req_id = none;
  get = none;
  set = none;
  cas = none;
  del = none;
  watch = none;
  redirect = none;
  unknown_fields = [];
}

abbrev pub get_req_id : CliRes → ℕ
get_req_id m = unwrap_or m.req_id 0

abbrev pub set_req_id : CliRes → ℕ → CliRes
set_req_id m v = record m { req_id = some v }

abbrev pub get_get : CliRes → GetRes
get_get m = unwrap_or m.get GetRes.new

abbrev pub set_get : CliRes → GetRes → CliRes
set_get m v = record m { get = some v }

abbrev pub get_set : CliRes → SetRes
get_set m = unwrap_or m.set SetRes.new

abbrev pub set_set : CliRes → SetRes → CliRes
set_set m v = record m { set = some v }

abbrev pub get_cas : CliRes → CasRes
get_cas m = unwrap_or m.cas CasRes.new

abbrev pub set_cas : CliRes → CasRes → CliRes
set_cas m v = record m { cas = some v }

abbrev pub get_del : CliRes → DelRes
get_del m = unwrap_or m.del DelRes.new

abbrev pub set_del : CliRes → DelRes → CliRes
set_del m v = record m { del = some v }

abbrev pub get_redirect : CliRes → RedirectRes
get_redirect m = unwrap_or m.redirect RedirectRes.new

abbrev pub has_redirect : CliRes → Bool
has_redirect m = is_some m.redirect

abbrev pub set_redirect : CliRes → RedirectRes → CliRes
set_redirect m v = record m { redirect = some v }

-- Every required field is set; nested messages are not looked into.
abbrev pub is_initialized : CliRes → Bool
is_initialized m = is_some m.req_id
