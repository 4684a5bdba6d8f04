-- ===== src/Messages/WatchReq.antt =====
-- src/serialization.rs: the message `WatchReq` of include/serialization.proto.
use rasputin.Prelude.{[], ℕ, Bool, Bytes, Option, none}
use rasputin.Messages.Unknown.{UnknownFields}

pub record WatchReq : Type 0 where
  pub key : Option Bytes
  pub last_txid : Option ℕ
  pub recursive : Option Bool
  pub historical : Option Bool
  pub unknown_fields : UnknownFields

abbrev pub new : WatchReq
new = record {
  key = none;
  last_txid = none;
  recursive = none;
  historical = none;
  unknown_fields = [];
}
