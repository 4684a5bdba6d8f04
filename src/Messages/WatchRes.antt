-- ===== src/Messages/WatchRes.antt =====
-- src/serialization.rs: the message `WatchRes` of include/serialization.proto.
use rasputin.Prelude.{Bool, String, List, [], Option, none}
use rasputin.Messages.Unknown.{UnknownFields}
use rasputin.Messages.Mutation.{Mutation}

pub record WatchRes : Type 0 where
  pub success : Option Bool
  pub history : List Mutation
  pub err : Option String
  pub unknown_fields : UnknownFields

abbrev pub new : WatchRes
new = record { success = none; history = []; err = none; unknown_fields = [] }
