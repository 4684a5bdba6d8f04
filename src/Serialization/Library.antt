-- ===== src/Serialization/Library.antt =====
-- What src/server/server.rs and src/client/mod.rs call of the library `protobuf` for a whole
-- message: `write_to_bytes` and `parse_from_bytes`, by the generated code of src/serialization.rs.
use rasputin.Prelude.{◌≡◌, Bytes, Bool, true, none, some, Option, if◌then◌else◌}
use rasputin.Messages.PeerMsg.{PeerMsg}
use rasputin.Messages.PeerMsg
use rasputin.Messages.CliReq.{CliReq}
use rasputin.Messages.CliReq
use rasputin.Messages.CliRes.{CliRes}
use rasputin.Messages.CliRes
use rasputin.Platform.{Wire}
use rasputin.Client.{ClientWire}
use rasputin.Protobuf.{Coding, ProtobufResult, done, failed}
use rasputin.Serialization.PeerMsg.{
  merge_from as merge_peer, write_to_with_cached_sizes as write_peer,
}
use rasputin.Serialization.CliReq.{merge_from as merge_req, write_to_with_cached_sizes as write_req}
use rasputin.Serialization.CliRes.{merge_from as merge_res, write_to_with_cached_sizes as write_res}

-- A message that was read is checked for its required fields.
abbrev pub checked : {M : Type 0} → (M → Bool) → ProtobufResult M → Option M
checked is_initialized (done m) = if is_initialized m then some m else none
checked is_initialized (failed e) = none

-- A message whose required fields are set is written by `write_to_with_cached_sizes`, after
-- `compute_size`; parsing merges the bytes into a message that is new.
pub record WireLaws ⦃C : Coding⦄ (W : Wire) : Type 0 where
  pub encode_peer_lem :
      (m : PeerMsg) → PeerMsg.is_initialized m ≡ true → W.encode_peer m ≡ write_peer m
  pub parse_peer_lem :
      (b : Bytes) → W.parse_peer b ≡ checked PeerMsg.is_initialized (merge_peer PeerMsg.new b)
  pub encode_cli_res_lem :
      (m : CliRes) → CliRes.is_initialized m ≡ true → W.encode_cli_res m ≡ write_res m
  pub parse_cli_req_lem :
      (b : Bytes) → W.parse_cli_req b ≡ checked CliReq.is_initialized (merge_req CliReq.new b)

pub record ClientWireLaws ⦃C : Coding⦄ (W : ClientWire) : Type 0 where
  pub encode_cli_req_lem :
      (m : CliReq) → CliReq.is_initialized m ≡ true → W.encode_cli_req m ≡ write_req m
  pub parse_cli_res_lem :
      (b : Bytes) → W.parse_cli_res b ≡ checked CliRes.is_initialized (merge_res CliRes.new b)
