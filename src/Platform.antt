-- ===== src/Platform.antt =====
-- The libraries that the server calls and whose code is elsewhere: the clock type of `time`, the
-- store of `rocksdb`, the wire format of `protobuf`.
use rasputin.Prelude.{ℕ, String, Bytes, Bool, Option, Outcome, ok, panic, if◌then◌else◌, ◌≡◌, ◌≢◌}
use rasputin.Prelude.Int.{ℤ}
use rasputin.Messages.PeerMsg
use rasputin.Messages.PeerMsg.{PeerMsg}
use rasputin.Messages.CliReq.{CliReq}
use rasputin.Messages.CliRes
use rasputin.Messages.CliRes.{CliRes}

-- `time::Timespec`, whose fields are public.
pub record Timespec : Type 0 where
  pub sec : ℤ
  pub nsec : ℤ

-- `<` on `Timespec`, and the sum with a `time::Duration` of whole seconds.
pub record TimeOps : Type 0 where
  pub before : Timespec → Timespec → Bool
  pub plus : Timespec → ℕ → Timespec

-- `rocksdb::DBResult<DBVector, String>`
pub data DbResult : Type 0 where
  found : Bytes → DbResult
  absent : DbResult
  failed : String → DbResult

-- `Result<(), String>`
pub data DbWrite : Type 0 where
  written : DbWrite
  refused : String → DbWrite

-- `DB::get`, `DB::put` and `DB::delete`; a write returns the store as it is afterwards.
pub record Rocks (Db : Type 0) : Type 0 where
  pub read : Db → Bytes → DbResult
  pub put : Db → Bytes → Bytes → DbWrite × Db
  pub delete : Db → Bytes → DbWrite × Db

-- A store on a healthy disk: no operation fails, and a key reads as it was written last.
pub record RocksLaws {Db : Type 0} (R : Rocks Db) : Type 0 where
  pub read-ne-failed : (d : Db) (k : Bytes) (e : String) → R.read d k ≢ failed e
  pub put-written : (d : Db) (k v : Bytes) → (R.put d k v).0 ≡ written
  pub delete-written : (d : Db) (k : Bytes) → (R.delete d k).0 ≡ written
  pub read-put : (d : Db) (k v : Bytes) → R.read (R.put d k v).1 k ≡ found v
  pub read-put_ne : (d : Db) (k j v : Bytes) → j ≢ k → R.read (R.put d k v).1 j ≡ R.read d j
  pub read-delete : (d : Db) (k : Bytes) → R.read (R.delete d k).1 k ≡ absent
  pub read-delete_ne : (d : Db) (k j : Bytes) → j ≢ k → R.read (R.delete d k).1 j ≡ R.read d j

-- `Message::write_to_bytes` of a message that is initialized, and `protobuf::parse_from_bytes`.
pub record Wire : Type 0 where
  pub encode_peer : PeerMsg → Bytes
  pub parse_peer : Bytes → Option PeerMsg
  pub encode_cli_res : CliRes → Bytes
  pub parse_cli_req : Bytes → Option CliReq

module _ ⦃W : Wire⦄ where
  -- `write_to_bytes().unwrap()`: writing fails if a required field is not set.
  unfoldable pub write_peer_msg : PeerMsg → Outcome Bytes
  write_peer_msg m = if PeerMsg.is_initialized m then ok (W.encode_peer m) else panic

  unfoldable pub write_cli_res : CliRes → Outcome Bytes
  write_cli_res m = if CliRes.is_initialized m then ok (W.encode_cli_res m) else panic
