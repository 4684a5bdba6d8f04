-- ===== src/Server.antt =====
-- src/server/server.rs: the state of a server. The clock is a sequence of readings, one for each
-- place of a handler that calls `clock.now()`; the ports are not kept, since nothing reads them.
pub mod Messaging
pub mod Invariant
pub mod Learning
pub mod Replication
pub mod Voting
pub mod Clients
pub mod Running
use rasputin.Prelude.{ℕ, String, List, Outcome}
use rasputin.BTreeMap.{BTreeMap}
use rasputin.AckedLog.{PeerId, InMemoryLog}
use rasputin.Messages.Mutation.{Mutation}
use rasputin.Platform.{Timespec}
use rasputin.Roles.{State, Envelope, RepPeer}

-- `rpc_tx` holds what was sent, the oldest first.
pub record Server (Db : Type 0) : Type 0 where
  pub id : PeerId
  pub peers : List String
  pub rep_peers : BTreeMap PeerId RepPeer
  pub rpc_tx : List Envelope
  pub max_generated_txid : ℕ
  pub highest_term : ℕ
  pub state : State
  pub db : Db
  pub rep_log : InMemoryLog Mutation
  pub pending : BTreeMap ℕ (Envelope × ℕ)

-- The `k`-th call of `clock.now()` in the text of a handler reads `now k`.
abbrev pub Readings : Type 0
Readings = ℕ → Timespec
