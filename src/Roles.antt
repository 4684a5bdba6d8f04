-- ===== src/Roles.antt =====
-- src/server/mod.rs: the constants, the envelopes, the replication peers, and the state of a
-- server in the election.
use rasputin.Prelude.{
  ℕ, String, Bytes, Bool, true, false, not, ◌&&◌, Option, none, some, List, ltb, length, ◌==◌,
  string_key,
}
use rasputin.Platform.{Timespec, TimeOps}
use rasputin.AckedLog.{PeerId}

-- An address by its text, which is all that is read of it.
abbrev pub SocketAddr : Type 0
SocketAddr = String

abbrev pub Token : Type 0
Token = ℕ

abbrev pub server_clients : Token
server_clients = 0

abbrev pub server_peers : Token
server_peers = 1

-- `usize::MAX`
abbrev pub peer_broadcast_token : Token
peer_broadcast_token = 0xffff_ffff_ffff_ffff

-- In seconds.
abbrev pub leader_duration : ℕ
leader_duration = 12

abbrev pub leader_refresh : ℕ
leader_refresh = 6

pub record Envelope : Type 0 where
  pub address : Option SocketAddr
  pub tok : Token
  pub msg : Bytes

pub record RepPeer : Type 0 where
  pub last_accepted_term : ℕ
  pub last_accepted_txid : ℕ
  pub max_sent_txid : ℕ
  pub tok : Token
  pub id : PeerId
  pub addr : Option SocketAddr

-- The arguments: term, have, need, until; term, id, tok, leader_addr, until.
pub data State : Type 0 where
  leader : ℕ → List Token → ℕ → Timespec → State
  candidate : ℕ → List Token → ℕ → Timespec → State
  follower : ℕ → PeerId → Token → SocketAddr → Timespec → State
  init : State

module _ ⦃T : TimeOps⦄ where
  unfoldable pub valid_leader : State → Timespec → Bool
  valid_leader (leader term have need until) now = T.before now until
  valid_leader (follower term id tok leader_addr until) now = T.before now until
  valid_leader _ now = false

  unfoldable pub valid_candidate : State → Timespec → Bool
  valid_candidate (candidate term have need until) now = T.before now until
  valid_candidate _ now = false

  unfoldable pub should_extend_leadership : State → Timespec → Bool
  should_extend_leadership (leader term have need until) now =
      not (T.before (T.plus now leader_refresh) until) && T.before now until
  should_extend_leadership _ now = false

unfoldable pub is_leader : State → Bool
is_leader (leader term have need until) = true
is_leader _ = false

unfoldable pub is_follower : State → Bool
is_follower (follower term id tok leader_addr until) = true
is_follower _ = false

unfoldable pub is_candidate : State → Bool
is_candidate (candidate term have need until) = true
is_candidate _ = false

unfoldable pub is_following : State → PeerId → Bool
is_following (follower term lid tok leader_addr until) id = lid == id
is_following _ id = false

unfoldable pub following : State → PeerId → Bool
following (follower term fid tok leader_addr until) id = id == fid
following _ id = false

unfoldable pub can_extend_lead : State → Bool
can_extend_lead (candidate term have need until) = ltb need (length have)
can_extend_lead (leader term have need until) = ltb need (length have)
can_extend_lead _ = false

unfoldable pub until_of : State → Option Timespec
until_of (leader term have need until) = some until
until_of (candidate term have need until) = some until
until_of (follower term id tok leader_addr until) = some until
until_of init = none

unfoldable pub term_of : State → Option ℕ
term_of (leader term have need until) = some term
term_of (candidate term have need until) = some term
term_of (follower term id tok leader_addr until) = some term
term_of init = none
