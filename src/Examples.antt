-- ===== src/Examples.antt =====
-- Concrete logs, stores, clocks and servers for the examples of the child modules.
mod Characters
mod Coding
mod Shrinking
mod Log
mod Store
mod Election
mod Votes
mod Serving
mod Streams
mod Slabs
mod Connections
mod Wires
mod Elections
mod Commits
mod Batches
mod Broadcasts
use rasputin.Prelude.{
  ℕ, ◌+◌, Bytes, Bool, Option, none, some, List, [], ◌∷◌, ltb, if◌then◌else◌, bytes_eq,
}
use rasputin.Prelude.Int.{ℤ, pos, negsuc}
use rasputin.AckedLog.{PeerId, LogEntry, Acked, InMemoryLog}
use rasputin.Messages.Version
use rasputin.Messages.Mutation
use rasputin.Messages.Mutation.{Mutation, MutationType, kv_set, kv_cas}
use rasputin.Messages.VoteReq
use rasputin.Messages.VoteReq.{VoteReq}
use rasputin.Messages.PeerMsg
use rasputin.Messages.PeerMsg.{PeerMsg}
use rasputin.Messages.GetReq
use rasputin.Messages.CliReq
use rasputin.Messages.CliReq.{CliReq}
use rasputin.Platform.{Timespec, TimeOps, DbResult, found, absent, DbWrite, written, Rocks, Wire}
use rasputin.Roles.{Envelope, RepPeer, State, leader, candidate, follower, init}
use rasputin.Server.{Server, Readings}

-- A store in memory.
abbrev pub Memory : Type 0
Memory = Bytes → Option Bytes

abbrev result_of : Option Bytes → DbResult
result_of none = absent
result_of (some v) = found v

instance abbrev pub memory : Rocks Memory
memory = record {
  read = λ d k. result_of (d k);
  put = λ d k v. (written, λ j. if bytes_eq k j then some v else d j);
  delete = λ d k. (written, λ j. if bytes_eq k j then none else d j);
}

abbrev pub seconds : Timespec → ℕ
seconds t = elim t.sec [ pos n ↦ n | negsuc n ↦ 0 ]

abbrev pub at : ℕ → Timespec
at n = record { sec = pos n; nsec = pos 0 }

-- A clock of whole seconds from the epoch on.
instance abbrev pub whole_seconds : TimeOps
whole_seconds = record {
  before = λ a b. ltb (seconds a) (seconds b);
  plus = λ a n. at (seconds a + n);
}

abbrev pub vote_req : VoteReq
vote_req =
    VoteReq.set_last_accepted_txid
      (VoteReq.set_last_learned_term (VoteReq.set_term VoteReq.new 3) 2) 7

abbrev asks_vote : PeerMsg
asks_vote = PeerMsg.set_vote_req (PeerMsg.set_srvid PeerMsg.new "b") vote_req

abbrev pub get_req : CliReq
get_req = record CliReq.new {
  req_id = some 8;
  get = some (record GetReq.new { key = some (1 ∷ []) });
}

abbrev pub set_req : CliReq
set_req = record CliReq.new { req_id = some 9 }

abbrev parse_peer : Bytes → Option PeerMsg
parse_peer [] = none
parse_peer (b ∷ rest) = some asks_vote

abbrev parse_cli_req : Bytes → Option CliReq
parse_cli_req [] = none
parse_cli_req (b ∷ rest) = some get_req

-- A wire format that knows one request of each kind.
instance abbrev pub one_request : Wire
one_request = record {
  encode_peer = λ m. 1 ∷ [];
  parse_peer = parse_peer;
  encode_cli_res = λ m. 2 ∷ [];
  parse_cli_req = parse_cli_req;
}

abbrev pub mutation : MutationType → ℕ → Bytes → Bytes → Mutation
mutation type txid key value = record Mutation.new {
  field_type = some type;
  version = some (record Version.new { txid = some txid; term = some 2 });
  key = some key;
  value = some value;
}

abbrev pub put_five : Mutation
put_five = mutation kv_set 5 (1 ∷ []) (50 ∷ [])

abbrev pub put_seven : Mutation
put_seven = mutation kv_set 7 (1 ∷ []) (70 ∷ [])

abbrev pub acked : List PeerId → ℕ → Mutation → Acked (LogEntry Mutation)
acked acks txid m = record {
  acks = acks;
  inner = record { txid = txid; term = 2; last_txid = 4; last_term = 2; entry = m };
}

-- Two entries are pending, the first with one ack of the two that it needs.
abbrev pub log : InMemoryLog Mutation
log = record {
  pending = (5, acked ("a" ∷ []) 5 put_five) ∷ (7, acked [] 7 put_seven) ∷ [];
  committed = [];
  quorum = 2;
  last_learned_txid = 4;
  last_learned_term = 2;
  last_accepted_txid = 7;
  last_accepted_term = 2;
}

abbrev pub in_state : State → Server Memory
in_state state = record {
  id = "a";
  peers = "a" ∷ "b" ∷ "c" ∷ [];
  rep_peers = [];
  rpc_tx = [];
  max_generated_txid = 7;
  highest_term = 3;
  state = state;
  db = λ k. some (9 ∷ []);
  rep_log = log;
  pending = [];
}

abbrev pub peer_b : RepPeer
peer_b = record {
  last_accepted_term = 2;
  last_accepted_txid = 4;
  max_sent_txid = 4;
  tok = 12;
  id = "b";
  addr = some "b:1";
}

abbrev pub leading : Server Memory
leading = record (in_state (leader 3 [] 2 (at 100))) { rep_peers = ("b", peer_b) ∷ [] }

abbrev pub standing : Server Memory
standing = in_state (candidate 3 (11 ∷ []) 2 (at 100))

abbrev pub following_c : Server Memory
following_c = in_state (follower 3 "c" 13 "c:1" (at 100))

-- Every reading of a handler is the same.
abbrev pub still : ℕ → Readings
still n k = at n

abbrev pub from_b : Envelope
from_b = record { address = some "b:1"; tok = 12; msg = 1 ∷ [] }
