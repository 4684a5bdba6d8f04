-- ===== src/Messages/PeerMsg.antt =====
-- src/serialization.rs: the message `PeerMsg` of include/serialization.proto, its accessors.
use rasputin.Prelude.{[], String, Bool, Option, none, some, unwrap_or, is_some}
use rasputin.Messages.Unknown.{UnknownFields}
use rasputin.Messages.Append.{Append}
use rasputin.Messages.Append
use rasputin.Messages.AppendRes.{AppendRes}
use rasputin.Messages.AppendRes
use rasputin.Messages.VoteReq.{VoteReq}
use rasputin.Messages.VoteReq
use rasputin.Messages.VoteRes.{VoteRes}
use rasputin.Messages.VoteRes

pub record PeerMsg : Type 0 where
  pub srvid : Option String
  pub vote_req : Option VoteReq
  pub vote_res : Option VoteRes
  pub append : Option Append
  pub append_res : Option AppendRes
  pub unknown_fields : UnknownFields

abbrev pub new : PeerMsg
new = record {
  srvid = none;
  vote_req = none;
  vote_res = none;
  append = none;
  append_res = none;
  unknown_fields = [];
}

abbrev pub get_srvid : PeerMsg → String
get_srvid m = unwrap_or m.srvid ""

abbrev pub set_srvid : PeerMsg → String → PeerMsg
set_srvid m v = record m { srvid = some v }

abbrev pub get_vote_req : PeerMsg → VoteReq
get_vote_req m = unwrap_or m.vote_req VoteReq.new

abbrev pub has_vote_req : PeerMsg → Bool
has_vote_req m = is_some m.vote_req

abbrev pub set_vote_req : PeerMsg → VoteReq → PeerMsg
set_vote_req m v = record m { vote_req = some v }

abbrev pub get_vote_res : PeerMsg → VoteRes
get_vote_res m = unwrap_or m.vote_res VoteRes.new

abbrev pub has_vote_res : PeerMsg → Bool
has_vote_res m = is_some m.vote_res

abbrev pub set_vote_res : PeerMsg → VoteRes → PeerMsg
set_vote_res m v = record m { vote_res = some v }

abbrev pub get_append : PeerMsg → Append
get_append m = unwrap_or m.append Append.new

abbrev pub has_append : PeerMsg → Bool
has_append m = is_some m.append

abbrev pub set_append : PeerMsg → Append → PeerMsg
set_append m v = record m { append = some v }

abbrev pub get_append_res : PeerMsg → AppendRes
get_append_res m = unwrap_or m.append_res AppendRes.new

abbrev pub has_append_res : PeerMsg → Bool
has_append_res m = is_some m.append_res

abbrev pub set_append_res : PeerMsg → AppendRes → PeerMsg
set_append_res m v = record m { append_res = some v }

-- Every required field is set; nested messages are not looked into.
abbrev pub is_initialized : PeerMsg → Bool
is_initialized m = is_some m.srvid
