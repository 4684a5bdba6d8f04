-- ===== src/Examples/Serving.antt =====
-- Requests and appends to a server of src/server/server.rs.
use rasputin.Prelude.{
  ◌≡◌, ◌≤◌, refl, arith, true, false, some, List, [], ◌∷◌, ok, contains, nat_key, string_key,
  Returns, Keeps,
}
use rasputin.Messages.AppendRes
use rasputin.BTreeMap.{get}
use rasputin.Messages.Mutation.{Mutation, kv_set}
use rasputin.Messages.Append
use rasputin.Messages.Append.{Append}
use rasputin.Messages.AppendRes.{AppendRes}
use rasputin.Messages.GetRes
use rasputin.Messages.CliRes
use rasputin.Messages.CliRes.{CliRes}
use rasputin.Roles.{
  is_leader, is_following, valid_leader, valid_candidate, following, term_of,
  should_extend_leadership,
}
use rasputin.Server.{Server, Readings}
use rasputin.Server.Messaging.{reply, peer_broadcast}
use rasputin.Platform.{write_peer_msg, write_cli_res}
use rasputin.Server.Replication.{links, handle_append, handle_append_res}
use rasputin.Server.Replication.Acks.{handle_append_res_nack, handle_append_skips}
use rasputin.Server.Clients.{handle_cli}
use rasputin.Server.Voting.{handle_vote_req, cron}
use rasputin.Server.Clients.Requests.{handle_cli_reads_expired}
use rasputin.Server.Running.{
  Input, peer_request, cli_request, cron_tick, run, started, handle_peer, handle,
}
use rasputin.Server.Invariant.{Inv}
use rasputin.Server.Invariant.Liveness.{AreServable, run-Returns}
use rasputin.Server.Invariant.Running.{run-started-Inv}
use rasputin.Examples.{
  Memory, memory, whole_seconds, one_request, at, still, leading, following_c, from_b, get_req, log,
  acked, put_five, mutation,
}

leading-Inv : Inv leading
leading-Inv = record { log_valid = ground arith; generated = refl; current = refl }

followed-Inv : Inv following_c
followed-Inv = record { log_valid = ground arith; generated = refl; current = refl }

abbrev inputs : List (Readings × Input)
inputs =
    (still 50, peer_request from_b) ∷ (still 51, cli_request from_b) ∷ (still 120, cron_tick) ∷ []

abbrev refusal : AppendRes
refusal = record AppendRes.new {
  accepted = some false;
  last_accepted_txid = some 4;
  last_accepted_term = some 2;
}

abbrev put_eight : Mutation
put_eight = mutation kv_set 8 (2 ∷ []) (80 ∷ [])

-- A follower with one pending entry.
abbrev behind : Server Memory
behind = record following_c { rep_log = record log { pending = (5, acked [] 5 put_five) ∷ [] } }

abbrev learn_to_seven : Append
learn_to_seven = record Append.new {
  from_txid = some 7;
  from_term = some 2;
  last_learned_txid = some 7;
}

-- One mutation after the last accepted one.
abbrev append_eight : Append
append_eight = record learn_to_seven { batch = put_eight ∷ [] }

behind-Inv : Inv behind
behind-Inv = record { log_valid = ground arith; generated = refl; current = refl }

-- The inputs do not make the server panic.
run-inputs : Returns (λ s. s.highest_term ≡ 4) (run following_c inputs)
unfolding run handle_vote_req handle_cli cron valid_leader valid_candidate following term_of
    should_extend_leadership is_leader handle_peer write_peer_msg reply write_cli_res peer_broadcast
run-inputs = refl

inputs-AreServable : AreServable following_c inputs
unfolding handle handle_vote_req handle_cli cron valid_leader valid_candidate following term_of
    should_extend_leadership is_leader handle_peer write_peer_msg reply write_cli_res peer_broadcast
inputs-AreServable = ((_, "b:1", refl, refl, tt), ((get_req, refl, omega arith), (tt, tt)))

run-Returns_example : Returns Inv (run following_c inputs)
run-Returns_example = run-Returns following_c inputs followed-Inv inputs-AreServable

run-started-Inv_example : Keeps Inv (run (started "a" ("a" ∷ "b" ∷ []) behind.db) inputs)
run-started-Inv_example = run-started-Inv "a" ("a" ∷ "b" ∷ []) behind.db inputs

handle_append_res_nack_example :
    (t : Server Memory) × (handle_append_res leading "b" refusal ≡ ok t)
    × (5 ≤ t.rep_log.last_learned_txid)
unfolding is_leader get contains
handle_append_res_nack_example =
    handle_append_res_nack leading "b" refusal _ 5 _ _ leading-Inv.log_valid refl refl refl refl
      (omega arith) refl refl

handle_append_skips_example :
    (t : Server Memory) × (handle_append behind from_b "c" learn_to_seven ≡ ok t)
    × (t.rep_log.last_learned_txid ≡ 5)
    × (t.rep_log.pending ≡ [])
    × (t.db ≡ behind.db)
    × (t.rpc_tx ≡ record { address = some "b:1"; tok = 12; msg = 1 ∷ [] } ∷ [])
unfolding is_leader is_following links get
handle_append_skips_example =
    handle_append_skips behind from_b "c" learn_to_seven 5 (acked [] 5 put_five) (ground arith) refl
      refl refl refl refl (omega arith) refl

handle_cli_reads_expired_example :
    (valid_leader leading.state (at 101) ≡ false)
    × (res : CliRes) × (handle_cli leading from_b ≡ ok (reply leading from_b (2 ∷ [])))
    × (GetRes.get_success (CliRes.get_get res) ≡ true)
    × (GetRes.get_value (CliRes.get_get res) ≡ 9 ∷ [])
    × (GetRes.get_txid (CliRes.get_get res) ≡ 4)
handle_cli_reads_expired_example =
    handle_cli_reads_expired leading from_b get_req (at 101) (at 100) 3 2 [] (9 ∷ []) refl refl refl
      refl refl
