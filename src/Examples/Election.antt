-- ===== src/Examples/Election.antt =====
-- Elections of src/server/server.rs among three servers.
use rasputin.Prelude.{
  ◌≡◌, ◌≢◌, ◌≤◌, ◌<◌, ◌↔◌, ◌⊎◌, refl, arith, true, false, some, [], ◌∷◌, ok, contains, ◌==◌,
  nat_key, string_key, String,
}
use rasputin.Messages.VoteReq
use rasputin.Messages.VoteRes
use rasputin.Messages.VoteRes.{VoteRes}
use rasputin.Roles.{leader, follower, valid_leader, valid_candidate, term_of}
use rasputin.Server.{Server}
use rasputin.Server.Messaging.{reply}
use rasputin.BTreeMap.{get, insert}
use rasputin.Server.Replication.{update_rep_peers}
use rasputin.Server.Voting.{should_grant_vote, handle_vote_req, handle_vote_res}
use rasputin.Server.Voting.Leases.{
  should_grant_vote_iff, highest-handle_vote_res, handle_vote_req_again,
}
use rasputin.Server.Invariant.{Inv}
use rasputin.Examples.{
  Memory, whole_seconds, one_request, at, still, in_state, standing, following_c, from_b, vote_req,
}

abbrev ack : VoteRes
ack = record VoteRes.new { success = some true; term = some 3 }

-- What the candidate is after the second ack.
abbrev elected : Server Memory
elected = record standing {
  state = leader 3 [] 2 (at 100);
  rep_peers =
      (
        "b",
        record {
          last_accepted_term = 2;
          last_accepted_txid = 7;
          max_sent_txid = 7;
          tok = 12;
          id = "b";
          addr = some "b:1";
        },
      )
      ∷ [];
}

standing-Inv : Inv standing
standing-Inv = record { log_valid = ground arith; generated = refl; current = refl }

following_c-Inv : Inv following_c
following_c-Inv = record { log_valid = ground arith; generated = refl; current = refl }

pub differs : (a b : String) → (a == b) ≡ false → a ≢ b
differs a b h = ground (arith, string_key.beq_iff a b)

should_grant_vote_iff_example : (should_grant_vote following_c (at 101) vote_req ≡ true) ↔ (
    (valid_leader following_c.state (at 101) ≡ false)
    × (2 ≤ 3)
    × ((2 < 2) ⊎ ((VoteReq.get_last_learned_term vote_req ≡ 2) × (7 ≤ 7))))
should_grant_vote_iff_example = should_grant_vote_iff following_c (at 101) vote_req

highest-handle_vote_res_example : elected.highest_term ≡ standing.highest_term
unfolding handle_vote_res term_of valid_candidate contains update_rep_peers get insert
highest-handle_vote_res_example =
    highest-handle_vote_res standing elected (still 50) from_b "b" ack standing-Inv refl

handle_vote_req_again_example :
    handle_vote_req following_c (still 101) from_b "b" vote_req
    ≡ ok (reply (in_state (follower 3 "b" 12 "b:1" (at 113))) from_b (1 ∷ []))
handle_vote_req_again_example =
    handle_vote_req_again following_c (still 101) from_b "b" "c" vote_req 3 13 "b:1" "c:1" (at 100)
      refl refl refl (differs "b" "a" refl) (differs "b" "c" refl) refl refl (omega arith) refl
      (omega arith)
