-- ===== src/Examples/Votes.antt =====
-- Votes and refusals of src/server/server.rs over whole runs.
use rasputin.Prelude.{
  ℕ, ◌≡◌, refl, arith, true, none, some, List, [], ◌∷◌, ok, Bytes, Option, contains, nat_key,
}
use rasputin.BTreeMap.{get, insert}
use rasputin.Messages.PeerMsg
use rasputin.Messages.PeerMsg.{PeerMsg}
use rasputin.Messages.VoteRes
use rasputin.Messages.VoteRes.{VoteRes}
use rasputin.Platform.{Wire, write_peer_msg}
use rasputin.Roles.{
  Envelope, RepPeer, leader, candidate, init, valid_leader, valid_candidate, is_leader, term_of,
  should_extend_leadership,
}
use rasputin.Server.{Server, Readings}
use rasputin.Server.Messaging.{peer_broadcast}
use rasputin.Server.Replication.{update_rep_peers}
use rasputin.Server.Voting.{handle_vote_res, cron}
use rasputin.Server.Voting.Winning.{Wins, run-Wins}
use rasputin.Server.Voting.Nacks.{run-nacks}
use rasputin.Server.Voting.Standing.{run-elected}
use rasputin.Server.Voting.Nacks.{requests}
use rasputin.Server.Running.{Input, peer_request, cron_tick, handle_peer, run, started}
use rasputin.Examples.{
  Memory, memory, whole_seconds, one_request, at, still, in_state, following_c, from_b,
}
use rasputin.Examples.Election.{differs}

abbrev ack_in : ℕ → PeerMsg
ack_in term = record PeerMsg.new {
  srvid = some "b";
  vote_res = some (record VoteRes.new { success = some true; term = some term });
}

abbrev parse_ack : Bytes → Option PeerMsg
parse_ack [] = none
parse_ack (b ∷ rest) = some (ack_in b)

-- A wire format of acks, each written as its term.
abbrev acks_only : Wire
acks_only = record {
  encode_peer = λ m. 1 ∷ [];
  parse_peer = parse_ack;
  encode_cli_res = λ m. 2 ∷ [];
  parse_cli_req = λ m. none;
}

abbrev ack_on : ℕ → ℕ → Envelope
ack_on tok term = record { address = some "b:1"; tok = tok; msg = term ∷ [] }

abbrev fresh : Server Memory
fresh = started "a" ("a" ∷ "b" ∷ "c" ∷ []) (λ k. none)

abbrev peer_on : ℕ → RepPeer
peer_on tok = record {
  last_accepted_term = 0;
  last_accepted_txid = 0;
  max_sent_txid = 0;
  tok = tok;
  id = "b";
  addr = some "b:1";
}

-- After the first ack of two, and after the second.
abbrev polled : Server Memory
polled = record fresh {
  highest_term = 1;
  state = candidate 1 (11 ∷ []) 2 (at 62);
  rep_peers = ("b", peer_on 11) ∷ [];
  rpc_tx = record { address = none; tok = 0xffff_ffff_ffff_ffff; msg = 1 ∷ [] } ∷ [];
}

abbrev won : Server Memory
won = record polled { state = leader 1 [] 2 (at 62); rep_peers = ("b", peer_on 12) ∷ [] }

abbrev first_half : List (Readings × Input)
first_half = (still 50, cron_tick) ∷ (still 51, peer_request (ack_on 11 1)) ∷ []

run-Wins_example :
    (env : Envelope) × (msg : PeerMsg) × (peer_request (ack_on 12 1) ≡ peer_request env)
    × (parse_ack env.msg ≡ some msg)
    × (PeerMsg.has_vote_res msg ≡ true)
    × Wins ("a" ∷ "b" ∷ "c" ∷ []) polled won (at 52) env (PeerMsg.get_vote_res msg)
unfolding run started handle_peer handle_vote_res cron valid_leader valid_candidate term_of
    is_leader contains should_extend_leadership update_rep_peers get insert write_peer_msg
    peer_broadcast
run-Wins_example =
    run-Wins ⦃W = acks_only⦄ "a" ("a" ∷ "b" ∷ "c" ∷ []) (λ k. none) first_half polled won (still 52)
      (peer_request (ack_on 12 1)) (omega arith) refl refl refl refl (λ h. h)

run-nacks_example :
    run following_c (requests ((still 50, from_b) ∷ (still 51, from_b) ∷ []))
    ≡ ok (record following_c {
      rpc_tx =
          record { address = some "b:1"; tok = 12; msg = 1 ∷ [] }
          ∷ record { address = some "b:1"; tok = 12; msg = 1 ∷ [] }
          ∷ [];
    })
run-nacks_example =
    run-nacks following_c ((still 50, from_b) ∷ (still 51, from_b) ∷ []) 3 (at 100) (
      (_, refl, refl, refl, differs "b" "a" refl, (refl, refl, differs "b" "c" refl), refl),
      ((_, refl, refl, refl, differs "b" "a" refl, (refl, refl, differs "b" "c" refl), refl), tt),
    )

run-elected_example :
    (t : Server Memory) × (run ⦃W = acks_only⦄
        (in_state init)
        ((still 50, cron_tick) ∷ requests ((still 51, ack_on 11 4) ∷ (still 52, ack_on 12 4) ∷ []))
      ≡ ok t)
    × (t.state ≡ leader 4 [] 2 (at 62))
    × (t.rpc_tx ≡ record { address = none; tok = 0xffff_ffff_ffff_ffff; msg = 1 ∷ [] } ∷ [])
unfolding valid_leader valid_candidate
run-elected_example =
    run-elected ⦃W = acks_only⦄ (in_state init) (still 50) (at 62)
      ((still 51, ack_on 11 4) ∷ (still 52, ack_on 12 4) ∷ []) refl refl refl refl (omega arith)
      (omega arith) refl
      (
        ("b:1", _, refl, refl, refl, refl, refl, tt, refl, refl),
        (("b:1", _, refl, refl, refl, refl, refl, ((λ e. ground arith), tt), refl, refl), tt),
      )
