-- ===== src/Examples/Elections.antt =====
-- A candidate that is elected over the wire, in a plain coding.
use rasputin.Prelude.{contains, ◌≡◌, refl, arith, true, some, [], ◌∷◌, ok}
use rasputin.Messages.PeerMsg
use rasputin.Roles.{Envelope, leader, init, valid_leader, following}
use rasputin.Server.{Server}
use rasputin.Server.Messaging.{reply}
use rasputin.Server.Voting.{should_grant_vote, become_follower, vote_reply, vote_request}
use rasputin.Server.Running.{handle_peer}
use rasputin.Protobuf.Sizes.{write_each, size_each}
use rasputin.Serialization.PeerMsg.{write_to_with_cached_sizes as write_peer}
use rasputin.Serialization.VoteReq.{
  write_to_with_cached_sizes as write_vote, compute_size as vote_size,
}
use rasputin.Serialization.VoteRes.{
  write_to_with_cached_sizes as write_ack, compute_size as ack_size,
}
use rasputin.Serialization.Delivery.{IsPeerMsg}
use rasputin.Serialization.Elections.{handle_peer_elects}
use rasputin.Examples.Election.{differs}
use rasputin.Examples.Characters.{codes}
use rasputin.Examples.Coding.{plain, plain_laws}
use rasputin.Examples.Wires.{wire, wire_laws}
use rasputin.Examples.{Memory, memory, whole_seconds, in_state, standing, still, at}

abbrev voter : Server Memory
voter = record (in_state init) { id = "b" }

request-IsPeerMsg : IsPeerMsg (vote_request standing 3)
unfolding write_peer write_vote vote_size write_each size_each codes
request-IsPeerMsg = record {
  set = refl;
  words =
      ((omega arith, omega arith, omega arith, omega arith, omega arith, refl), tt, tt, tt, refl);
  short = omega arith;
}

ack-IsPeerMsg : IsPeerMsg (vote_reply voter 3 true)
unfolding write_peer write_ack ack_size write_each size_each codes
ack-IsPeerMsg = record {
  set = refl;
  words = (tt, (omega arith, refl), tt, tt, refl);
  short = omega arith;
}

abbrev asks : Envelope
asks = record { address = some "a:1"; tok = 20; msg = write_peer (vote_request standing 3) }

abbrev acks : Envelope
acks = record { address = some "b:1"; tok = 12; msg = write_peer (vote_reply voter 3 true) }

handle_peer_elects_example :
    (handle_peer voter (still 50) asks
      ≡ ok (
          reply
            (become_follower voter
              (at 50)
              asks
              "a"
              (PeerMsg.get_vote_req (vote_request standing 3))
              "a:1")
            asks
            (write_peer (vote_reply voter 3 true))))
    × (t : Server Memory) × (handle_peer standing (still 50) acks ≡ ok t)
    × (t.state ≡ leader 3 [] 2 (at 100))
unfolding valid_leader following should_grant_vote contains
handle_peer_elects_example =
    handle_peer_elects plain_laws wire_laws standing voter (still 50) (still 50) asks acks 3 2
      (11 ∷ []) (at 100) "a:1" "b:1" refl request-IsPeerMsg ack-IsPeerMsg refl refl refl refl
      (differs "a" "b" refl) refl refl refl refl refl refl (omega arith)
