-- ===== src/Examples/Commits.antt =====
-- A write that two servers commit over the wire, in a plain coding.
use rasputin.Prelude.{nat_key, string_key, ◌≡◌, refl, arith, contains, some, [], ◌∷◌, ok}
use rasputin.BTreeMap.{get, remove}
use rasputin.AckedLog.{InMemoryLog}
use rasputin.Messages.Mutation.{Mutation}
use rasputin.Platform.{found}
use rasputin.Roles.{Envelope, leader, follower, is_leader, is_following}
use rasputin.Server.{Server}
use rasputin.Server.Messaging.{reply}
use rasputin.Server.Replication.{append_to, links}
use rasputin.Server.Running.{handle_peer}
use rasputin.Protobuf.Sizes.{write_each, size_each}
use rasputin.Serialization.PeerMsg.{write_to_with_cached_sizes as write_peer}
use rasputin.Serialization.Append.{
  write_to_with_cached_sizes as write_append, compute_size as append_size,
}
use rasputin.Serialization.AppendRes.{
  write_to_with_cached_sizes as write_ack, compute_size as ack_size,
}
use rasputin.Serialization.Mutation.{
  write_to_with_cached_sizes as write_mutation, compute_size as mutation_size,
}
use rasputin.Serialization.Version.{
  write_to_with_cached_sizes as write_version, compute_size as version_size,
}
use rasputin.Serialization.Delivery.{IsPeerMsg}
use rasputin.Serialization.Commits.{handle_peer_commits}
use rasputin.Serialization.Commits.Learning.{set_response}
use rasputin.Serialization.Commits.Accepting.{accepting, appended}
use rasputin.Examples.Characters.{codes}
use rasputin.Examples.Coding.{plain, plain_laws}
use rasputin.Examples.Store.{memory_laws}
use rasputin.Examples.Wires.{wire, wire_laws}
use rasputin.Examples.{
  Memory, memory, whole_seconds, acked, put_five, log, in_state, peer_b, still, at,
}

abbrev log_of : InMemoryLog Mutation
log_of = record log { pending = (5, acked ("a" ∷ []) 5 put_five) ∷ []; last_accepted_txid = 5 }

abbrev waiting : Envelope
waiting = record { address = some "d:1"; tok = 1025; msg = [] }

abbrev leads : Server Memory
leads = record (in_state (leader 3 [] 2 (at 100))) {
  rep_peers = ("b", peer_b) ∷ [];
  rep_log = log_of;
  pending = (5, (waiting, 8)) ∷ [];
}

abbrev follows : Server Memory
follows = record (in_state (follower 3 "a" 20 "a:1" (at 100))) {
  id = "b";
  rep_log = record log { pending = []; last_accepted_txid = 4 };
}

append-IsPeerMsg : IsPeerMsg (append_to leads peer_b (put_five ∷ []))
unfolding append_to write_peer write_append append_size write_mutation mutation_size write_version
    version_size write_each size_each codes
append-IsPeerMsg = record {
  set = refl;
  words = (
    tt,
    tt,
    (omega arith, omega arith, (((omega arith, omega arith, refl), refl), tt), omega arith, refl),
    tt,
    refl,
  );
  short = omega arith;
}

ack-IsPeerMsg : IsPeerMsg (accepting follows put_five)
unfolding write_peer write_ack ack_size write_each size_each codes
ack-IsPeerMsg = record {
  set = refl;
  words = (tt, tt, tt, (omega arith, omega arith, refl), refl);
  short = omega arith;
}

abbrev asks : Envelope
asks = record {
  address = some "a:1";
  tok = 20;
  msg = write_peer (append_to leads peer_b (put_five ∷ []));
}

abbrev acks : Envelope
acks = record { address = some "b:1"; tok = 12; msg = write_peer (accepting follows put_five) }

handle_peer_commits_example :
    (handle_peer follows (still 50) asks
      ≡ ok (reply (appended follows put_five) asks (write_peer (accepting follows put_five))))
    × (t : Server Memory) × (handle_peer leads (still 50) acks ≡ ok t)
    × (memory.read t.db (1 ∷ []) ≡ found (50 ∷ []))
    × (t.rpc_tx
        ≡ record { address = some "d:1"; tok = 1025; msg = wire.encode_cli_res (set_response 8) }
          ∷ [])
    × (t.pending ≡ remove 5 leads.pending)
unfolding contains get links append_to is_leader is_following
handle_peer_commits_example =
    handle_peer_commits plain_laws memory_laws wire_laws leads follows (still 50) (still 50) asks
      acks peer_b 5 8 (acked ("a" ∷ []) 5 put_five) waiting append-IsPeerMsg ack-IsPeerMsg refl refl
      refl refl refl refl (omega arith) (omega arith) (omega arith) (omega arith, refl, omega arith)
      refl refl refl refl refl refl refl
