-- ===== src/Serialization/Commits.antt =====
-- A write that is committed between servers of src/server/server.rs, in the bytes of
-- src/serialization.rs.
pub mod Learning
pub mod Accepting
use rasputin.Prelude.{
  ℕ, ◌+◌, ◌≡◌, ◌≤◌, ◌<◌, ◌∙◌, refl, arith, true, false, some, [], ◌∷◌, ◌++◌, ok, length,
  length-append, contains, nat_key, string_key,
}
use rasputin.BTreeMap.{get, insert, remove}
use rasputin.AckedLog.{
  PeerId, InMemoryLog, Acked, LogEntry, ack_up_to, append_ack, push_ack, take_quorum, learn_entry,
  push_pending, append, commit_up_to, take_up_to,
}
use rasputin.AckedLog
use rasputin.AckedLog.Bounds.{IsValid}
use rasputin.AckedLog.Entries.{get-ack_up_to}
use rasputin.Messages.Mutation
use rasputin.Messages.Mutation.{Mutation, kv_set}
use rasputin.Messages.Append.{Append}
use rasputin.Messages.Append
use rasputin.Messages.PeerMsg.{PeerMsg}
use rasputin.Messages.PeerMsg
use rasputin.Messages.SetRes
use rasputin.Messages.CliRes.{CliRes}
use rasputin.Messages.CliRes
use rasputin.Platform.{TimeOps, Rocks, RocksLaws, Wire, found, write_cli_res, write_peer_msg}
use rasputin.Roles.{Envelope, RepPeer, is_leader, is_following}
use rasputin.Server.{Server, Readings}
use rasputin.Server.Messaging.{reply, send_msg}
use rasputin.Server.Learning.{learn_set, perform, answer, learn_mutation, learn, learn_each}
use rasputin.Server.Replication.{
  mutation_term, mutation_txid, append_to, acknowledge, append_reply, accepted_res, accept_batch,
  accept_append, links, follow_append, handle_append, handle_append_res,
}
use rasputin.Server.Running.{dispatch_peer, handle_peer}
use rasputin.Protobuf.{Coding, CodingLaws}
use rasputin.Serialization.Library.{WireLaws}
use rasputin.Serialization.Delivery.{IsPeerMsg}
use rasputin.Serialization.Elections.{handle_peer-encode_peer}
use rasputin.Serialization.Commits.Learning.{set_response, handle_append_res_commits}
use rasputin.Serialization.Commits.Accepting.{accepting, appended, handle_append_one}

module _ {Db : Type 0} ⦃C : Coding⦄ (coding : CodingLaws C) ⦃T : TimeOps⦄ ⦃R : Rocks Db⦄
    (disk : RocksLaws R) ⦃W : Wire⦄ (wire : WireLaws W) where
  -- A write is committed over the wire: where a leader with a valid log whose only pending entry
  -- is a set that lacks one ack has written an Append with just that entry, a server that follows
  -- it, has nothing pending, links, and has accepted less in no higher term takes the entry and
  -- writes an ack, and by this ack, its first of the entry, the leader, which has learned less,
  -- puts the value in its store, which does not fail, and answers the client that waits with
  -- success under its number, once, as the request waits no more, and both messages have their
  -- required fields, machine words for numbers, no unknown fields, and fewer than 2^32 bytes,
  -- over a coding of values and a parser of the library that take back what they write.
  pub handle_peer_commits :
      (s v : Server Db) (now later : Readings) (asks acks : Envelope) (peer : RepPeer)
      (j req_id : ℕ) (ent : Acked (LogEntry Mutation)) (client : Envelope)
      → IsPeerMsg (append_to s peer (ent.inner.entry ∷ []))
      → IsPeerMsg (accepting v ent.inner.entry)
      → asks.msg ≡ W.encode_peer (append_to s peer (ent.inner.entry ∷ []))
      → acks.msg ≡ W.encode_peer (accepting v ent.inner.entry)
      → is_leader v.state ≡ false
      → is_following v.state s.id ≡ true
      → links v.rep_log (PeerMsg.get_append (append_to s peer (ent.inner.entry ∷ []))) ≡ true
      → v.rep_log.pending ≡ []
      → v.rep_log.last_accepted_term ≤ mutation_term ent.inner.entry
      → v.rep_log.last_accepted_txid < mutation_txid ent.inner.entry
      → s.rep_log.last_learned_txid < mutation_txid ent.inner.entry
      → IsValid s.rep_log
      → is_leader s.state ≡ true
      → get v.id s.rep_peers ≡ some peer
      → s.rep_log.pending ≡ (j, ent) ∷ []
      → contains ent.acks v.id ≡ false
      → length ent.acks + 1 ≡ s.rep_log.quorum
      → Mutation.get_field_type ent.inner.entry ≡ kv_set
      → get j s.pending ≡ some (client, req_id)
      → (handle_peer v now asks
          ≡ ok (
              reply
                (appended v ent.inner.entry)
                asks
                (W.encode_peer (accepting v ent.inner.entry))))
        × (t : Server Db) × (handle_peer s later acks ≡ ok t)
        × (R.read t.db (Mutation.get_key ent.inner.entry)
            ≡ found (Mutation.get_value ent.inner.entry))
        × (t.rpc_tx
            ≡ s.rpc_tx
              ++ record {
                address = client.address;
                tok = client.tok;
                msg = W.encode_cli_res (set_response req_id);
              }
                ∷ [])
        × (t.pending ≡ remove j s.pending)
  unfolding dispatch_peer append_to
  handle_peer_commits s v now later asks acks peer j req_id ent client f g q r led follows linked
        empty term txid low valid leads known e fresh quorum type waits =
      let m : Mutation = ent.inner.entry in
      let (t, ran, stored, answered, removed) =
        handle_append_res_commits disk s v.id peer (mutation_term m) (mutation_txid m) j req_id ent
          client valid leads known e fresh quorum type waits in
      (
        handle_peer-encode_peer coding wire v now asks (append_to s peer (m ∷ [])) f q
            ∙ handle_append_one v asks s.id (PeerMsg.get_append (append_to s peer (m ∷ []))) m led
                follows linked refl empty term txid low,
        t,
        handle_peer-encode_peer coding wire s later acks (accepting v m) g r ∙ ran,
        stored,
        answered,
        removed,
      )
