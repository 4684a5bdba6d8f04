-- ===== src/Serialization/Commits/Learning.antt =====
-- A leader of src/server/server.rs learns its pending entry by an ack.
use rasputin.Prelude.{
  ℕ, ◌+◌, ◌≡◌, ◌∙◌, refl, arith, true, false, some, [], ◌∷◌, ◌++◌, ok, length, length-append,
  contains, nat_key, string_key,
}
use rasputin.BTreeMap.{get, insert, remove}
use rasputin.AckedLog.{
  PeerId, InMemoryLog, Acked, LogEntry, ack_up_to, append_ack, push_ack, take_quorum, learn_entry,
  push_pending, append, commit_up_to, take_up_to,
}
use rasputin.AckedLog
use rasputin.AckedLog.Bounds.{IsValid}
use rasputin.AckedLog.Entries.{get-ack_up_to}
use rasputin.Messages.Mutation
use rasputin.Messages.Mutation.{Mutation, kv_set}
use rasputin.Messages.SetRes
use rasputin.Messages.CliRes.{CliRes}
use rasputin.Messages.CliRes
use rasputin.Platform.{Rocks, RocksLaws, Wire, found, write_cli_res}
use rasputin.Roles.{Envelope, RepPeer, is_leader}
use rasputin.Server.{Server}
use rasputin.Server.Messaging.{reply, send_msg}
use rasputin.Server.Learning.{learn_set, perform, answer, learn_mutation, learn, learn_each}
use rasputin.Server.Replication.{acknowledge, accepted_res, handle_append_res}

module _ {ℓ} {T : Type ℓ} where
  ack_one :
      (log : InMemoryLog T) (txid j : ℕ) (peer : PeerId) (ent : Acked (LogEntry T))
      → IsValid log
      → log.pending ≡ (j, ent) ∷ []
      → contains ent.acks peer ≡ false
      → length ent.acks + 1 ≡ log.quorum
      → ((ack_up_to log txid peer).1 ≡ (ent.inner.term, j) ∷ [])
        × (AckedLog.get (ack_up_to log txid peer).0 j ≡ some ent.inner.entry)
  unfolding ack_up_to append_ack push_ack take_quorum AckedLog.get get
  ack_one log txid j peer ent v e c q = (
    ground (arith, length-append ent.acks (peer ∷ [])),
    get-ack_up_to log txid peer j v ∙ ground arith,
  )

-- The response to a write that is learned.
abbrev pub set_response : ℕ → CliRes
set_response req_id =
    CliRes.set_req_id (CliRes.set_set CliRes.new (SetRes.set_success SetRes.new true)) req_id

module _ {Db : Type 0} ⦃R : Rocks Db⦄ (disk : RocksLaws R) ⦃W : Wire⦄ where
  learn_set_one :
      (s : Server Db) (term j req_id : ℕ) (m : Mutation) (client : Envelope)
      → AckedLog.get s.rep_log j ≡ some m
      → Mutation.get_field_type m ≡ kv_set
      → get j s.pending ≡ some (client, req_id)
      → learn_each s ((term, j) ∷ [])
        ≡ ok (
            reply
              (record s {
                db = (R.put s.db (Mutation.get_key m) (Mutation.get_value m)).1;
                pending = remove j s.pending;
              })
              client
              (W.encode_cli_res (set_response req_id)))
  unfolding learn_each learn learn_mutation perform learn_set answer write_cli_res
  learn_set_one s term j req_id m client e t p =
      rw (e, t, p, disk.put-written s.db (Mutation.get_key m) (Mutation.get_value m)) refl

  -- On a leader with a valid log.
  pub handle_append_res_commits :
      (s : Server Db) (id : PeerId) (peer : RepPeer) (term txid j req_id : ℕ)
      (ent : Acked (LogEntry Mutation)) (client : Envelope)
      → IsValid s.rep_log
      → is_leader s.state ≡ true
      → get id s.rep_peers ≡ some peer
      → s.rep_log.pending ≡ (j, ent) ∷ []
      → contains ent.acks id ≡ false
      → length ent.acks + 1 ≡ s.rep_log.quorum
      → Mutation.get_field_type ent.inner.entry ≡ kv_set
      → get j s.pending ≡ some (client, req_id)
      → (t : Server Db) × (handle_append_res s id (accepted_res true term txid) ≡ ok t)
        × (R.read t.db (Mutation.get_key ent.inner.entry)
            ≡ found (Mutation.get_value ent.inner.entry))
        × (t.rpc_tx
            ≡ s.rpc_tx
              ++ record {
                address = client.address;
                tok = client.tok;
                msg = W.encode_cli_res (set_response req_id);
              }
                ∷ [])
        × (t.pending ≡ remove j s.pending)
  unfolding handle_append_res reply send_msg
  handle_append_res_commits s id peer term txid j req_id ent client v leads known e fresh quorum
        type waits =
      let acked = ack_up_to s.rep_log txid id in
      let one = ack_one s.rep_log txid j id ent v e fresh quorum in
      let s' : Server Db = record s {
        rep_peers = insert id (acknowledge peer (accepted_res true term txid)) s.rep_peers;
        rep_log = acked.0;
      } in
      let m = ent.inner.entry in
      let learned = learn_set_one s' ent.inner.term j req_id m client one.1 type waits in
      (
        reply
            (record s' {
              db = (R.put s.db (Mutation.get_key m) (Mutation.get_value m)).1;
              pending = remove j s.pending;
            })
            client (W.encode_cli_res (set_response req_id)),
        rw (leads, known, one.0) learned,
        disk.read-put s.db (Mutation.get_key m) (Mutation.get_value m),
        refl,
        refl,
      )
