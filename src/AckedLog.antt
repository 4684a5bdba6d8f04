-- ===== src/AckedLog.antt =====
-- src/server/acked_log.rs: the replication log `InMemoryLog` and its operations.
pub mod Bounds
pub mod Entries
pub mod Quorum
pub mod Commit
pub mod View
use rasputin.Prelude.{
  ℕ, String, ◌+◌, Bool, true, false, Option, none, some, List, [], ◌∷◌, ◌++◌, Outcome, ok, panic,
  assert, ◌>>=◌, ◌>>◌, ltb, leb, if◌then◌else◌, length, or, contains, nat_key, string_key,
}
use rasputin.BTreeMap.{BTreeMap, insert}
use rasputin.BTreeMap
use mathlib.Core.Option

abbrev pub PeerId : Type 0
PeerId = String

pub record LogEntry {ℓ} (T : Type ℓ) : Type ℓ where
  pub txid : ℕ
  pub term : ℕ
  pub last_txid : ℕ
  pub last_term : ℕ
  pub entry : T

pub record Acked {ℓ} (T : Type ℓ) : Type ℓ where
  pub acks : List PeerId
  pub inner : T

pub record InMemoryLog {ℓ} (T : Type ℓ) : Type ℓ where
  pub pending : BTreeMap ℕ (Acked (LogEntry T))
  pub committed : BTreeMap ℕ (LogEntry T)
  pub quorum : ℕ
  pub last_learned_txid : ℕ
  pub last_learned_term : ℕ
  pub last_accepted_txid : ℕ
  pub last_accepted_term : ℕ

module _ {ℓ} {T : Type ℓ} where
  -- The statements of `append` after its assertion.
  unfoldable pub push_pending : InMemoryLog T → ℕ → ℕ → T → InMemoryLog T
  push_pending log term txid entry =
      let inner : LogEntry T = record {
        txid = txid;
        term = term;
        last_txid = log.last_accepted_txid;
        last_term = log.last_accepted_term;
        entry = entry;
      } in
      record log {
        pending = insert txid (record { acks = []; inner = inner }) log.pending;
        last_accepted_txid = txid;
        last_accepted_term = term;
      }

  unfoldable pub append : InMemoryLog T → ℕ → ℕ → T → Outcome (InMemoryLog T)
  append log term txid entry = do
    assert (ltb log.last_accepted_txid txid)
    ok (push_pending log term txid entry)

  unfoldable pub get : InMemoryLog T → ℕ → Option T
  get log txid =
      or (Option.map (λ al. al.inner.entry) (BTreeMap.get txid log.pending))
        (Option.map (λ l. l.entry) (BTreeMap.get txid log.committed))

  unfoldable pub push_ack : PeerId → Acked (LogEntry T) → Acked (LogEntry T)
  push_ack peer ent =
      if contains ent.acks peer then ent else record ent { acks = ent.acks ++ peer ∷ [] }

  -- The `for` loop of `ack_up_to`. Its `txid` is the key that it iterates over, which shadows the
  -- argument, and the `break` ends it at the first entry whose `inner.txid` is at most its key.
  unfoldable pub append_ack :
      PeerId → BTreeMap ℕ (Acked (LogEntry T)) → BTreeMap ℕ (Acked (LogEntry T))
  unfolding push_ack
  append_ack peer [] = []
  append_ack peer ((txid, ent) ∷ rest) =
      if leb ent.inner.txid txid
      then (txid, push_ack peer ent) ∷ rest
      else (txid, ent) ∷ append_ack peer rest

  -- What both loops do with an entry that they take off `pending`: the new log, the entry
  -- committed under `key`.
  unfoldable pub learn_entry : InMemoryLog T → ℕ → LogEntry T → InMemoryLog T
  learn_entry log key inner = record log {
    last_learned_term = inner.term;
    last_learned_txid = inner.txid;
    committed = insert key inner log.committed;
  }

  -- The `loop` of `ack_up_to`, over the entries of `pending` from the first key on.
  unfoldable pub take_quorum :
      BTreeMap ℕ (Acked (LogEntry T)) → InMemoryLog T → InMemoryLog T × List (ℕ × ℕ)
  unfolding learn_entry
  take_quorum [] log = (record log { pending = [] }, [])
  take_quorum ((txid, ent) ∷ rest) log =
      let (log', reached) = take_quorum rest (learn_entry log txid ent.inner) in
      if ltb (length ent.acks) log.quorum
      then (record log { pending = (txid, ent) ∷ rest }, [])
      else (log', (ent.inner.term, ent.inner.txid) ∷ reached)

  -- The argument `txid` is read nowhere, as in the source.
  unfoldable pub ack_up_to : InMemoryLog T → ℕ → PeerId → InMemoryLog T × List (ℕ × ℕ)
  unfolding append_ack take_quorum
  ack_up_to log txid peer = take_quorum (append_ack peer log.pending) log

  -- The `loop` of `commit_up_to`: each entry is committed under the key `txid`, the argument.
  unfoldable pub take_up_to :
      ℕ → BTreeMap ℕ (Acked (LogEntry T)) → InMemoryLog T → InMemoryLog T × List (ℕ × ℕ)
  unfolding learn_entry
  take_up_to txid [] log = (record log { pending = [] }, [])
  take_up_to txid ((next_txid, ent) ∷ rest) log =
      let (log', reached) = take_up_to txid rest (learn_entry log txid ent.inner) in
      if ltb txid next_txid
      then (record log { pending = (next_txid, ent) ∷ rest }, [])
      else (log', (ent.inner.term, ent.inner.txid) ∷ reached)

  unfoldable pub commit_up_to : InMemoryLog T → ℕ → InMemoryLog T × List (ℕ × ℕ)
  unfolding take_up_to
  commit_up_to log txid = take_up_to txid log.pending log
