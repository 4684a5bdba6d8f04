-- ===== src/AckedLog/Bounds.antt =====
-- The order of the pending entries of src/server/acked_log.rs, between what is learned and what
-- is accepted.
use rasputin.Prelude.{ℕ, ◌≤◌, ◌<◌, ◌≡◌, refl, [], ◌∷◌, ok, arith, nat_key}
use rasputin.BTreeMap.{BTreeMap, insert}
use rasputin.AckedLog.{
  LogEntry, Acked, InMemoryLog, PeerId, append, push_pending, append_ack, push_ack, learn_entry,
  take_quorum, ack_up_to, take_up_to, commit_up_to,
}

module _ {ℓ} {T : Type ℓ} where
  -- The keys rise from above `lo` up to `hi` at most, and each is the txid of its entry.
  abbrev pub Within : ℕ → ℕ → BTreeMap ℕ (Acked (LogEntry T)) → Type 0
  Within lo hi [] = lo ≤ hi
  Within lo hi ((j, ent) ∷ m) = (lo < j) × (ent.inner.txid ≡ j) × Within j hi m

  -- What is pending lies above what is learned and within what is accepted, in order.
  abbrev pub IsValid : InMemoryLog T → Type 0
  IsValid log = Within log.last_learned_txid log.last_accepted_txid log.pending

  pub Within-le : (lo hi : ℕ) (m : BTreeMap ℕ (Acked (LogEntry T))) → Within lo hi m → lo ≤ hi
  Within-le lo hi [] w = w
  Within-le lo hi ((j, ent) ∷ m) w = omega (arith, Within-le j hi m w.2)

  Within-insert :
      (lo hi t : ℕ) (ent : Acked (LogEntry T)) (m : BTreeMap ℕ (Acked (LogEntry T)))
      → Within lo hi m
      → hi < t
      → ent.inner.txid ≡ t
      → Within lo t (insert t ent m)
  unfolding insert
  Within-insert lo hi t ent [] w h e = ground arith
  Within-insert lo hi t ent ((j, x) ∷ m) w h e =
      ground (arith, Within-le j hi m w.2, Within-insert j hi t ent m w.2 h e)

  pub Within-append_ack :
      (peer : PeerId) (lo hi : ℕ) (m : BTreeMap ℕ (Acked (LogEntry T)))
      → Within lo hi m
      → Within lo hi (append_ack peer m)
  unfolding append_ack push_ack
  Within-append_ack peer lo hi [] w = w
  Within-append_ack peer lo hi ((j, ent) ∷ m) w = ground (arith, Within-append_ack peer j hi m w.2)

  pub append-ok :
      (log : InMemoryLog T) (term txid : ℕ) (entry : T)
      → log.last_accepted_txid < txid
      → append log term txid entry ≡ ok (push_pending log term txid entry)
  unfolding append
  append-ok log term txid entry h = ground arith

  -- What `append` does past its assertion keeps a valid log valid, for a txid above the last
  -- accepted one.
  pub push_pending-IsValid :
      (log : InMemoryLog T) (term txid : ℕ) (entry : T)
      → IsValid log
      → log.last_accepted_txid < txid
      → IsValid (push_pending log term txid entry)
  unfolding push_pending
  push_pending-IsValid log term txid entry v h =
      Within-insert log.last_learned_txid log.last_accepted_txid txid _ log.pending v h refl

  -- A valid log stays valid under the loop of `ack_up_to`, which accepts nothing.
  pub take_quorum-IsValid :
      (m : BTreeMap ℕ (Acked (LogEntry T))) (log : InMemoryLog T)
      → Within log.last_learned_txid log.last_accepted_txid m
      → IsValid (take_quorum m log).0
        × ((take_quorum m log).0.last_accepted_txid ≡ log.last_accepted_txid)
        × (log.last_learned_txid ≤ (take_quorum m log).0.last_learned_txid)
  unfolding take_quorum
  take_quorum-IsValid [] log w = ground arith
  take_quorum-IsValid ((j, ent) ∷ m) log w =
      ground (arith, take_quorum-IsValid m (learn_entry log j ent.inner))

  take_up_to-IsValid :
      (t : ℕ) (m : BTreeMap ℕ (Acked (LogEntry T))) (log : InMemoryLog T)
      → Within log.last_learned_txid log.last_accepted_txid m
      → IsValid (take_up_to t m log).0
        × ((take_up_to t m log).0.last_accepted_txid ≡ log.last_accepted_txid)
        × (log.last_learned_txid ≤ (take_up_to t m log).0.last_learned_txid)
  unfolding take_up_to
  take_up_to-IsValid t [] log w = ground arith
  take_up_to-IsValid t ((j, ent) ∷ m) log w =
      ground (arith, take_up_to-IsValid t m (learn_entry log t ent.inner))

  -- ack_up_to keeps a valid log valid, accepts nothing, and never takes back what is learned.
  pub ack_up_to-IsValid :
      (log : InMemoryLog T) (txid : ℕ) (peer : PeerId)
      → IsValid log
      → IsValid (ack_up_to log txid peer).0
        × ((ack_up_to log txid peer).0.last_accepted_txid ≡ log.last_accepted_txid)
        × (log.last_learned_txid ≤ (ack_up_to log txid peer).0.last_learned_txid)
  unfolding ack_up_to
  ack_up_to-IsValid log txid peer v =
      take_quorum-IsValid (append_ack peer log.pending) log (Within-append_ack peer _ _ _ v)

  -- commit_up_to keeps a valid log valid, accepts nothing, and never takes back what is learned.
  pub commit_up_to-IsValid :
      (log : InMemoryLog T) (txid : ℕ)
      → IsValid log
      → IsValid (commit_up_to log txid).0
        × ((commit_up_to log txid).0.last_accepted_txid ≡ log.last_accepted_txid)
        × (log.last_learned_txid ≤ (commit_up_to log txid).0.last_learned_txid)
  unfolding commit_up_to
  commit_up_to-IsValid log txid v = take_up_to-IsValid txid log.pending log v
