-- ===== src/AckedLog/Quorum.antt =====
-- Which entries `ack_up_to` of src/server/acked_log.rs learns.
use rasputin.Prelude.{
  ℕ, ◌+◌, ◌≤◌, ◌<◌, ◌≡◌, refl, Bool, false, List, [], ◌∷◌, map, arith, leb, length, length-append,
  contains, if◌then◌else◌, nat_key, string_key,
}
use rasputin.BTreeMap.{BTreeMap}
use rasputin.AckedLog.{
  LogEntry, Acked, InMemoryLog, PeerId, append_ack, push_ack, learn_entry, take_quorum, ack_up_to,
}
use rasputin.AckedLog.Bounds.{IsValid, take_quorum-IsValid}

module _ {ℓ} {T : Type ℓ} where
  -- An entry has reached its quorum.
  abbrev pub has_quorum : InMemoryLog T → ℕ × Acked (LogEntry T) → Bool
  has_quorum log (txid, ent) = leb log.quorum (length ent.acks)

  abbrev pub version_of : ℕ × Acked (LogEntry T) → ℕ × ℕ
  version_of (txid, ent) = (ent.inner.term, ent.inner.txid)

module _ {ℓ} {A : Type ℓ} (p : A → Bool) where
  -- The longest front part of a list whose elements all pass.
  unfoldable pub take_while : List A → List A
  take_while [] = []
  take_while (x ∷ xs) = if p x then x ∷ take_while xs else []

  unfoldable pub drop_while : List A → List A
  drop_while [] = []
  drop_while (x ∷ xs) = if p x then drop_while xs else x ∷ xs

module _ {ℓ} {T : Type ℓ} where
  take_quorum-take_while :
      (m : BTreeMap ℕ (Acked (LogEntry T))) (log base : InMemoryLog T)
      → log.quorum ≡ base.quorum
      → ((take_quorum m log).1 ≡ map version_of (take_while (has_quorum base) m))
        × ((take_quorum m log).0.pending ≡ drop_while (has_quorum base) m)
  unfolding take_quorum learn_entry take_while drop_while
  take_quorum-take_while [] log base h = (refl, refl)
  take_quorum-take_while ((j, ent) ∷ m) log base h =
      ground (arith, take_quorum-take_while m (learn_entry log j ent.inner) base)

  -- ack_up_to learns the longest front part of the pending entries that have their quorum, with
  -- the new ack counted, in order, and leaves the others pending.
  pub ack_up_to-take_while :
      (log : InMemoryLog T) (txid : ℕ) (peer : PeerId)
      → let m = append_ack peer log.pending in
        ((ack_up_to log txid peer).1 ≡ map version_of (take_while (has_quorum log) m))
        × ((ack_up_to log txid peer).0.pending ≡ drop_while (has_quorum log) m)
  unfolding ack_up_to
  ack_up_to-take_while log txid peer =
      take_quorum-take_while (append_ack peer log.pending) log log refl

  -- On a valid log the first pending entry is learned by the ack of a new peer that would
  -- complete its quorum also where the ack names a txid below the entry.
  pub ack_up_to_early :
      (log : InMemoryLog T) (txid j : ℕ) (peer : PeerId) (ent : Acked (LogEntry T))
      (rest : BTreeMap ℕ (Acked (LogEntry T)))
      → IsValid log
      → log.pending ≡ (j, ent) ∷ rest
      → txid < j
      → contains ent.acks peer ≡ false
      → length ent.acks + 1 ≡ log.quorum
      → (more : List (ℕ × ℕ)) × ((ack_up_to log txid peer).1 ≡ (ent.inner.term, j) ∷ more)
        × (j ≤ (ack_up_to log txid peer).0.last_learned_txid)
  unfolding ack_up_to append_ack push_ack take_quorum
  ack_up_to_early log txid j peer ent rest v e h c q = (
    (take_quorum rest (learn_entry log j ent.inner)).1,
    ground (arith, length-append ent.acks (peer ∷ [])),
    ground (
      arith,
      length-append ent.acks (peer ∷ []),
      take_quorum-IsValid rest (learn_entry log j ent.inner),
    ),
  )

  -- On a valid log one call of ack_up_to learns at most one entry if the second pending one lacks
  -- its quorum, also where the ack names a txid that covers both.
  pub length-ack_up_to :
      (log : InMemoryLog T) (txid j k : ℕ) (peer : PeerId) (ent next : Acked (LogEntry T))
      (rest : BTreeMap ℕ (Acked (LogEntry T)))
      → IsValid log
      → log.pending ≡ (j, ent) ∷ (k, next) ∷ rest
      → length next.acks < log.quorum
      → length (ack_up_to log txid peer).1 ≤ 1
  unfolding ack_up_to append_ack push_ack take_quorum learn_entry
  length-ack_up_to log txid j k peer ent next rest v e h = ground arith
