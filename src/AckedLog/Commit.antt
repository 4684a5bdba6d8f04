-- ===== src/AckedLog/Commit.antt =====
-- What a follower can read after `commit_up_to` of src/server/acked_log.rs, which commits every
-- entry that it takes under one key, its argument.
use rasputin.Prelude.{
  ℕ, ◌<◌, ◌≡◌, refl, ap, ◌∙◌, [], ◌∷◌, arith, map, ltb, leb, Bool-cases, inl, inr, nat_key,
}
use mathlib.Core.Option
use rasputin.BTreeMap.{BTreeMap, get-insert, get-insert_ne}
use rasputin.BTreeMap
use rasputin.AckedLog.{LogEntry, Acked, InMemoryLog, get, learn_entry, take_up_to, commit_up_to}
use rasputin.AckedLog.Bounds.{Within, IsValid}
use rasputin.AckedLog.Entries.{get-Within}
use rasputin.AckedLog.Quorum.{take_while, drop_while, version_of}

module _ {ℓ} {T : Type ℓ} where
  take_up_to_above :
      (t : ℕ) (m : BTreeMap ℕ (Acked (LogEntry T))) (log : InMemoryLog T) (q : ℕ)
      → t < q
      → get (take_up_to t m log).0 q ≡ get (record log { pending = m }) q
  unfolding take_up_to get learn_entry BTreeMap.get
  take_up_to_above t [] log q h = refl
  take_up_to_above t ((j, ent) ∷ m) log q h = ground (
    arith,
    take_up_to_above t m (learn_entry log t ent.inner) q h,
    get-insert q t ent.inner log.committed,
  )

  -- Above its argument commit_up_to changes no entry that get reads.
  get-commit_up_to_above :
      (log : InMemoryLog T) (txid q : ℕ) → txid < q → get (commit_up_to log txid).0 q ≡ get log q
  unfolding commit_up_to
  get-commit_up_to_above log txid q h = take_up_to_above txid log.pending log q h

  take_up_to_below :
      (t lo hi : ℕ) (m : BTreeMap ℕ (Acked (LogEntry T))) (log : InMemoryLog T) (q : ℕ)
      → Within lo hi m
      → q < t
      → get (take_up_to t m log).0 q ≡ Option.map (λ l. l.entry) (BTreeMap.get q log.committed)
  unfolding take_up_to get learn_entry BTreeMap.get
  take_up_to_below t lo hi [] log q w h = refl
  take_up_to_below t lo hi ((j, ent) ∷ m) log q w h = elim (Bool-cases (ltb t j)) [
    | inl stop ↦ rw (stop, get-Within j hi q m w.2 (ground arith)) (ground arith)
    | inr go ↦ rw go (
        take_up_to_below t j hi m (learn_entry log t ent.inner) q w.2 h
        ∙ ap (Option.map (λ l. l.entry)) (get-insert_ne q t ent.inner log.committed (omega arith)))
  ]

  -- On a valid log, below its argument commit_up_to leaves only what was committed before: the
  -- entries that it has just learned there can no longer be read.
  pub get-commit_up_to_below :
      (log : InMemoryLog T) (txid q : ℕ)
      → IsValid log
      → q < txid
      → get (commit_up_to log txid).0 q ≡ Option.map (λ l. l.entry) (BTreeMap.get q log.committed)
  unfolding commit_up_to
  get-commit_up_to_below log txid q v h = take_up_to_below txid _ _ log.pending log q v h

  take_up_to-take_while :
      (t : ℕ) (m : BTreeMap ℕ (Acked (LogEntry T))) (log : InMemoryLog T)
      → ((take_up_to t m log).1 ≡ map version_of (take_while (λ e. leb e.0 t) m))
        × ((take_up_to t m log).0.pending ≡ drop_while (λ e. leb e.0 t) m)
  unfolding take_up_to take_while drop_while
  take_up_to-take_while t [] log = (refl, refl)
  take_up_to-take_while t ((j, ent) ∷ m) log =
      ground (arith, take_up_to-take_while t m (learn_entry log t ent.inner))

  -- commit_up_to learns the pending entries up to its argument, in order, and leaves the others
  -- pending.
  pub commit_up_to-take_while :
      (log : InMemoryLog T) (txid : ℕ)
      → ((commit_up_to log txid).1 ≡ map version_of (take_while (λ e. leb e.0 txid) log.pending))
        × ((commit_up_to log txid).0.pending ≡ drop_while (λ e. leb e.0 txid) log.pending)
  unfolding commit_up_to
  commit_up_to-take_while log txid = take_up_to-take_while txid log.pending log
