-- ===== src/Server/Replication/Batches.antt =====
-- The batches that `replicate` of src/server/server.rs cuts from a leader's log, as `handle_append`
-- files them in a follower's.
use rasputin.Prelude.{
  ℕ, zero, suc, ◌+◌, ◌-◌, ◌%◌, ◌^◌, ◌≤◌, ◌<◌, ◌≡◌, refl, ap, ◌∙◌, false, none, some, Returns, arith,
  ltb, leb, eqb_iff, Option-cases, inl, inr,
}
use mathlib.Core.Path.{subst}
use rasputin.AckedLog
use rasputin.AckedLog.{InMemoryLog, push_pending}
use rasputin.AckedLog.Bounds.{append-ok}
use rasputin.AckedLog.Entries.{get-push_pending}
use rasputin.Messages.Mutation.{Mutation}
use rasputin.Server.Replication.{mutation_txid, mutation_term, collect, next_batch, accept_batch}

-- A leader's log has each entry under its own txid, with terms that do not fall.
pub record IsOrdered (log : InMemoryLog Mutation) : Type 0 where
  pub filed : (q : ℕ) (m : Mutation) → AckedLog.get log q ≡ some m → mutation_txid m ≡ q
  pub rising :
      (p q : ℕ) (m n : Mutation)
      → p ≤ q
      → AckedLog.get log p ≡ some m
      → AckedLog.get log q ≡ some n
      → mutation_term m ≤ mutation_term n

-- Two logs have the same entries below `n`.
abbrev pub Agrees : InMemoryLog Mutation → InMemoryLog Mutation → ℕ → Type 0
Agrees follower leader n = (q : ℕ) → q < n → AckedLog.get follower q ≡ AckedLog.get leader q

-- No entry stands at `n` or above it, and none is accepted there.
pub record EndsBelow (log : InMemoryLog Mutation) (n : ℕ) : Type 0 where
  pub nothing : (q : ℕ) → n ≤ q → AckedLog.get log q ≡ none
  pub accepted : log.last_accepted_txid < n

-- The entries of a log from `n` on are of `term` at least.
abbrev pub TermsFrom : InMemoryLog Mutation → ℕ → ℕ → Type 0
TermsFrom log n term =
    (q : ℕ) (m : Mutation) → n ≤ q → AckedLog.get log q ≡ some m → term ≤ mutation_term m

push_pending-EndsBelow :
    (log : InMemoryLog Mutation) (n : ℕ) (m : Mutation)
    → mutation_txid m ≡ n
    → EndsBelow log n
    → EndsBelow (push_pending log (mutation_term m) (mutation_txid m) m) (n + 1)
unfolding push_pending
push_pending-EndsBelow log n m e b = record {
  nothing = λ q h.
      get-push_pending log (mutation_term m) (mutation_txid m) m q
      ∙ ground (arith, eqb_iff (mutation_txid m) q, b.nothing q);
  accepted = omega (arith, e);
}

push_pending-Agrees :
    (follower leader : InMemoryLog Mutation) (n : ℕ) (m : Mutation)
    → mutation_txid m ≡ n
    → AckedLog.get leader n ≡ some m
    → Agrees follower leader n
    → Agrees (push_pending follower (mutation_term m) (mutation_txid m) m) leader (n + 1)
push_pending-Agrees follower leader n m e there a q h =
    get-push_pending follower (mutation_term m) (mutation_txid m) m q
    ∙ ground (arith, eqb_iff (mutation_txid m) q, a q, ap (AckedLog.get leader))

skip_gap :
    (follower leader : InMemoryLog Mutation) (n : ℕ)
    → AckedLog.get leader n ≡ none
    → EndsBelow follower n
    → Agrees follower leader n
    → EndsBelow follower (n + 1) × Agrees follower leader (n + 1)
skip_gap follower leader n gap b a = (
  record { nothing = λ q h. b.nothing q (omega arith); accepted = omega (arith, b.accepted) },
  λ q h. ground (
    arith,
    eqb_iff q n,
    a q,
    b.nothing q,
    gap,
    ap (AckedLog.get follower),
    ap (AckedLog.get leader),
  ),
)

-- `last` is where the batch ends.
accept_batch-collect :
    (count n last sent max_term max_txid : ℕ) (leader follower : InMemoryLog Mutation)
    → last ≡ n + count
    → IsOrdered leader
    → EndsBelow follower n
    → max_txid ≡ follower.last_accepted_txid
    → TermsFrom leader n max_term
    → Agrees follower leader n
    → Returns
        (λ r. EndsBelow r.0 last × Agrees r.0 leader last)
        (accept_batch follower max_term max_txid (collect count n leader sent).0)
unfolding accept_batch collect push_pending
accept_batch-collect zero n last sent max_term max_txid leader follower end o b e t a =
    subst (λ (k : ℕ). EndsBelow follower k × Agrees follower leader k) (omega arith) (b, a)
accept_batch-collect (suc count) n last sent max_term max_txid leader follower end o b e t a =
    elim (Option-cases (AckedLog.get leader n)) [
      | inl gap ↦
          let next = skip_gap follower leader n gap b a in
          rw (gap, collect)
            (accept_batch-collect count (n + 1) last sent max_term max_txid leader follower
              (omega arith) o next.0 e (λ q m h. t q m (omega arith)) next.1)
      | inr (m, there) ↦
          let id : mutation_txid m ≡ n = o.filed n m there in
          let keeps : ltb (mutation_term m) max_term ≡ false =
            ground (arith, t n m (omega arith) there) in
          let fresh : leb (mutation_txid m) max_txid ≡ false = ground (arith, b.accepted) in
          rw
            (
              there,
              collect,
              keeps,
              fresh,
              append-ok follower (mutation_term m) (mutation_txid m) m (omega (arith, b.accepted)),
            )
            (accept_batch-collect count (n + 1) last (mutation_txid m) (mutation_term m)
              (mutation_txid m) leader (push_pending follower (mutation_term m) (mutation_txid m) m)
              (omega arith) o (push_pending-EndsBelow follower n m id b) refl
              (λ q k h at. o.rising n q m k (omega arith) there at)
              (push_pending-Agrees follower leader n m id there a))
    ]

-- A follower whose log ends below the next txid to be sent and has the leader's entries up to
-- there takes the batch that is cut from the leader's log without a panic, and has the leader's
-- entries up to the end of the batch then, where the leader's log has each entry under its own
-- txid, with terms that do not fall and are not below the follower's, and the txid sent last plus
-- 100 is below 2^64.
pub accept_batch-next_batch :
    (leader follower : InMemoryLog Mutation) (max_sent_txid : ℕ)
    → IsOrdered leader
    → max_sent_txid + 100 < 2 ^ 64
    → EndsBelow follower (max_sent_txid + 1)
    → TermsFrom leader (max_sent_txid + 1) follower.last_accepted_term
    → Agrees follower leader (max_sent_txid + 1)
    → Returns
        (λ r. EndsBelow r.0 (max_sent_txid + 100) × Agrees r.0 leader (max_sent_txid + 100))
        (accept_batch follower follower.last_accepted_term follower.last_accepted_txid
          (next_batch leader max_sent_txid).0)
unfolding next_batch
accept_batch-next_batch leader follower k o room b t a =
    let from : (k + 1) % 2 ^ 64 ≡ k + 1 = omega arith in
    let to : (k + 100) % 2 ^ 64 ≡ k + 100 = omega arith in
    rw (from, to)
      (accept_batch-collect (k + 100 - (k + 1)) (k + 1) (k + 100) k follower.last_accepted_term
        follower.last_accepted_txid leader follower (omega arith) o b refl t a)
