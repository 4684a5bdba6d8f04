-- ===== src/Examples/Batches.antt =====
-- A leader's log of src/server/acked_log.rs with one entry, sent to a follower.
use rasputin.Prelude.{
  ℕ, ◌≡◌, ◌∙◌, sym, refl, arith, eqb, eqb_iff, none, some, [], Returns, if◌then◌else◌, ap, nat_key,
}
use rasputin.Messages.Version
use rasputin.BTreeMap
use rasputin.AckedLog
use rasputin.AckedLog.{InMemoryLog, push_pending}
use rasputin.AckedLog.Entries.{get-push_pending}
use rasputin.Messages.Mutation
use rasputin.Messages.Mutation.{Mutation}
use rasputin.Server.Replication.{next_batch, accept_batch, mutation_txid, mutation_term}
use rasputin.Server.Replication.Batches.{IsOrdered, EndsBelow, Agrees, accept_batch-next_batch}

abbrev write : Mutation
write = Mutation.set_version Mutation.new (record Version.new { txid = some 6; term = some 2 })

abbrev bare : InMemoryLog Mutation
bare = record {
  pending = [];
  committed = [];
  quorum = 2;
  last_learned_txid = 5;
  last_learned_term = 1;
  last_accepted_txid = 5;
  last_accepted_term = 1;
}

abbrev full : InMemoryLog Mutation
full = push_pending bare 2 6 write

get-bare : (q : ℕ) → AckedLog.get bare q ≡ none
unfolding AckedLog.get BTreeMap.get
get-bare q = refl

get-full : (q : ℕ) → AckedLog.get full q ≡ (if eqb 6 q then some write else none)
get-full q = rw (get-push_pending bare 2 6 write q, get-bare q) refl

only : (q : ℕ) (m : Mutation) → AckedLog.get full q ≡ some m → (q ≡ 6) × (m ≡ write)
only q m e = ground (arith, get-full q, eqb_iff 6 q)

full-IsOrdered : IsOrdered full
full-IsOrdered = record {
  filed = λ q m e. ap mutation_txid (only q m e).1 ∙ sym (only q m e).0;
  rising = λ p q m n h e f.
      omega (arith, ap mutation_term (only p m e).1, ap mutation_term (only q n f).1);
}

accept_batch-next_batch_example :
    Returns
      (λ r. EndsBelow r.0 105 × Agrees r.0 full 105)
      (accept_batch bare 1 5 (next_batch full 5).0)
accept_batch-next_batch_example =
    accept_batch-next_batch full bare 5 full-IsOrdered (omega arith)
      (record { nothing = λ q h. get-bare q; accepted = omega arith })
      (λ q m h e. omega (arith, ap mutation_term (only q m e).1))
      (λ q h. rw (get-bare q, get-full q) (ground (arith, eqb_iff 6 q)))
