-- ===== src/Examples/Log.antt =====
-- Runs of src/server/acked_log.rs.
use rasputin.Prelude.{ℕ, ◌≡◌, refl, ◌≤◌, List, [], ◌∷◌, arith, map, length, leb, contains, nat_key}
use rasputin.BTreeMap
use rasputin.AckedLog.{get, append_ack, ack_up_to, commit_up_to}
use rasputin.AckedLog.Bounds.{IsValid}
use rasputin.AckedLog.Entries.{get-ack_up_to}
use rasputin.AckedLog.Quorum.{
  has_quorum, version_of, take_while, drop_while, ack_up_to-take_while, ack_up_to_early,
  length-ack_up_to,
}
use rasputin.AckedLog.Commit.{get-commit_up_to_below, commit_up_to-take_while}
use mathlib.Core.Option
use rasputin.Examples.{log}

log-IsValid : IsValid log
log-IsValid = ground arith

reached_by_ack : (ack_up_to log 5 "b").1 ≡ (2, 5) ∷ []
unfolding ack_up_to contains
reached_by_ack = refl

-- An ack of everything, and only the first entry is counted for it.
reached_by_later_ack : (ack_up_to log 7 "b").1 ≡ (2, 5) ∷ []
unfolding ack_up_to contains
reached_by_later_ack = refl

reached_by_commit : (commit_up_to log 7).1 ≡ (2, 5) ∷ (2, 7) ∷ []
unfolding commit_up_to
reached_by_commit = refl

get-ack_up_to_example : get (ack_up_to log 5 "b").0 5 ≡ get log 5
get-ack_up_to_example = get-ack_up_to log 5 "b" 5 log-IsValid

ack_up_to-take_while_example :
    ((ack_up_to log 5 "b").1
      ≡ map version_of (take_while (has_quorum log) (append_ack "b" log.pending)))
    × ((ack_up_to log 5 "b").0.pending ≡ drop_while (has_quorum log) (append_ack "b" log.pending))
ack_up_to-take_while_example = ack_up_to-take_while log 5 "b"

commit_up_to-take_while_example :
    ((commit_up_to log 6).1 ≡ map version_of (take_while (λ e. leb e.0 6) log.pending))
    × ((commit_up_to log 6).0.pending ≡ drop_while (λ e. leb e.0 6) log.pending)
commit_up_to-take_while_example = commit_up_to-take_while log 6

ack_up_to_early_example :
    (more : List (ℕ × ℕ)) × ((ack_up_to log 4 "b").1 ≡ (2, 5) ∷ more)
    × (5 ≤ (ack_up_to log 4 "b").0.last_learned_txid)
unfolding contains
ack_up_to_early_example = ack_up_to_early log 4 5 "b" _ _ log-IsValid refl (omega arith) refl refl

length-ack_up_to_example : length (ack_up_to log 7 "b").1 ≤ 1
length-ack_up_to_example = length-ack_up_to log 7 5 7 "b" _ _ [] log-IsValid refl (omega arith)

get-commit_up_to_below_example :
    get (commit_up_to log 6).0 5 ≡ Option.map (λ l. l.entry) (BTreeMap.get 5 log.committed)
get-commit_up_to_below_example = get-commit_up_to_below log 6 5 log-IsValid (omega arith)
