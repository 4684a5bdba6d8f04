-- ===== src/Examples/Store.antt =====
-- Runs of `learn` of src/server/server.rs on a store in memory.
use rasputin.Prelude.{
  Bytes, ◌≡◌, ◌≢◌, refl, arith, some, none, [], ◌∷◌, false, Returns, bytes_eq_iff, Option-cases,
  inl, inr,
}
use rasputin.Messages.CasReq
use rasputin.Messages.Mutation.{Mutation, kv_cas}
use rasputin.Messages.CasReq.{CasReq}
use rasputin.Messages.CasRes
use rasputin.Platform.{RocksLaws, failed}
use rasputin.Server.Learning.{learn_cas, learn_each}
use rasputin.Server.Learning.Store.{view, apply_each, learn_each-view}
use rasputin.Server.Clients.{cas_mutation}
use rasputin.Server.Clients.Requests.{learn_cas-cas_mutation_absent}
use rasputin.Examples.{Memory, memory, one_request, leading, log, mutation}

result-ne-failed : (d : Memory) (k : Bytes) (e : _) → memory.read d k ≢ failed e
result-ne-failed d k e h = elim (Option-cases (d k)) [
  | inl e1 ↦ ground arith
  | inr (v, e1) ↦ ground arith
]

pub memory_laws : RocksLaws memory
memory_laws = record {
  read-ne-failed = result-ne-failed;
  put-written = λ d k v. refl;
  delete-written = λ d k. refl;
  read-put = λ d k v. ground (arith, bytes_eq_iff k k);
  read-put_ne = λ d k j v h. ground (arith, bytes_eq_iff k j);
  read-delete = λ d k. ground (arith, bytes_eq_iff k k);
  read-delete_ne = λ d k j h. ground (arith, bytes_eq_iff k j);
}

abbrev swap : Mutation
swap = record (mutation kv_cas 5 (1 ∷ []) (60 ∷ [])) { old_value = some (9 ∷ []) }

abbrev cas_req : CasReq
cas_req = record CasReq.new { key = some (1 ∷ []); old_value = none; new_value = some (3 ∷ []) }

abbrev empty : Memory
empty k = none

learn_each-view_example :
    Returns
      (λ t. view t.db ≡ apply_each log ((2, 5) ∷ (2, 7) ∷ []) (view leading.db))
      (learn_each leading ((2, 5) ∷ (2, 7) ∷ []))
learn_each-view_example = learn_each-view memory_laws leading ((2, 5) ∷ (2, 7) ∷ [])

learn_cas-cas_mutation_absent_example :
    ((learn_cas empty (cas_mutation 8 3 cas_req) 8).1 ≡ empty)
    × (CasRes.get_success (learn_cas empty (cas_mutation 8 3 cas_req) 8).0 ≡ false)
learn_cas-cas_mutation_absent_example = learn_cas-cas_mutation_absent empty 8 3 8 cas_req refl
