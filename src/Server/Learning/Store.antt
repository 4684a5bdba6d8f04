-- ===== src/Server/Learning/Store.antt =====
-- `learn` of src/server/server.rs against a key-value store as a function from keys to values.
use rasputin.Prelude.{
  ℕ, String, Bytes, ◌≡◌, ◌≢◌, ◌∙◌, refl, ap, arith, List, [], ◌∷◌, Bool, not, ◌&&◌, Option, none,
  some, Returns, Returns-bind, Returns-map, Returns-both, if◌then◌else◌, bytes_eq, bytes_eq_iff,
  nat_key,
}
use mathlib.Core.Path.{fun_ext}
use rasputin.BTreeMap.{get, remove}
use rasputin.AckedLog
use rasputin.AckedLog.{InMemoryLog}
use rasputin.Messages.Mutation
use rasputin.Messages.Mutation.{Mutation, MutationType, kv_set, kv_cas, kv_del}
use rasputin.Messages.CasRes
use rasputin.Messages.CliRes.{CliRes}
use rasputin.Platform.{DbResult, found, absent, failed, Rocks, RocksLaws, Wire, write_cli_res}
use rasputin.Roles.{Envelope}
use rasputin.Server.{Server}
use rasputin.Server.Messaging.{reply}
use rasputin.Server.Learning.{
  learn_set, compare_and_swap, learn_cas, learn_del, perform, answer, learn_mutation, learn,
  learn_each,
}
use rasputin.Server.Learning.Frame.{Frame, learn_mutation-Frame}

-- The abstract store.
abbrev pub Store : Type 0
Store = Bytes → Option Bytes

abbrev pub value_of : DbResult → Option Bytes
value_of (found v) = some v
value_of _ = none

-- The compare of a compare-and-swap: the old value is the one named, or neither is there.
abbrev pub compares : Mutation → Option Bytes → Bool
compares m (some old) = Mutation.has_old_value m && bytes_eq old (Mutation.get_old_value m)
compares m none = not (Mutation.has_old_value m)

-- What a mutation means.
unfoldable pub apply : MutationType → Mutation → Store → Store
apply kv_set m st k = if bytes_eq (Mutation.get_key m) k then some (Mutation.get_value m) else st k
apply kv_cas m st k =
    if bytes_eq (Mutation.get_key m) k && compares m (st (Mutation.get_key m))
    then some (Mutation.get_value m)
    else st k
apply kv_del m st k = if bytes_eq (Mutation.get_key m) k then none else st k

-- A txid that the log lacks counts for nothing.
unfoldable pub apply_at : Option Mutation → Store → Store
apply_at none st = st
apply_at (some m) st = apply (Mutation.get_field_type m) m st

-- The mutations of a log that are learned one after the other.
unfoldable pub apply_each : InMemoryLog Mutation → List (ℕ × ℕ) → Store → Store
apply_each log [] st = st
apply_each log ((term, txid) ∷ rest) st = apply_each log rest (apply_at (AckedLog.get log txid) st)

module _ {Db : Type 0} ⦃R : Rocks Db⦄ where
  abbrev pub view : Db → Store
  view db k = value_of (R.read db k)

  module _ (laws : RocksLaws R) where
    view-put :
        (db : Db) (j v k : Bytes)
        → view (R.put db j v).1 k ≡ (if bytes_eq j k then some v else view db k)
    view-put db j v k =
        ground (arith, bytes_eq_iff j k, laws.read-put db j v, laws.read-put_ne db j k v)

    view-delete :
        (db : Db) (j k : Bytes)
        → view (R.delete db j).1 k ≡ (if bytes_eq j k then none else view db k)
    view-delete db j k =
        ground (arith, bytes_eq_iff j k, laws.read-delete db j, laws.read-delete_ne db j k)

    view-compare_and_swap :
        (db : Db) (m : Mutation) (r : DbResult) (k : Bytes)
        → ((e : String) → r ≢ failed e)
        → (view (compare_and_swap db m r).1 k ≡ (
            if compares m (value_of r)
            then view (R.put db (Mutation.get_key m) (Mutation.get_value m)).1 k
            else view db k))
          × (CasRes.get_success (compare_and_swap db m r).0 ≡ compares m (value_of r))
    unfolding compare_and_swap
    view-compare_and_swap db m (found old) k healthy =
        ground (arith, laws.put-written db (Mutation.get_key m) (Mutation.get_value m))
    view-compare_and_swap db m absent k healthy =
        ground (arith, laws.put-written db (Mutation.get_key m) (Mutation.get_value m))
    view-compare_and_swap db m (failed e) k healthy = absurd (healthy e refl)

    -- On a store that does not fail, performing a mutation of any kind does to the abstract store
    -- what the mutation means.
    view-perform :
        (db : Db) (m : Mutation) (n : ℕ) (type : MutationType) (k : Bytes)
        → view (perform db m n type).1 k ≡ apply type m (view db) k
    unfolding perform apply learn_set learn_cas learn_del
    view-perform db m n kv_set k = view-put db (Mutation.get_key m) (Mutation.get_value m) k
    view-perform db m n kv_del k = view-delete db (Mutation.get_key m) k
    view-perform db m n kv_cas k =
        let key = Mutation.get_key m in
        ground (
          arith,
          view-compare_and_swap db m (R.read db key) k (laws.read-ne-failed db key),
          view-put db key (Mutation.get_value m) k,
        )

    -- On a store that does not fail, the reply to a compare-and-swap reports success exactly if
    -- the stored value compared.
    pub success-learn_cas :
        (db : Db) (m : Mutation) (n : ℕ)
        → CasRes.get_success (learn_cas db m n).0 ≡ compares m (view db (Mutation.get_key m))
    unfolding learn_cas
    success-learn_cas db m n =
        (view-compare_and_swap db m (R.read db (Mutation.get_key m)) []
          (laws.read-ne-failed db (Mutation.get_key m))).1

module _ {Db : Type 0} ⦃R : Rocks Db⦄ ⦃W : Wire⦄ (laws : RocksLaws R) where
  answer-view :
      (s : Server Db) (res : CliRes) (o : Option (Envelope × ℕ))
      → Returns (λ t. t.db ≡ s.db) (answer s res o)
  unfolding answer write_cli_res reply
  answer-view s res none = refl
  answer-view s res (some (env, req_id)) = refl

  -- The store after a learned mutation, or after a txid that the log lacks.
  learn_mutation-view :
      (s : Server Db) (txid : ℕ) (o : Option Mutation)
      → Returns (λ t. view t.db ≡ apply_at o (view s.db)) (learn_mutation s txid o)
  unfolding learn_mutation apply_at
  learn_mutation-view s txid none = refl
  learn_mutation-view s txid (some m) =
      let type = Mutation.get_field_type m in
      let done = perform s.db m s.rep_log.last_learned_txid type in
      Returns-map (λ (t : Server Db). t.db ≡ done.1)
        (λ (t : Server Db). view t.db ≡ apply type m (view s.db)) _
        (answer-view (record s { db = done.1; pending = remove txid s.pending }) done.0
          (get txid s.pending))
        λ t e.
          ap (λ (d : Db). view d) e
          ∙ fun_ext (view-perform laws s.db m s.rep_log.last_learned_txid type)

  -- On a store that does not fail, learning never panics and applies the mutations of the learned
  -- txids to the abstract store in order, each as what it means.
  pub learn_each-view :
      (s : Server Db) (l : List (ℕ × ℕ))
      → Returns (λ t. view t.db ≡ apply_each s.rep_log l (view s.db)) (learn_each s l)
  unfolding learn_each learn apply_each
  learn_each-view s [] = refl
  learn_each-view s ((term, txid) ∷ rest) =
      let o = AckedLog.get s.rep_log txid in
      Returns-bind (λ t. Frame s t × (view t.db ≡ apply_at o (view s.db)))
        (λ u. view u.db ≡ apply_each s.rep_log ((term, txid) ∷ rest) (view s.db))
        (learn s term txid) _
        (Returns-both _ _ _ (learn_mutation-Frame s txid o) (learn_mutation-view s txid o))
        λ t step.
          Returns-map (λ u. view u.db ≡ apply_each t.rep_log rest (view t.db)) _ _
            (learn_each-view t rest) λ u e. e ∙ λ i. apply_each (step.0.rep_log i) rest (step.1 i)
