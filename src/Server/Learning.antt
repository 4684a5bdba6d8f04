-- ===== src/Server/Learning.antt =====
-- src/server/server.rs: `learn`, which applies a mutation to the store and answers the client.
pub mod Frame
pub mod Store
use rasputin.Prelude.{
  ℕ, String, Bytes, true, false, not, ◌&&◌, Option, none, some, List, [], ◌∷◌, Outcome, ok, ◌>>=◌,
  if◌then◌else◌, bytes_eq, nat_key,
}
use Prim.Native.String.{◌++◌ as ◌+++◌}
use rasputin.BTreeMap.{get, remove}
use rasputin.AckedLog
use rasputin.Messages.Mutation
use rasputin.Messages.Mutation.{Mutation, MutationType, kv_set, kv_cas, kv_del}
use rasputin.Messages.SetRes
use rasputin.Messages.SetRes.{SetRes}
use rasputin.Messages.CasRes
use rasputin.Messages.CasRes.{CasRes}
use rasputin.Messages.DelRes
use rasputin.Messages.DelRes.{DelRes}
use rasputin.Messages.CliRes
use rasputin.Messages.CliRes.{CliRes}
use rasputin.Platform.{
  DbResult, found, absent, failed, DbWrite, written, refused, Rocks, Wire, write_cli_res,
}
use rasputin.Roles.{Envelope}
use rasputin.Server.{Server}
use rasputin.Server.Messaging.{reply}

abbrev pub operational_problem : String
operational_problem = "Operational problem encountered"

abbrev pub compare_failure : String
compare_failure = "compare failure"

-- `format!("Operational problem encountered: {}", e)`
abbrev pub problem_with : String → String
problem_with e = ◌+++◌ "Operational problem encountered: " e

abbrev set_reply : DbWrite → SetRes
set_reply written = SetRes.set_success SetRes.new true
set_reply (refused e) = SetRes.set_err (SetRes.set_success SetRes.new false) operational_problem

abbrev cas_won : Mutation → CasRes
cas_won m = CasRes.set_value (CasRes.set_success CasRes.new true) (Mutation.get_value m)

abbrev cas_lost : String → CasRes
cas_lost err = CasRes.set_err (CasRes.set_success CasRes.new false) err

abbrev del_reply : DelRes → DbWrite → DelRes
del_reply res written = DelRes.set_success res true
del_reply res (refused e) = DelRes.set_err (DelRes.set_success res false) (problem_with e)

-- The value that the arm `MutationType::KVDEL` returns.
unfoldable pub old_value_of : DbResult → DelRes
old_value_of (found old) = DelRes.set_value DelRes.new old
old_value_of _ = DelRes.new

module _ {Db : Type 0} where
  -- The inner `match` of the arm `MutationType::KVCAS` where a value is there.
  unfoldable pub swap_found : Mutation → Bytes → DbWrite × Db → CasRes × Db
  swap_found m old (written, db') = (cas_won m, db')
  swap_found m old (refused e, db') = (CasRes.set_value (cas_lost operational_problem) old, db')

  -- The same where none is there.
  unfoldable pub swap_absent : Mutation → DbWrite × Db → CasRes × Db
  swap_absent m (written, db') = (cas_won m, db')
  swap_absent m (refused e, db') = (cas_lost (problem_with e), db')

module _ {Db : Type 0} ⦃R : Rocks Db⦄ where
  -- The arm `MutationType::KVSET`.
  unfoldable pub learn_set : Db → Mutation → SetRes × Db
  learn_set db m =
      let (wrote, db') = R.put db (Mutation.get_key m) (Mutation.get_value m) in
      (set_reply wrote, db')

  unfoldable pub compare_and_swap : Db → Mutation → DbResult → CasRes × Db
  unfolding swap_found swap_absent
  compare_and_swap db m (found old) =
      if Mutation.has_old_value m && bytes_eq old (Mutation.get_old_value m)
      then swap_found m old (R.put db (Mutation.get_key m) (Mutation.get_value m))
      else (CasRes.set_value (cas_lost compare_failure) old, db)
  compare_and_swap db m absent =
      if not (Mutation.has_old_value m)
      then swap_absent m (R.put db (Mutation.get_key m) (Mutation.get_value m))
      else (cas_lost compare_failure, db)
  compare_and_swap db m (failed e) = (cas_lost (problem_with e), db)

  -- The arm `MutationType::KVCAS`.
  unfoldable pub learn_cas : Db → Mutation → ℕ → CasRes × Db
  unfolding compare_and_swap
  learn_cas db m last_learned_txid =
      let (res, db') = compare_and_swap db m (R.read db (Mutation.get_key m)) in
      (CasRes.set_txid res last_learned_txid, db')

  -- The arm `MutationType::KVDEL`.
  unfoldable pub learn_del : Db → Mutation → DelRes × Db
  unfolding old_value_of
  learn_del db m =
      let (wrote, db') = R.delete db (Mutation.get_key m) in
      (del_reply (old_value_of (R.read db (Mutation.get_key m))) wrote, db')

  -- The `match` on the mutation's type.
  unfoldable pub perform : Db → Mutation → ℕ → MutationType → CliRes × Db
  unfolding learn_set learn_cas learn_del
  perform db m last_learned_txid kv_set =
      let (r, db') = learn_set db m in (CliRes.set_set CliRes.new r, db')
  perform db m last_learned_txid kv_cas =
      let (r, db') = learn_cas db m last_learned_txid in (CliRes.set_cas CliRes.new r, db')
  perform db m last_learned_txid kv_del =
      let (r, db') = learn_del db m in (CliRes.set_del CliRes.new r, db')

module _ {Db : Type 0} ⦃R : Rocks Db⦄ ⦃W : Wire⦄ where
  -- The `match` on the pending request, which `remove` has taken out.
  unfoldable pub answer : Server Db → CliRes → Option (Envelope × ℕ) → Outcome (Server Db)
  answer s res none = ok s
  answer s res (some (env, req_id)) = do
    msg ← write_cli_res (CliRes.set_req_id res req_id)
    ok (reply s env msg)

  unfoldable pub learn_mutation : Server Db → ℕ → Option Mutation → Outcome (Server Db)
  unfolding answer perform
  learn_mutation s txid none = ok s
  learn_mutation s txid (some m) =
      let (res, db') = perform s.db m s.rep_log.last_learned_txid (Mutation.get_field_type m) in
      answer (record s { db = db'; pending = remove txid s.pending }) res (get txid s.pending)

  unfoldable pub learn : Server Db → ℕ → ℕ → Outcome (Server Db)
  unfolding learn_mutation
  learn s term txid = learn_mutation s txid (AckedLog.get s.rep_log txid)

  -- `for (term, txid) in accepted { self.learn(term, txid); }`
  unfoldable pub learn_each : Server Db → List (ℕ × ℕ) → Outcome (Server Db)
  unfolding learn
  learn_each s [] = ok s
  learn_each s ((term, txid) ∷ rest) = do s' ← learn s term txid; learn_each s' rest
