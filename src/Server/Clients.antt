-- ===== src/Server/Clients.antt =====
-- src/server/server.rs: `handle_cli`.
pub mod Requests
use rasputin.Prelude.{
  ℕ, String, Bytes, true, false, [], ◌∷◌, Outcome, ok, unwrap, ◌>>=◌, if◌then◌else◌, nat_key,
}
use rasputin.BTreeMap.{insert}
use rasputin.Messages.Version
use rasputin.Messages.Mutation
use rasputin.Messages.Mutation.{Mutation, MutationType, kv_set, kv_cas, kv_del}
use rasputin.Messages.GetReq
use rasputin.Messages.SetReq
use rasputin.Messages.SetReq.{SetReq}
use rasputin.Messages.CasReq
use rasputin.Messages.CasReq.{CasReq}
use rasputin.Messages.DelReq
use rasputin.Messages.DelReq.{DelReq}
use rasputin.Messages.CliReq
use rasputin.Messages.CliReq.{CliReq}
use rasputin.Messages.GetRes
use rasputin.Messages.GetRes.{GetRes}
use rasputin.Messages.RedirectRes
use rasputin.Messages.RedirectRes.{RedirectRes}
use rasputin.Messages.CliRes
use rasputin.Messages.CliRes.{CliRes}
use rasputin.Platform.{DbResult, found, absent, failed, Rocks, Wire, write_cli_res}
use rasputin.Roles.{Envelope, State, follower, is_leader, term_of}
use rasputin.Server.{Server}
use rasputin.Server.Messaging.{new_txid, reply}
use rasputin.Server.Learning.{operational_problem}
use rasputin.Server.Replication.{replicate}

abbrev pub no_leader : String
no_leader = "No leader has been elected yet"

abbrev pub key_not_found : String
key_not_found = "Key not found"

-- The reply of a server that does not lead.
unfoldable pub redirect_to : State → RedirectRes
redirect_to (follower term id tok leader_addr until) =
    RedirectRes.set_address (RedirectRes.set_success RedirectRes.new true) leader_addr
redirect_to _ = RedirectRes.set_err (RedirectRes.set_success RedirectRes.new false) no_leader

unfoldable pub get_result : DbResult → GetRes
get_result (found value) = GetRes.set_value (GetRes.set_success GetRes.new true) value
get_result absent = GetRes.set_err (GetRes.set_success GetRes.new false) key_not_found
get_result (failed e) = GetRes.set_err (GetRes.set_success GetRes.new false) operational_problem

abbrev version_at : ℕ → ℕ → Version.Version
version_at txid term = Version.set_term (Version.set_txid Version.new txid) term

abbrev keyed : MutationType → ℕ → ℕ → Bytes → Mutation
keyed type txid term key =
    let m1 = Mutation.set_field_type Mutation.new type in
    let m2 = Mutation.set_version m1 (version_at txid term) in Mutation.set_key m2 key

unfoldable pub set_mutation : ℕ → ℕ → SetReq → Mutation
set_mutation txid term req =
    Mutation.set_value (keyed kv_set txid term (SetReq.get_key req)) (SetReq.get_value req)

unfoldable pub cas_mutation : ℕ → ℕ → CasReq → Mutation
cas_mutation txid term req =
    let m = keyed kv_cas txid term (CasReq.get_key req) in
    Mutation.set_old_value (Mutation.set_value m (CasReq.get_new_value req))
      (CasReq.get_old_value req)

unfoldable pub del_mutation : ℕ → ℕ → DelReq → Mutation
del_mutation txid term req = keyed kv_del txid term (DelReq.get_key req)

module _ {Db : Type 0} ⦃R : Rocks Db⦄ ⦃W : Wire⦄ where
  -- The last line of `handle_cli`.
  unfoldable pub reply_cli : Server Db → Envelope → CliRes → Outcome (Server Db)
  reply_cli s req res = do msg ← write_cli_res res; ok (reply s req msg)

  -- What the three writing branches share: the txid, the pending request, the replication.
  unfoldable pub submit : Server Db → Envelope → ℕ → (ℕ → ℕ → Mutation) → Outcome (Server Db)
  submit s req req_id mutation = do
    let s' = new_txid s
    let txid = s'.max_generated_txid
    term ← unwrap (term_of s.state)
    replicate (record s' { pending = insert txid (req, req_id) s'.pending })
        (mutation txid term ∷ [])

  -- The chain of `has_…` tests of a leader.
  unfoldable pub lead_cli : Server Db → Envelope → CliReq → CliRes → Outcome (Server Db)
  unfolding reply_cli submit
  lead_cli s req cli_req res =
      if CliReq.has_get cli_req
      then (let got = get_result (R.read s.db (GetReq.get_key (CliReq.get_get cli_req))) in
          reply_cli s req (CliRes.set_get res (GetRes.set_txid got s.rep_log.last_learned_txid)))
      else if CliReq.has_set cli_req
      then submit s req (CliReq.get_req_id cli_req)
          (λ txid term. set_mutation txid term (CliReq.get_set cli_req))
      else if CliReq.has_cas cli_req
      then submit s req (CliReq.get_req_id cli_req)
          (λ txid term. cas_mutation txid term (CliReq.get_cas cli_req))
      else if CliReq.has_del cli_req
      then submit s req (CliReq.get_req_id cli_req)
          (λ txid term. del_mutation txid term (CliReq.get_del cli_req))
      else reply_cli s req res

  unfoldable pub handle_cli : Server Db → Envelope → Outcome (Server Db)
  unfolding lead_cli
  handle_cli s req = do
    cli_req ← unwrap (W.parse_cli_req req.msg)
    let res = CliRes.set_req_id CliRes.new (CliReq.get_req_id cli_req)
    (if is_leader s.state
        then lead_cli s req cli_req res
        else reply_cli s req (CliRes.set_redirect res (redirect_to s.state)))
