-- ===== src/Server/Clients/Requests.antt =====
-- How `handle_cli` of src/server/server.rs treats the requests of clients.
use rasputin.Prelude.{ℕ, Bytes, ◌≡◌, refl, arith, List, ok, true, false, some, nat_key}
use rasputin.Messages.CasReq
use rasputin.Messages.CasReq.{CasReq}
use rasputin.Messages.CasRes
use rasputin.Messages.GetReq
use rasputin.Messages.GetRes
use rasputin.Messages.CliReq
use rasputin.Messages.CliReq.{CliReq}
use rasputin.Messages.CliRes
use rasputin.Messages.CliRes.{CliRes}
use rasputin.Messages.RedirectRes
use rasputin.Platform.{Timespec, TimeOps, absent, found, Rocks, Wire, write_cli_res}
use rasputin.Roles.{Envelope, SocketAddr, Token, leader, follower, is_leader, valid_leader}
use rasputin.Server.{Server}
use rasputin.Server.Messaging.{reply}
use rasputin.Server.Learning.{learn_cas, compare_and_swap}
use rasputin.Server.Clients.{redirect_to, get_result, cas_mutation, reply_cli, lead_cli, handle_cli}

module _ {Db : Type 0} ⦃R : Rocks Db⦄ where
  -- A compare-and-swap that a leader builds from a client's request never succeeds on a key that
  -- is absent, and leaves the store as it was, whether or not the request names an old value.
  pub learn_cas-cas_mutation_absent :
      (db : Db) (txid term n : ℕ) (req : CasReq)
      → R.read db (CasReq.get_key req) ≡ absent
      → let m = cas_mutation txid term req in
        ((learn_cas db m n).1 ≡ db) × (CasRes.get_success (learn_cas db m n).0 ≡ false)
  unfolding learn_cas compare_and_swap cas_mutation
  learn_cas-cas_mutation_absent db txid term n req e = ground arith

module _ {Db : Type 0} ⦃R : Rocks Db⦄ ⦃W : Wire⦄ where
  -- A server that follows a leader changes nothing on a client's request that parses but to send
  -- the leader's address, under the request's number.
  pub handle_cli_redirects :
      (s : Server Db) (req : Envelope) (cli_req : CliReq) (term : ℕ) (lid addr : SocketAddr)
      (tok : Token) (until : Timespec)
      → W.parse_cli_req req.msg ≡ some cli_req
      → s.state ≡ follower term lid tok addr until
      → (res : CliRes) × (handle_cli s req ≡ ok (reply s req (W.encode_cli_res res)))
        × (CliRes.get_req_id res ≡ CliReq.get_req_id cli_req)
        × (RedirectRes.get_success (CliRes.get_redirect res) ≡ true)
        × (RedirectRes.get_address (CliRes.get_redirect res) ≡ addr)
  unfolding handle_cli redirect_to reply_cli write_cli_res is_leader
  handle_cli_redirects s req cli_req term lid addr tok until parsed e = (
    CliRes.set_redirect (CliRes.set_req_id CliRes.new (CliReq.get_req_id cli_req))
        (redirect_to (follower term lid tok addr until)),
    rw (parsed, e),
    refl,
    refl,
    refl,
  )

  -- A leader whose lease has run out still answers a read that parses from its own store, where
  -- it has the key: the reply reports success with the value that the store has.
  pub handle_cli_reads_expired :
      ⦃T : TimeOps⦄ (s : Server Db) (req : Envelope) (cli_req : CliReq) (now until : Timespec)
      (term need : ℕ) (have : List Token) (value : Bytes)
      → W.parse_cli_req req.msg ≡ some cli_req
      → s.state ≡ leader term have need until
      → T.before now until ≡ false
      → CliReq.has_get cli_req ≡ true
      → R.read s.db (GetReq.get_key (CliReq.get_get cli_req)) ≡ found value
      → (valid_leader s.state now ≡ false)
        × (res : CliRes) × (handle_cli s req ≡ ok (reply s req (W.encode_cli_res res)))
        × (GetRes.get_success (CliRes.get_get res) ≡ true)
        × (GetRes.get_value (CliRes.get_get res) ≡ value)
        × (GetRes.get_txid (CliRes.get_get res) ≡ s.rep_log.last_learned_txid)
  unfolding handle_cli lead_cli get_result reply_cli write_cli_res is_leader valid_leader
  handle_cli_reads_expired s req cli_req now until term need have value parsed e old get there = (
    rw e old,
    CliRes.set_get (CliRes.set_req_id CliRes.new (CliReq.get_req_id cli_req))
        (GetRes.set_txid (get_result (found value)) s.rep_log.last_learned_txid),
    rw (parsed, e, get, there),
    refl,
    refl,
    refl,
  )
