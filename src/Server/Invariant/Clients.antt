-- ===== src/Server/Invariant/Clients.antt =====
-- The invariant and `handle_cli` of src/server/server.rs.
use rasputin.Prelude.{
  ℕ, Bytes, ◌≡◌, ◌<◌, ◌+◌, ◌%◌, ◌^◌, refl, arith, Outcome, ok, Returns, some, Returns-Keeps, Keeps,
  true, Bool-cases, ltb, ltb→lt, sym, inl, inr, nat_key, Option-cases,
}
use rasputin.AckedLog.{append}
use rasputin.Messages.Mutation.{Mutation}
use rasputin.Messages.CliReq
use rasputin.Messages.CliReq.{CliReq}
use rasputin.Messages.CliRes
use rasputin.Messages.CliRes.{CliRes}
use rasputin.Platform.{Rocks, Wire, write_cli_res}
use rasputin.Roles.{Envelope, State, leader, is_leader, term_of}
use rasputin.Server.{Server}
use rasputin.Server.Messaging.{new_txid, next_u64, reply}
use rasputin.Server.Replication.{mutation_txid, append_own, replicate}
use rasputin.Server.Clients.{
  set_mutation, cas_mutation, del_mutation, reply_cli, submit, lead_cli, handle_cli,
}
use rasputin.Server.Invariant.{Inv, reply-Inv}
use rasputin.Server.Invariant.Replicating.{replicate-Inv}

pub term_of-leader : (state : State) → is_leader state ≡ true → (t : ℕ) × (term_of state ≡ some t)
unfolding is_leader term_of
term_of-leader (leader term have need until) h = (term, refl)
term_of-leader _ h = cc

module _ {Db : Type 0} ⦃R : Rocks Db⦄ ⦃W : Wire⦄ where
  submit-Inv :
      (s : Server Db) (req : Envelope) (req_id : ℕ) (mutation : ℕ → ℕ → Mutation) (term : ℕ)
      → Inv s
      → term_of s.state ≡ some term
      → ((txid : ℕ) → mutation_txid (mutation txid term) ≡ txid)
      → s.max_generated_txid + 1 < 2 ^ 64
      → Returns Inv (submit s req req_id mutation)
  unfolding submit new_txid
  submit-Inv s req req_id mutation term v e h small = rw e (
      replicate-Inv _ (mutation _ term) v.log_valid v.current
        (omega (arith, v.generated, h ((s.max_generated_txid + 1) % 2 ^ 64)))
        (omega (arith, h ((s.max_generated_txid + 1) % 2 ^ 64))))

  -- A generated txid that has wrapped round fails the log's assertion.
  submit-Keeps :
      (s : Server Db) (req : Envelope) (req_id : ℕ) (mutation : ℕ → ℕ → Mutation) (term : ℕ)
      → Inv s
      → term_of s.state ≡ some term
      → ((txid : ℕ) → mutation_txid (mutation txid term) ≡ txid)
      → Keeps Inv (submit s req req_id mutation)
  unfolding submit new_txid replicate append_own append
  submit-Keeps s req req_id mutation term v e h =
      let txid = next_u64 s.max_generated_txid in
      elim (Bool-cases (ltb s.rep_log.last_accepted_txid (mutation_txid (mutation txid term)))) [
        | inl above ↦ Returns-Keeps Inv _ (
            rw e (
              replicate-Inv _ (mutation txid term) v.log_valid v.current (ltb→lt _ _ above)
                (sym (h txid))))
        | inr wrapped ↦ rw (e, wrapped) tt
      ]

  -- A leader answers at once, or submits a mutation that has the txid that it is given.
  pub lead_cli-cases :
      (P : Outcome (Server Db) → Type 0) (s : Server Db) (req : Envelope) (cli_req : CliReq)
      (req_id term : ℕ)
      → ((msg : Bytes) → P (ok (reply s req msg)))
      → ((mutation : ℕ → ℕ → Mutation)
          → ((txid : ℕ) → mutation_txid (mutation txid term) ≡ txid)
          → P (submit s req (CliReq.get_req_id cli_req) mutation))
      → P (lead_cli s req cli_req (CliRes.set_req_id CliRes.new req_id))
  unfolding lead_cli reply_cli write_cli_res set_mutation cas_mutation del_mutation
  lead_cli-cases P s req cli_req req_id term answered own =
      elim (Bool-cases (CliReq.has_get cli_req)) [
        | inl get ↦ rw get (answered _)
        | inr no_get ↦ elim (Bool-cases (CliReq.has_set cli_req)) [
          | inl set ↦
              rw (no_get, set) (own (λ x t. set_mutation x t (CliReq.get_set cli_req)) (λ x. refl))
          | inr no_set ↦ elim (Bool-cases (CliReq.has_cas cli_req)) [
            | inl cas ↦
                rw (no_get, no_set, cas)
                  (own (λ x t. cas_mutation x t (CliReq.get_cas cli_req)) (λ x. refl))
            | inr no_cas ↦ elim (Bool-cases (CliReq.has_del cli_req)) [
              | inl del ↦
                  rw (no_get, no_set, no_cas, del)
                    (own (λ x t. del_mutation x t (CliReq.get_del cli_req)) (λ x. refl))
              | inr no_del ↦ rw (no_get, no_set, no_cas, no_del) (answered _)
            ]
          ]
        ]
      ]

  -- On a server in the invariant a client's request that parses never panics while the generator
  -- is below its last value, and the invariant holds afterwards.
  pub handle_cli-Inv :
      (s : Server Db) (req : Envelope) (cli_req : CliReq)
      → Inv s
      → W.parse_cli_req req.msg ≡ some cli_req
      → s.max_generated_txid + 1 < 2 ^ 64
      → Returns Inv (handle_cli s req)
  unfolding handle_cli reply_cli write_cli_res
  handle_cli-Inv s req cli_req v parsed small = elim (Bool-cases (is_leader s.state)) [
    | inl leads ↦
        let (term, e) = term_of-leader s.state leads in
        rw (parsed, leads)
          (lead_cli-cases (Returns Inv) s req cli_req _ term (λ msg. reply-Inv s req msg v)
            (λ mutation h. submit-Inv s req _ mutation term v e h small))
    | inr other ↦ rw (parsed, other) (reply-Inv s req _ v)
  ]

  -- Any envelope from a client keeps the invariant, unless the server panics.
  pub handle_cli-Keeps : (s : Server Db) (req : Envelope) → Inv s → Keeps Inv (handle_cli s req)
  unfolding handle_cli reply_cli write_cli_res
  handle_cli-Keeps s req v = elim (Option-cases (W.parse_cli_req req.msg)) [
    | inl garbled ↦ rw garbled tt
    | inr (cli_req, parsed) ↦ elim (Bool-cases (is_leader s.state)) [
      | inl leads ↦
          let (term, e) = term_of-leader s.state leads in
          rw (parsed, leads)
            (lead_cli-cases (Keeps Inv) s req cli_req _ term (λ msg. reply-Inv s req msg v)
              (λ mutation h. submit-Keeps s req _ mutation term v e h))
      | inr other ↦ rw (parsed, other) (reply-Inv s req _ v)
    ]
  ]
