-- ===== src/Server/Learning/Frame.antt =====
-- What `learn` of src/server/server.rs leaves alone.
use rasputin.Prelude.{
  ℕ, ◌≡◌, List, [], ◌∷◌, arith, Option, none, some, Returns, Returns-bind, Returns-map, nat_key,
}
use rasputin.BTreeMap.{get, remove}
use rasputin.AckedLog
use rasputin.Messages.Mutation
use rasputin.Messages.Mutation.{Mutation}
use rasputin.Messages.CliRes.{CliRes}
use rasputin.Platform.{Rocks, Wire, write_cli_res}
use rasputin.Roles.{Envelope}
use rasputin.Server.{Server}
use rasputin.Server.Messaging.{reply}
use rasputin.Server.Learning.{answer, learn_mutation, perform, learn, learn_each}

-- Nothing but the store, the pending requests and the messages differs.
pub record Frame {Db : Type 0} (s t : Server Db) : Type 0 where
  pub id : t.id ≡ s.id
  pub peers : t.peers ≡ s.peers
  pub rep_peers : t.rep_peers ≡ s.rep_peers
  pub generated : t.max_generated_txid ≡ s.max_generated_txid
  pub highest : t.highest_term ≡ s.highest_term
  pub state : t.state ≡ s.state
  pub rep_log : t.rep_log ≡ s.rep_log

module _ {Db : Type 0} where
  pub Frame-refl : (s : Server Db) → Frame s s
  Frame-refl s = ground arith

  pub Frame-trans : {s t u : Server Db} → Frame s t → Frame t u → Frame s u
  Frame-trans f g = ground arith

module _ {Db : Type 0} ⦃R : Rocks Db⦄ ⦃W : Wire⦄ where
  answer-Frame :
      (s : Server Db) (res : CliRes) (o : Option (Envelope × ℕ))
      → Returns (Frame s) (answer s res o)
  unfolding answer write_cli_res reply
  answer-Frame s res none = Frame-refl s
  answer-Frame s res (some (env, req_id)) = ground arith

  pub learn_mutation-Frame :
      (s : Server Db) (txid : ℕ) (o : Option Mutation) → Returns (Frame s) (learn_mutation s txid o)
  unfolding learn_mutation
  learn_mutation-Frame s txid none = Frame-refl s
  learn_mutation-Frame s txid (some m) =
      let done = perform s.db m s.rep_log.last_learned_txid (Mutation.get_field_type m) in
      Returns-map _ (Frame s) _
        (answer-Frame (record s { db = done.1; pending = remove txid s.pending }) done.0
          (get txid s.pending))
        λ t f. ground arith

  -- Learning never panics, and changes the store, the pending requests and the messages only.
  pub learn_each-Frame : (s : Server Db) (l : List (ℕ × ℕ)) → Returns (Frame s) (learn_each s l)
  unfolding learn_each learn
  learn_each-Frame s [] = Frame-refl s
  learn_each-Frame s ((term, txid) ∷ rest) =
      Returns-bind (Frame s) (Frame s) (learn s term txid) _
        (learn_mutation-Frame s txid (AckedLog.get s.rep_log txid))
        λ t f. Returns-map (Frame t) (Frame s) _ (learn_each-Frame t rest) λ u g. Frame-trans f g
