-- ===== src/Server/Invariant.antt =====
-- The invariant of a server of src/server/server.rs.
pub mod Replicating
pub mod Clients
pub mod Running
pub mod Safety
pub mod Liveness
pub mod Voting
use rasputin.Prelude.{ℕ, Bytes, ◌≡◌, ◌<◌, ◌≤◌, refl, sym, arith, List, [], ◌∷◌}
use mathlib.Core.Path.{subst, subst₂}
use rasputin.AckedLog.Bounds.{IsValid}
use rasputin.Roles.{Envelope, State, leader, candidate, follower, init}
use rasputin.Server.{Server}
use rasputin.Server.Messaging.{reply, send_msg}
use rasputin.Server.Learning.Frame.{Frame}

-- The term that a state holds is the server's highest term.
abbrev pub IsCurrent : ℕ → State → Type 0
IsCurrent highest (leader term have need until) = term ≡ highest
IsCurrent highest (candidate term have need until) = term ≡ highest
IsCurrent highest (follower term id tok leader_addr until) = term ≡ highest
IsCurrent highest init = Unit

module _ {Db : Type 0} where
  -- The log is in order, the generator stands at the last accepted txid, and the state's term is
  -- the highest term.
  pub record Inv (s : Server Db) : Type 0 where
    pub log_valid : IsValid s.rep_log
    pub generated : s.max_generated_txid ≡ s.rep_log.last_accepted_txid
    pub current : IsCurrent s.highest_term s.state

  pub Frame-Inv : {s t : Server Db} → Frame s t → Inv s → Inv t
  Frame-Inv {s} {t} f v = record {
    log_valid = subst IsValid (sym f.rep_log) v.log_valid;
    generated = ground arith;
    current = subst₂ IsCurrent (sym f.highest) (sym f.state) v.current;
  }

  pub send_msg-Inv : (s : Server Db) (env : Envelope) → Inv s → Inv (send_msg s env)
  unfolding send_msg
  send_msg-Inv s env v = record {
    log_valid = v.log_valid;
    generated = v.generated;
    current = v.current;
  }

  pub reply-Inv : (s : Server Db) (env : Envelope) (msg : Bytes) → Inv s → Inv (reply s env msg)
  unfolding reply send_msg
  reply-Inv s env msg v = record {
    log_valid = v.log_valid;
    generated = v.generated;
    current = v.current;
  }
