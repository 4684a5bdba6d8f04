-- ===== src/Client/Calls.antt =====
-- The four calls of src/client/mod.rs.
use rasputin.Prelude.{ℕ, Bytes, Outcome, ok, ◌>>=◌}
use rasputin.Roles.{SocketAddr}
use rasputin.Messages.GetReq
use rasputin.Messages.SetReq
use rasputin.Messages.CasReq
use rasputin.Messages.DelReq
use rasputin.Messages.CliReq
use rasputin.Messages.CliReq.{CliReq}
use rasputin.Messages.CliRes
use rasputin.Messages.CliRes.{CliRes}
use rasputin.Messages.GetRes.{GetRes}
use rasputin.Messages.SetRes.{SetRes}
use rasputin.Messages.CasRes.{CasRes}
use rasputin.Messages.DelRes.{DelRes}
use rasputin.Codec.{TryRead}
use rasputin.ServerConn.{IoResult, io_ok, io_err}
use rasputin.Client.{ClientWire, Client, Progress, map_progress, Attempt, get_id, req}

-- `map` on what `req` returns.
unfoldable pub responded :
    {A : Type 0}
    → (CliRes → A)
    → Outcome (Progress (IoResult CliRes))
    → Outcome (Progress (IoResult A))
responded f o =
    o >>= λ p. ok (map_progress (λ r. elim r [ io_ok m ↦ io_ok (f m) | io_err e ↦ io_err e ]) p)

-- The requests that the four calls build.
abbrev pub set_request : Bytes → Bytes → ℕ → CliReq
set_request key value id =
    CliReq.set_req_id
      (CliReq.set_set CliReq.new (SetReq.set_value (SetReq.set_key SetReq.new key) value)) id

abbrev pub get_request : Bytes → ℕ → CliReq
get_request key id =
    CliReq.set_req_id (CliReq.set_get CliReq.new (GetReq.set_key GetReq.new key)) id

abbrev pub cas_request : Bytes → Bytes → Bytes → ℕ → CliReq
cas_request key old_value new_value id =
    CliReq.set_req_id
      (CliReq.set_cas CliReq.new (
        CasReq.set_new_value (CasReq.set_old_value (CasReq.set_key CasReq.new key) old_value)
          new_value))
      id

abbrev pub del_request : Bytes → ℕ → CliReq
del_request key id =
    CliReq.set_req_id (CliReq.set_del CliReq.new (DelReq.set_key DelReq.new key)) id

module _ ⦃S : TryRead⦄ ⦃W : ClientWire⦄ where
  unfoldable pub set :
      Client
      → Bytes
      → Bytes
      → (ℕ → SocketAddr → Attempt)
      → Client × Outcome (Progress (IoResult SetRes))
  unfolding get_id req responded
  set self key value net =
      let (next, id) = get_id self in
      (next, responded CliRes.get_set (req next net (set_request key value id)))

  unfoldable pub get :
      Client → Bytes → (ℕ → SocketAddr → Attempt) → Client × Outcome (Progress (IoResult GetRes))
  unfolding get_id req responded
  get self key net =
      let (next, id) = get_id self in
      (next, responded CliRes.get_get (req next net (get_request key id)))

  unfoldable pub cas :
      Client
      → Bytes
      → Bytes
      → Bytes
      → (ℕ → SocketAddr → Attempt)
      → Client × Outcome (Progress (IoResult CasRes))
  unfolding get_id req responded
  cas self key old_value new_value net =
      let (next, id) = get_id self in
      (next, responded CliRes.get_cas (req next net (cas_request key old_value new_value id)))

  unfoldable pub del :
      Client → Bytes → (ℕ → SocketAddr → Attempt) → Client × Outcome (Progress (IoResult DelRes))
  unfolding get_id req responded
  del self key net =
      let (next, id) = get_id self in
      (next, responded CliRes.get_del (req next net (del_request key id)))
