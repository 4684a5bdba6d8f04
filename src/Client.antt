-- ===== src/Client.antt =====
-- src/client/mod.rs: a client, which asks one server after the other. A socket's answers to the
-- calls in a loop are a list, and a loop whose list is used up still runs.
pub mod Streams
pub mod Requests
pub mod Calls
use rasputin.Prelude.{
  ℕ, ◌+◌, ◌%◌, ◌^◌, Bytes, Bool, true, false, not, Option, none, some, List, [], ◌∷◌, ◌++◌, Outcome,
  ok, panic, unwrap, ◌>>=◌, eqb, min, length, take, drop, if◌then◌else◌,
}
use rasputin.Roles.{SocketAddr}
use rasputin.Messages.GetReq
use rasputin.Messages.SetReq
use rasputin.Messages.CasReq
use rasputin.Messages.DelReq
use rasputin.Messages.CliReq
use rasputin.Messages.CliReq.{CliReq}
use rasputin.Messages.CliRes
use rasputin.Messages.CliRes.{CliRes}
use rasputin.Messages.GetRes.{GetRes}
use rasputin.Messages.SetRes.{SetRes}
use rasputin.Messages.CasRes.{CasRes}
use rasputin.Messages.DelRes.{DelRes}
use rasputin.Codec.{TryRead, Framed, decode, encode}
use rasputin.Codec
use rasputin.ServerConn.{
  IoResult, io_ok, io_err, WriteAnswer, write_blocked, room, write_failed, ReadAnswer, read_blocked,
  received, read_failed,
}

-- `CliReq::write_to_bytes` and `protobuf::parse_from_bytes` for a `CliRes`.
pub record ClientWire : Type 0 where
  pub encode_cli_req : CliReq → Bytes
  pub parse_cli_res : Bytes → Option CliRes

-- The map of ranges and the pool of threads are made and not used.
pub record Client : Type 0 where
  pub servers : List SocketAddr
  pub req_counter : ℕ

abbrev pub new : List SocketAddr → Client
new servers = record { servers = servers; req_counter = 0 }

-- What a loop has come to.
pub data Progress {ℓ} (A : Type ℓ) : Type ℓ where
  running : Progress A
  finished : A → Progress A

abbrev pub map_progress {ℓ κ} : {A : Type ℓ} {B : Type κ} → (A → B) → Progress A → Progress B
map_progress f running = running
map_progress f (finished a) = finished (f a)

-- What is written to a socket, and the answers of `connect`, `try_write_buf` and `try_read_buf`.
pub record Attempt : Type 0 where
  pub connected : IoResult (Unit {0})
  pub writes : List WriteAnswer
  pub reads : List ReadAnswer

-- The loop of `send_to`, with the bytes that were written and those left in the buffer.
unfoldable pub send_to : Bytes → Bytes → List WriteAnswer → Progress (Bytes × IoResult (Unit {0}))
send_to sock buf [] = running
send_to sock buf (write_blocked ∷ rest) = send_to sock buf rest
send_to sock buf (room n ∷ rest) =
    let r = min n (length buf) in
    let again = send_to (sock ++ take r buf) (drop r buf) rest in
    if eqb (length (drop r buf)) 0 then finished (sock ++ take r buf, io_ok tt) else again
send_to sock buf (write_failed e ∷ rest) = finished (sock, io_err e)

-- The bytes that a call of `try_read_buf` adds to an empty buffer.
abbrev pub read_bytes : ReadAnswer → Bytes
read_bytes read_blocked = []
read_bytes (received bytes) = bytes
read_bytes (read_failed e) = []

-- The end of a round of `recv_into`: a single message is returned.
abbrev pub returned : List Bytes → Progress (IoResult Bytes) → Progress (IoResult Bytes)
returned (m ∷ []) again = finished (io_ok m)
returned _ again = again

-- `self.req_counter += 1`
unfoldable pub get_id : Client → Client × ℕ
get_id self = let id = (self.req_counter + 1) % 2 ^ 64 in (record self { req_counter = id }, id)

module _ ⦃S : TryRead⦄ where
  -- The loop of `recv_into`.
  unfoldable pub recv_into : Framed → List ReadAnswer → Progress (IoResult Bytes)
  recv_into codec [] = running
  recv_into codec (answer ∷ rest) =
      let (r, next) = decode codec (read_bytes answer) in returned r (recv_into next rest)

module _ ⦃S : TryRead⦄ ⦃W : ClientWire⦄ where
  unfoldable pub write_cli_req : CliReq → Outcome Bytes
  write_cli_req m = if CliReq.is_initialized m then ok (W.encode_cli_req m) else panic

  -- The arm `Ok(res_buf)`: a redirected request goes on to the next server.
  unfoldable pub read_response : Bytes → Outcome (Progress (Option CliRes))
  read_response res = do
    cli_res ← unwrap (W.parse_cli_res res)
    ok (finished (if CliRes.has_redirect cli_res then none else some cli_res))

  -- What follows `recv_into`, and what follows `send_to`.
  unfoldable pub on_received : Progress (IoResult Bytes) → Outcome (Progress (Option CliRes))
  unfolding read_response
  on_received running = ok running
  on_received (finished (io_err e)) = ok (finished none)
  on_received (finished (io_ok res)) = read_response res

  unfoldable pub on_sent :
      Progress (Bytes × IoResult (Unit {0})) → List ReadAnswer → Outcome (Progress (Option CliRes))
  unfolding on_received recv_into
  on_sent running reads = ok running
  on_sent (finished (sock, io_err e)) reads = ok (finished none)
  on_sent (finished (sock, io_ok done)) reads = on_received (recv_into Codec.new reads)

  -- The body of the loop of `req`: `none` for `continue`.
  unfoldable pub attempt : CliReq → Attempt → Outcome (Progress (Option CliRes))
  unfolding write_cli_req send_to on_sent
  attempt req answers = elim answers.connected [
    | io_err e ↦ ok (finished none)
    | io_ok done ↦ do
      bytes ← write_cli_req req
      on_sent (send_to [] (encode bytes) answers.writes) answers.reads
  ]

  -- The loop of `req`, where `net k peer` is what the `k`-th server to be tried answers.
  unfoldable pub try_each :
      (ℕ → SocketAddr → Attempt)
      → ℕ
      → CliReq
      → List SocketAddr
      → Outcome (Progress (IoResult CliRes))
  unfolding attempt
  try_each net k req [] = ok (finished (io_err none))
  try_each net k req (peer ∷ rest) = do
    tried ← attempt req (net k peer)
    elim tried [
      | running ↦ ok running
      | finished none ↦ try_each net (k + 1) req rest
      | finished (some cli_res) ↦ ok (finished (io_ok cli_res))
    ]

  unfoldable pub req :
      Client → (ℕ → SocketAddr → Attempt) → CliReq → Outcome (Progress (IoResult CliRes))
  unfolding try_each
  req self net request = try_each net 0 request self.servers
