-- ===== src/ServerConn.antt =====
-- src/server/server_conn.rs: a connection, with the calls of its socket and of the event loop as
-- answers that its operations are given.
pub mod Writing
pub mod Delivery
pub mod Reading
use rasputin.Prelude.{
  ℕ, ◌+◌, ◌-◌, ◌%◌, ◌^◌, Bytes, Bool, true, false, Option, none, some, List, [], ◌∷◌, ◌++◌, Outcome,
  ok, panic, unwrap, ◌>>=◌, eqb, min, length, take, drop, if◌then◌else◌,
}
use rasputin.Roles.{Envelope, SocketAddr, Token}
use rasputin.Codec.{TryRead, Framed, decode, encode}
use rasputin.Codec

-- `io::Error` by its `raw_os_error`, which is all that is read of it.
abbrev pub IoError : Type 0
IoError = Option ℕ

-- `io::Result`
pub data IoResult {ℓ} (A : Type ℓ) : Type ℓ where
  io_ok : A → IoResult A
  io_err : IoError → IoResult A

-- `unwrap` on it.
abbrev pub unwrap_io {ℓ} : {A : Type ℓ} → IoResult A → Outcome A
unwrap_io (io_ok a) = ok a
unwrap_io (io_err e) = panic

-- The flags of `mio::EventSet`.
pub record EventSet : Type 0 where
  pub readable : Bool
  pub writable : Bool
  pub error : Bool
  pub hup : Bool

-- `try_write_buf`: a socket that has room for `n` bytes takes those or all that there are.
pub data WriteAnswer : Type 0 where
  write_blocked : WriteAnswer
  room : ℕ → WriteAnswer
  write_failed : IoError → WriteAnswer

-- `try_read_buf`, with the bytes that were read.
pub data ReadAnswer : Type 0 where
  read_blocked : ReadAnswer
  received : Bytes → ReadAnswer
  read_failed : IoError → ReadAnswer

-- `sock` holds the bytes that were written to the socket. `req_tx` is kept by the `ConnSet`.
pub record ServerConn : Type 0 where
  pub sock : Bytes
  pub res_bufs : List Bytes
  pub res_remaining : ℕ
  pub req_codec : Framed
  pub token : Option Token
  pub interest : EventSet

abbrev pub new : ServerConn
new = record {
  sock = [];
  res_bufs = [];
  res_remaining = 0;
  req_codec = Codec.new;
  token = none;
  interest = record { readable = false; writable = false; error = false; hup = true };
}

-- `usize` has 64 bits, as it is compiled for release.
abbrev pub usize_sub : ℕ → ℕ → ℕ
usize_sub a b = (a + 2 ^ 64 - b) % 2 ^ 64

-- The arm `Ok(Some(r))`, for a buffer of which `r` bytes were written.
unfoldable pub count_written : ServerConn → ℕ → ServerConn
count_written c r =
    let left = usize_sub c.res_remaining r in
    record c {
      res_remaining = left;
      interest =
          if eqb left 0
          then record c.interest { readable = true; writable = false }
          else c.interest;
    }

-- What follows the `match`: the rest of the buffer goes back to the front.
unfoldable pub push_back :
    ServerConn → Bytes → IoResult (Unit {0}) → Outcome (ServerConn × IoResult (Unit {0}))
push_back c [] registered = unwrap c.token >>= λ _. ok (c, registered)
push_back c (b ∷ rest) registered =
    unwrap c.token >>= λ _. ok (record c { res_bufs = (b ∷ rest) ∷ c.res_bufs }, registered)

-- The `match` on the socket's answer. A buffer that could not be written is dropped.
unfoldable pub write_buf :
    ServerConn
    → Bytes
    → WriteAnswer
    → IoResult (Unit {0})
    → Outcome (ServerConn × IoResult (Unit {0}))
unfolding count_written push_back
write_buf c buf write_blocked registered =
    push_back (record c { interest = record c.interest { writable = true } }) buf registered
write_buf c buf (room n) registered =
    push_back
      (count_written (record c { sock = c.sock ++ take (min n (length buf)) buf })
        (min n (length buf)))
      (drop (min n (length buf)) buf) registered
write_buf c buf (write_failed e) registered = ok (c, io_err e)

-- `registered` is the answer of `event_loop.reregister`.
unfoldable pub writable :
    ServerConn → WriteAnswer → IoResult (Unit {0}) → Outcome (ServerConn × IoResult (Unit {0}))
unfolding write_buf
writable c answer registered = elim c.res_bufs [
  | [] ↦ ok (c, io_ok tt)
  | buf ∷ rest ↦ write_buf (record c { res_bufs = rest }) buf answer registered
]

-- What `notify` of src/server/traffic_cop.rs does to a connection: the frame of the message is
-- queued.
unfoldable pub queue_frame : ServerConn → Bytes → ServerConn
queue_frame c msg = record c {
  res_remaining = (c.res_remaining + length (encode msg)) % 2 ^ 64;
  res_bufs = c.res_bufs ++ encode msg ∷ [];
  interest = record c.interest { writable = true };
}

-- The `for` loop of `readable`: what is sent to `req_tx`.
unfoldable pub envelopes : Option SocketAddr → Option Token → List Bytes → Outcome (List Envelope)
envelopes address token [] = ok []
envelopes address token (req ∷ rest) = do
  addr ← unwrap address
  tok ← unwrap token
  sent ← envelopes address token rest
  ok (record { address = some addr; tok = tok; msg = req } ∷ sent)

module _ ⦃S : TryRead⦄ where
  -- What follows the `match`, for the bytes that were read.
  unfoldable pub take_in :
      ServerConn
      → Bytes
      → Option SocketAddr
      → IoResult (Unit {0})
      → Outcome (ServerConn × List Envelope × IoResult (Unit {0}))
  unfolding envelopes
  take_in c req_buf peer_addr registered = do
    let (reqs, req_codec) = decode c.req_codec req_buf
    sent ← envelopes peer_addr c.token reqs
    tok ← unwrap c.token
    ok (record c { req_codec = req_codec }, sent, registered)

  unfoldable pub readable :
      ServerConn
      → ReadAnswer
      → Option SocketAddr
      → IoResult (Unit {0})
      → Outcome (ServerConn × List Envelope × IoResult (Unit {0}))
  unfolding take_in
  readable c read_blocked peer_addr registered = panic
  readable c (received req_buf) peer_addr registered = take_in c req_buf peer_addr registered
  readable c (read_failed e) peer_addr registered =
      take_in (record c { interest = record c.interest { readable = false } }) [] peer_addr
        registered
