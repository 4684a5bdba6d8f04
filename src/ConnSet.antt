-- ===== src/ConnSet.antt =====
-- src/server/connset.rs: the connections of a listening socket. The slab of `mio` that keeps them
-- and the answers of the socket and the event loop are parameters.
pub mod Known
pub mod Joining
use rasputin.Prelude.{
  ℕ, ◌+◌, ◌≡◌, ◌≢◌, ◌≤◌, ◌<◌, Bool, Option, none, some, List, [], ◌∷◌, ◌++◌, is_some, Outcome, ok,
  panic, unwrap, ◌>>=◌, if◌then◌else◌,
}
use rasputin.Roles.{Envelope, SocketAddr, Token}
use rasputin.Codec.{TryRead}
use rasputin.ServerConn.{ServerConn, IoError, IoResult, io_ok, io_err, WriteAnswer, ReadAnswer}
use rasputin.ServerConn

-- `mio::util::Slab<ServerConn>`: `new_starting_at`, `get` and `get_mut`, `insert`, `remove`. A
-- write through `get_mut` is `set`.
pub record Slab (S : Type 0) : Type 0 where
  pub starting_at : Token → ℕ → S
  pub get : S → Token → Option ServerConn
  pub set : S → Token → ServerConn → S
  pub insert : S → ServerConn → Option (Token × S)
  pub remove : S → Token → S

-- A slab gives out a token that is free, from its first one on and within its capacity. `Within`
-- says where a slab began and how many it holds.
pub record SlabLaws {S : Type 0} (L : Slab S) : Type 1 where
  pub Within : Token → ℕ → S → Type 0
  pub starting_at-Within :
      (first : Token) (capacity : ℕ) → Within first capacity (L.starting_at first capacity)
  pub set-Within :
      (first : Token) (capacity : ℕ) (s : S) (t : Token) (c : ServerConn)
      → Within first capacity s
      → Within first capacity (L.set s t c)
  pub remove-Within :
      (first : Token) (capacity : ℕ) (s : S) (t : Token)
      → Within first capacity s
      → Within first capacity (L.remove s t)
  pub insert-Within :
      (first : Token) (capacity : ℕ) (s s' : S) (c : ServerConn) (t : Token)
      → Within first capacity s
      → L.insert s c ≡ some (t, s')
      → Within first capacity s' × (first ≤ t) × (t < first + capacity)
  pub get-starting_at :
      (first : Token) (capacity : ℕ) (t : Token) → L.get (L.starting_at first capacity) t ≡ none
  pub get-set :
      (s : S) (t : Token) (c d : ServerConn) → L.get s t ≡ some d → L.get (L.set s t c) t ≡ some c
  pub get-set_ne :
      (s : S) (t u : Token) (c : ServerConn) → u ≢ t → L.get (L.set s t c) u ≡ L.get s u
  pub get-remove : (s : S) (t : Token) → L.get (L.remove s t) t ≡ none
  pub get-remove_ne : (s : S) (t u : Token) → u ≢ t → L.get (L.remove s t) u ≡ L.get s u
  pub get-insert :
      (s s' : S) (c : ServerConn) (t : Token) → L.insert s c ≡ some (t, s') → L.get s' t ≡ some c
  pub get-insert_ne :
      (s s' : S) (c : ServerConn) (t u : Token)
      → L.insert s c ≡ some (t, s')
      → u ≢ t
      → L.get s' u ≡ L.get s u
  pub insert-fresh :
      (s s' : S) (c : ServerConn) (t : Token) → L.insert s c ≡ some (t, s') → L.get s t ≡ none

-- `req_tx` holds what was sent, the oldest first.
pub record ConnSet (S : Type 0) : Type 0 where
  pub srv_token : Token
  pub conns : S
  pub req_tx : List Envelope

-- `srv_sock.accept()`: `Ok(None)` if no connection waits.
pub data AcceptAnswer : Type 0 where
  accepted : AcceptAnswer
  none_waits : AcceptAnswer
  accept_failed : IoError → AcceptAnswer

-- What the event loop and the sockets answer in a call: to `register_opt`, to `reregister`, and so
-- on.
pub record Answers : Type 0 where
  pub accept : AcceptAnswer
  pub register : IoResult (Unit {0})
  pub reregister : IoResult (Unit {0})
  pub read : ReadAnswer
  pub peer_addr : Option SocketAddr
  pub write : WriteAnswer

module _ {S : Type 0} ⦃L : Slab S⦄ where
  -- The closure of `map`: the new connection is told its token.
  unfoldable pub set_token :
      ConnSet S → Token → IoResult (Unit {0}) → Outcome (ConnSet S × IoResult Token)
  set_token self tok (io_err e) = panic
  set_token self tok (io_ok done) = do
    conn ← unwrap (L.get self.conns tok)
    ok (record self { conns = L.set self.conns tok (record conn { token = some tok }) }, io_ok tok)

  unfoldable pub register : ConnSet S → IoResult (Unit {0}) → Outcome (ConnSet S × IoResult Token)
  unfolding set_token
  register self registered = elim (L.insert self.conns ServerConn.new) [
    | none ↦ ok (self, io_err none)
    | some (tok, conns) ↦ set_token (record self { conns = conns }) tok registered
  ]

  -- The token of the new connection is dropped.
  unfoldable pub accept : ConnSet S → Answers → Outcome (ConnSet S × IoResult (Unit {0}))
  unfolding register
  accept self answers = elim answers.accept [
    | accept_failed e ↦ ok (self, io_err e)
    | none_waits ↦ panic
    | accepted ↦ do
      (next, result) ← register self answers.register
      ok (next, elim result [ io_ok tok ↦ io_ok tt | io_err e ↦ io_err e ])
  ]

  unfoldable pub conn_writable :
      ConnSet S → Token → Answers → Outcome (ConnSet S × IoResult (Unit {0}))
  conn_writable self tok answers = elim (L.get self.conns tok) [
    | none ↦ ok (self, io_ok tt)
    | some conn ↦ do
      (next, result) ← ServerConn.writable conn answers.write answers.reregister
      ok (record self { conns = L.set self.conns tok next }, result)
  ]

module _ {S : Type 0} ⦃L : Slab S⦄ ⦃T : TryRead⦄ where
  unfoldable pub conn_readable :
      ConnSet S → Token → Answers → Outcome (ConnSet S × IoResult (Unit {0}))
  conn_readable self tok answers = elim (L.get self.conns tok) [
    | none ↦ ok (self, io_ok tt)
    | some conn ↦ do
      (next, reqs, result) ←
          ServerConn.readable conn answers.read answers.peer_addr answers.reregister
      ok (record self { conns = L.set self.conns tok next; req_tx = self.req_tx ++ reqs }, result)
  ]
