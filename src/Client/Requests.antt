-- ===== src/Client/Requests.antt =====
-- The requests of src/client/mod.rs over the servers that it tries.
use rasputin.Prelude.{
  ℕ, ◌+◌, ◌≡◌, ◌≤◌, ◌<◌, ◌^◌, refl, ap, ◌∙◌, Bytes, Bool, true, false, none, some, List, [], ◌∷◌,
  ◌++◌, map, arith, length, if◌then◌else◌, ◌⊎◌, inl, inr, ok,
}
use mathlib.Core.Path.{subst}
use rasputin.Roles.{SocketAddr}
use rasputin.Messages.CliReq
use rasputin.Messages.CliReq.{CliReq}
use rasputin.Messages.CliRes
use rasputin.Messages.CliRes.{CliRes}
use rasputin.Codec.{TryRead, ReadLaws, encode}
use rasputin.ServerConn.{IoError, io_ok, io_err}
use rasputin.ServerConn.Writing.{joined}
use rasputin.Client.{
  ClientWire, Client, finished, Attempt, send_to, read_bytes, write_cli_req, read_response,
  on_received, on_sent, attempt, try_each, req,
}
use rasputin.Client.Streams.{AllWork, roomy, send_to-finished, recv_into-encode}

module _ ⦃W : ClientWire⦄ where
  -- A server that takes the request and sends back a frame with `frame`, which parses as `res`.
  pub record Reply (request : CliReq) (frame : Bytes) (res : CliRes) (a : Attempt) : Type 0 where
    pub connects : a.connected ≡ io_ok tt
    pub works : AllWork a.writes
    pub takes : length (encode (W.encode_cli_req request)) ≤ roomy a.writes
    pub sends : joined (map read_bytes a.reads) ≡ encode frame
    pub fits : length frame < 2 ^ 32
    pub parses : W.parse_cli_res frame ≡ some res

  -- A server that is not reached, or not for the whole request, or that redirects.
  abbrev pub Refuses : Attempt → Type 0
  Refuses a = (e : IoError) × (a.connected ≡ io_err e)

  abbrev pub Breaks : CliReq → Attempt → Type 0
  Breaks request a =
      (a.connected ≡ io_ok tt)
      × (sock : Bytes) × (e : IoError) × (send_to [] (encode (W.encode_cli_req request)) a.writes
          ≡ finished (sock, io_err e))

  abbrev pub Redirects : CliReq → Attempt → Type 0
  Redirects request a =
      (frame : Bytes) × (res : CliRes) × Reply request frame res a
      × (CliRes.has_redirect res ≡ true)

  abbrev pub Skipped : CliReq → Attempt → Type 0
  Skipped request a = Refuses a ⊎ (Breaks request a ⊎ Redirects request a)

  abbrev pub AllSkipped : (ℕ → SocketAddr → Attempt) → ℕ → CliReq → List SocketAddr → Type 0
  AllSkipped net k request [] = Unit {0}
  AllSkipped net k request (peer ∷ rest) =
      Skipped request (net k peer) × AllSkipped net (k + 1) request rest

encode_some : (b : Bytes) → 0 < length (encode b)
unfolding encode
encode_some b = omega arith

module _ ⦃S : TryRead⦄ ⦃W : ClientWire⦄ (laws : ReadLaws S) where
  attempt-Reply :
      (request : CliReq) (frame : Bytes) (res : CliRes) (a : Attempt)
      → CliReq.is_initialized request ≡ true
      → Reply request frame res a
      → attempt request a ≡ ok (finished (if CliRes.has_redirect res then none else some res))
  unfolding attempt on_sent on_received read_response write_cli_req
  attempt-Reply request frame res a init r =
      let bytes = W.encode_cli_req request in
      rw
        (
          r.connects,
          init,
          send_to-finished [] (encode bytes) a.writes r.works (encode_some bytes) r.takes,
          recv_into-encode laws frame a.reads r.sends r.fits,
          r.parses,
        )
        refl

  attempt-Skipped :
      (request : CliReq) (a : Attempt)
      → CliReq.is_initialized request ≡ true
      → Skipped request a
      → attempt request a ≡ ok (finished none)
  unfolding attempt on_sent write_cli_req
  attempt-Skipped request a init (inl (e, refused)) = rw refused refl
  attempt-Skipped request a init (inr (inl (there, sock, e, broke))) = rw (there, init, broke) refl
  attempt-Skipped request a init (inr (inr (frame, res, r, redirected))) =
      attempt-Reply request frame res a init r
      ∙ ap (λ (b : Bool). ok (finished (if b then none else some res))) redirected

  try_each-answer :
      (net : ℕ → SocketAddr → Attempt) (k : ℕ) (request : CliReq) (passed rest : List SocketAddr)
      (peer : SocketAddr) (frame : Bytes) (res : CliRes)
      → CliReq.is_initialized request ≡ true
      → AllSkipped net k request passed
      → Reply request frame res (net (k + length passed) peer)
      → CliRes.has_redirect res ≡ false
      → try_each net k request (passed ++ peer ∷ rest) ≡ ok (finished (io_ok res))
  unfolding try_each
  try_each-answer net k request [] rest peer frame res init skipped r direct =
      let here = subst (λ (i : ℕ). Reply request frame res (net i peer)) (omega arith) r in
      rw (attempt-Reply request frame res (net k peer) init here, direct) refl
  try_each-answer net k request (p ∷ ps) rest peer frame res init skipped r direct =
      rw (attempt-Skipped request (net k p) init skipped.0) (
        try_each-answer net (k + 1) request ps rest peer frame res init skipped.1
          (subst (λ (i : ℕ). Reply request frame res (net i peer)) (omega arith) r) direct)

  -- A request that is initialized is answered with the response of the first server that takes it
  -- and responds with anything but a redirect, in a frame that is cut in any way; each server
  -- before it refuses the connection, breaks off while the request is written, or redirects.
  pub req-answer :
      (self : Client) (net : ℕ → SocketAddr → Attempt) (request : CliReq)
      (passed rest : List SocketAddr) (peer : SocketAddr) (frame : Bytes) (res : CliRes)
      → self.servers ≡ passed ++ peer ∷ rest
      → CliReq.is_initialized request ≡ true
      → AllSkipped net 0 request passed
      → Reply request frame res (net (length passed) peer)
      → CliRes.has_redirect res ≡ false
      → req self net request ≡ ok (finished (io_ok res))
  unfolding req
  req-answer self net request passed rest peer frame res e init skipped r direct = rw e (
      try_each-answer net 0 request passed rest peer frame res init skipped
        (subst (λ (i : ℕ). Reply request frame res (net i peer)) (omega arith) r) direct)

  try_each-unreachable :
      (net : ℕ → SocketAddr → Attempt) (k : ℕ) (request : CliReq) (servers : List SocketAddr)
      → CliReq.is_initialized request ≡ true
      → AllSkipped net k request servers
      → try_each net k request servers ≡ ok (finished (io_err none))
  unfolding try_each
  try_each-unreachable net k request [] init skipped = refl
  try_each-unreachable net k request (p ∷ ps) init skipped =
      rw (attempt-Skipped request (net k p) init skipped.0)
        (try_each-unreachable net (k + 1) request ps init skipped.1)

  -- Where every server refuses the connection, breaks off while the request is written, or
  -- redirects, a request that is initialized ends with the error that no server can be reached.
  pub req-unreachable :
      (self : Client) (net : ℕ → SocketAddr → Attempt) (request : CliReq)
      → CliReq.is_initialized request ≡ true
      → AllSkipped net 0 request self.servers
      → req self net request ≡ ok (finished (io_err none))
  unfolding req
  req-unreachable self net request init skipped =
      try_each-unreachable net 0 request self.servers init skipped
