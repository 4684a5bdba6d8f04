-- ===== src/ServerConn/Delivery.antt =====
-- Messages that are queued on a connection of src/server/server_conn.rs, and what the codec of
-- src/codec.rs makes of the bytes at the other end.
use rasputin.Prelude.{
  ℕ, ◌+◌, ◌^◌, ◌≡◌, ◌<◌, refl, ap, sym, ◌∙◌, Bytes, some, List, [], ◌∷◌, ◌++◌, Outcome, ok, ◌>>=◌,
  Returns, Returns-bind, Returns-map, length, length-append, arith,
}
use mathlib.Core.Path.{subst}
use mathlib.Core.List.{append_assoc, append-nil}
use rasputin.Roles.{Token}
use rasputin.Codec.{TryRead, ReadLaws, decode, encode}
use rasputin.Codec
use rasputin.Codec.Frames.{encode_each, AllFit, decode-encode_each}
use rasputin.Codec.Cuts.{decode-append}
use rasputin.ServerConn
use rasputin.ServerConn.{ServerConn, IoResult, WriteAnswer, writable, queue_frame}
use rasputin.ServerConn.Writing.{
  joined, outgoing, IsValid, IsWorking, writable-Returns, queue_frame-IsValid,
}

-- What happens to a connection: a message is queued, or the event loop finds it writable.
pub data Traffic : Type 0 where
  queues : Bytes → Traffic
  writes : WriteAnswer → IoResult (Unit {0}) → Traffic

-- The event loop ignores the result of `writable`.
unfoldable pub carry : ServerConn → List Traffic → Outcome ServerConn
carry c [] = ok c
carry c (queues msg ∷ rest) = carry (queue_frame c msg) rest
carry c (writes answer registered ∷ rest) = do
  (d, result) ← writable c answer registered
  carry d rest

abbrev pub sent : List Traffic → List Bytes
sent [] = []
sent (queues msg ∷ rest) = msg ∷ sent rest
sent (writes answer registered ∷ rest) = sent rest

abbrev pub AllWorking : List Traffic → Type 0
AllWorking [] = Unit {0}
AllWorking (queues msg ∷ rest) = AllWorking rest
AllWorking (writes answer registered ∷ rest) = IsWorking answer × AllWorking rest

room_left :
    (tok : Token) (c : ServerConn) (msg later out : Bytes)
    → IsValid tok c
    → outgoing c ++ (encode msg ++ later) ≡ out
    → length out < 2 ^ 64
    → c.res_remaining + length (encode msg) < 2 ^ 64
room_left tok c msg later out v e h = omega (
  arith,
  v.counted,
  ap (length {A = ℕ}) e,
  length-append (outgoing c) (encode msg ++ later),
  length-append (encode msg) later,
  length-append c.sock (joined c.res_bufs),
)

count_fits :
    (tok : Token) (c : ServerConn) (later out : Bytes)
    → IsValid tok c
    → outgoing c ++ later ≡ out
    → length out < 2 ^ 64
    → c.res_remaining < 2 ^ 64
count_fits tok c later out v e h = omega (
  arith,
  v.counted,
  ap (length {A = ℕ}) e,
  length-append (outgoing c) later,
  length-append c.sock (joined c.res_bufs),
)

carry-Returns :
    (tok : Token) (c : ServerConn) (ts : List Traffic) (out : Bytes)
    → IsValid tok c
    → AllWorking ts
    → outgoing c ++ encode_each (sent ts) ≡ out
    → length out < 2 ^ 64
    → Returns (λ d. IsValid tok d × (outgoing d ≡ out)) (carry c ts)
unfolding carry encode_each
carry-Returns tok c [] out v w e h = (v, sym (append-nil (outgoing c)) ∙ e)
carry-Returns tok c (queues msg ∷ rest) out v w e h =
    let queued =
      queue_frame-IsValid tok c msg v (room_left tok c msg (encode_each (sent rest)) out v e h) in
    carry-Returns tok (queue_frame c msg) rest out queued.0 w
      (ap (λ (t : Bytes). t ++ encode_each (sent rest)) queued.1
        ∙ append_assoc (outgoing c) (encode msg) (encode_each (sent rest))
        ∙ e)
      h
carry-Returns tok c (writes answer registered ∷ rest) out v w e h =
    Returns-bind (λ r. IsValid tok r.0 × (outgoing r.0 ≡ outgoing c))
      (λ d. IsValid tok d × (outgoing d ≡ out)) (writable c answer registered) _
      (writable-Returns tok c c.res_bufs answer registered refl v
        (count_fits tok c (encode_each (sent rest)) out v e h) w.0)
      λ r q.
        carry-Returns tok r.0 rest out q.0 w.1
          (ap (λ (t : Bytes). t ++ encode_each (sent rest)) q.1 ∙ e) h

-- On a valid connection whose outgoing bytes, with the frames of what is still queued, stay below
-- 2^64, queueing messages and writing to a socket that does not fail never panics, keeps the
-- connection valid (the count is that of the queued bytes, and it asks to write while there are
-- any), and neither loses, repeats nor reorders a byte.
pub carry-outgoing :
    (tok : Token) (c : ServerConn) (ts : List Traffic)
    → IsValid tok c
    → AllWorking ts
    → length (outgoing c ++ encode_each (sent ts)) < 2 ^ 64
    → Returns (λ d. IsValid tok d × (outgoing d ≡ outgoing c ++ encode_each (sent ts))) (carry c ts)
carry-outgoing tok c ts v w h = carry-Returns tok c ts _ v w refl h

-- A run from a new registered connection that ends has these outgoing bytes.
pub outgoing-carry :
    (tok : Token) (ts : List Traffic) (d : ServerConn)
    → AllWorking ts
    → length (encode_each (sent ts)) < 2 ^ 64
    → carry (record ServerConn.new { token = some tok }) ts ≡ ok d
    → outgoing d ≡ encode_each (sent ts)
unfolding joined
outgoing-carry tok ts d w h e =
    (subst (Returns (λ c. IsValid tok c × (outgoing c ≡ encode_each (sent ts)))) e (
      carry-Returns tok (record ServerConn.new { token = some tok }) ts (encode_each (sent ts))
        record { registered = refl; counted = refl; filled = tt; interested = refl } w refl h)).1

module _ ⦃S : TryRead⦄ (laws : ReadLaws S) where
  -- What the other end has decoded of what is written is a front part of the messages.
  abbrev pub Delivers : List Bytes → ServerConn → Type 0
  Delivers ms d =
      (decode Codec.new (outgoing d) ≡ (ms, Codec.new))
      × (later : List Bytes) × ((decode Codec.new d.sock).0 ++ later ≡ ms)

  -- On a new registered connection, over messages shorter than 2^32 bytes with frames of fewer
  -- than 2^64 bytes in all that are queued in any way between calls of `writable` on a socket
  -- that does not fail, nothing panics, the written and the queued bytes decode to exactly these
  -- messages in order, and what the other end has decoded so far is a front part of them.
  pub carry-Delivers :
      (tok : Token) (ts : List Traffic)
      → AllWorking ts
      → AllFit (sent ts)
      → length (encode_each (sent ts)) < 2 ^ 64
      → Returns (Delivers (sent ts)) (carry (record ServerConn.new { token = some tok }) ts)
  unfolding joined
  carry-Delivers tok ts w fit h =
      Returns-map (λ d. IsValid tok d × (outgoing d ≡ encode_each (sent ts))) (Delivers (sent ts)) _
        (carry-Returns tok (record ServerConn.new { token = some tok }) ts (encode_each (sent ts))
          record { registered = refl; counted = refl; filled = tt; interested = refl } w refl h)
        λ d q.
          let all = ap (decode Codec.new) q.1 ∙ decode-encode_each laws (sent ts) fit in
          (
            all,
            (decode (decode Codec.new d.sock).1 (joined d.res_bufs)).0,
            ap (λ (r : List Bytes × Codec.Framed). r.0)
                (sym (decode-append laws Codec.new d.sock (joined d.res_bufs) (omega arith)) ∙ all),
          )
