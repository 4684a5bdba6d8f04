-- ===== src/ServerConn/Writing.antt =====
-- What src/server/server_conn.rs writes to a socket, over any sequence of messages that are queued
-- and of calls of `writable`.
use rasputin.Prelude.{
  ℕ, ◌+◌, ◌^◌, ◌≡◌, ◌<◌, refl, ap, sym, ◌∙◌, Bytes, Bool, true, false, some, List, [], ◌∷◌, ◌++◌,
  unwrap, Returns, min, length, ltb, ◌||◌, take, drop, take-append-drop, length-append, length-drop,
  arith,
}
use mathlib.Core.Path.{subst}
use mathlib.Core.List.{append_assoc, append-nil}
use rasputin.Roles.{Token}
use rasputin.Codec.{encode}
use rasputin.ServerConn.{
  ServerConn, IoResult, WriteAnswer, write_blocked, room, write_failed, usize_sub, count_written,
  push_back, writable, queue_frame,
}

-- The bytes that are queued, in order.
unfoldable pub joined : List Bytes → Bytes
joined [] = []
joined (b ∷ bs) = b ++ joined bs

-- All that was or will be written.
abbrev pub outgoing : ServerConn → Bytes
outgoing c = c.sock ++ joined c.res_bufs

joined-append : (xs ys : List Bytes) → joined (xs ++ ys) ≡ joined xs ++ joined ys
unfolding joined
joined-append [] ys = refl
joined-append (x ∷ xs) ys = rw (joined-append xs ys) (sym (append_assoc x (joined xs) (joined ys)))

abbrev pub AllFilled : List Bytes → Type 0
AllFilled [] = Unit {0}
AllFilled (b ∷ bs) = (0 < length b) × AllFilled bs

abbrev pub is_queued : List Bytes → Bool
is_queued [] = false
is_queued (b ∷ bs) = true

-- A registered connection whose count is that of the queued bytes, and that asks to write while
-- there are any.
pub record IsValid (tok : Token) (c : ServerConn) : Type 0 where
  pub registered : c.token ≡ some tok
  pub counted : c.res_remaining ≡ length (joined c.res_bufs)
  pub filled : AllFilled c.res_bufs
  pub interested : c.interest.writable ≡ is_queued c.res_bufs

-- A socket that does not fail.
abbrev pub IsWorking : WriteAnswer → Type 0
IsWorking (write_failed e) = ⊥
IsWorking _ = Unit

push_back-Returns :
    (tok : Token) (c : ServerConn) (left out : Bytes) (registered : IoResult (Unit {0}))
    → c.token ≡ some tok
    → c.res_remaining ≡ length left + length (joined c.res_bufs)
    → AllFilled c.res_bufs
    → c.interest.writable ≡ (ltb 0 (length left) || is_queued c.res_bufs)
    → c.sock ++ (left ++ joined c.res_bufs) ≡ out
    → Returns (λ r. IsValid tok r.0 × (outgoing r.0 ≡ out)) (push_back c left registered)
unfolding push_back joined
push_back-Returns tok c [] out registered t n f w e =
    simp (t, unwrap)
      (record { registered = t; counted = omega arith; filled = f; interested = w }, e)
push_back-Returns tok c (b ∷ bs) out registered t n f w e =
    simp (t, unwrap)
      (
        record {
          registered = refl;
          counted = omega (arith, n, length-append (b ∷ bs) (joined c.res_bufs));
          filled = (omega arith, f);
          interested = ground arith;
        },
        e,
      )

AllFilled-queued : (bs : List Bytes) → AllFilled bs → is_queued bs ≡ ltb 0 (length (joined bs))
unfolding joined
AllFilled-queued [] f = refl
AllFilled-queued (b ∷ bs) f = ground (arith, length-append b (joined bs))

counted_cons :
    (tok : Token) (c : ServerConn) (b : Bytes) (bs : List Bytes)
    → c.res_bufs ≡ b ∷ bs
    → IsValid tok c
    → c.res_remaining ≡ length b + length (joined bs)
unfolding joined
counted_cons tok c b bs e v =
    omega
      (arith, v.counted, ap (λ (l : List Bytes). length (joined l)) e, length-append b (joined bs))

write_front :
    (sock : Bytes) (n : ℕ) (b rest : Bytes)
    → (sock ++ take n b) ++ (drop n b ++ rest) ≡ sock ++ (b ++ rest)
write_front sock n b rest =
    append_assoc sock (take n b) _
    ∙ ap (λ (t : Bytes). sock ++ t)
        (sym (append_assoc (take n b) (drop n b) rest)
          ∙ ap (λ (t : Bytes). t ++ rest) (take-append-drop n b))

pub writable-Returns :
    (tok : Token) (c : ServerConn) (bufs : List Bytes) (answer : WriteAnswer)
    (registered : IoResult (Unit {0}))
    → c.res_bufs ≡ bufs
    → IsValid tok c
    → c.res_remaining < 2 ^ 64
    → IsWorking answer
    → Returns (λ r. IsValid tok r.0 × (outgoing r.0 ≡ outgoing c)) (writable c answer registered)
unfolding writable joined
writable-Returns tok c [] answer registered e v h k = ground arith
writable-Returns tok c (b ∷ bs) write_blocked registered e v h k = rw e (
    push_back-Returns tok
      (record c { res_bufs = bs; interest = record c.interest { writable = true } }) b
      (c.sock ++ (b ++ joined bs)) registered v.registered (counted_cons tok c b bs e v)
      (subst AllFilled e v.filled).1 (let f = (subst AllFilled e v.filled).0 in ground arith) refl)
writable-Returns tok c (b ∷ bs) (write_failed x) registered e v h k = elim k [ ]
writable-Returns tok c (b ∷ bs) (room n) registered e v h k =
    let r = min n (length b) in
    let filled : (0 < length b) × AllFilled bs = subst AllFilled e v.filled in
    let asks : c.interest.writable ≡ true = v.interested ∙ ap is_queued e in
    let left : usize_sub c.res_remaining r ≡ length (drop r b) + length (joined bs) =
      omega (arith, counted_cons tok c b bs e v, length-drop r b) in
    rw e (
      push_back-Returns tok
        (count_written (record c { res_bufs = bs; sock = c.sock ++ take r b }) r) (drop r b)
        (c.sock ++ (b ++ joined bs)) registered v.registered left filled.1
        (ground (arith, AllFilled-queued bs filled.1, left, asks))
        (write_front c.sock r b (joined bs)))

joined_snoc : (bs : List Bytes) (b : Bytes) → joined (bs ++ b ∷ []) ≡ joined bs ++ b
unfolding joined
joined_snoc bs b = joined-append bs (b ∷ []) ∙ ap (λ (t : Bytes). joined bs ++ t) (append-nil b)

AllFilled-snoc :
    (bs : List Bytes) (b : Bytes) → AllFilled bs → 0 < length b → AllFilled (bs ++ b ∷ [])
AllFilled-snoc [] b f h = (h, tt)
AllFilled-snoc (x ∷ xs) b f h = (f.0, AllFilled-snoc xs b f.1 h)

is_queued_snoc : (bs : List Bytes) (b : Bytes) → is_queued (bs ++ b ∷ []) ≡ true
is_queued_snoc [] b = refl
is_queued_snoc (x ∷ xs) b = refl

encode_pos : (msg : Bytes) → 0 < length (encode msg)
unfolding encode
encode_pos msg = omega arith

pub queue_frame-IsValid :
    (tok : Token) (c : ServerConn) (msg : Bytes)
    → IsValid tok c
    → c.res_remaining + length (encode msg) < 2 ^ 64
    → IsValid tok (queue_frame c msg) × (outgoing (queue_frame c msg) ≡ outgoing c ++ encode msg)
unfolding queue_frame
queue_frame-IsValid tok c msg v h = (
  record {
    registered = v.registered;
    counted = omega (
      arith,
      v.counted,
      ap (length {A = ℕ}) (joined_snoc c.res_bufs (encode msg)),
      length-append (joined c.res_bufs) (encode msg),
    );
    filled = AllFilled-snoc c.res_bufs (encode msg) v.filled (encode_pos msg);
    interested = sym (is_queued_snoc c.res_bufs (encode msg));
  },
  ap (λ (t : Bytes). c.sock ++ t) (joined_snoc c.res_bufs (encode msg))
      ∙ sym (append_assoc c.sock (joined c.res_bufs) (encode msg)),
)
