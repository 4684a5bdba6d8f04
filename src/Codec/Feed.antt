-- ===== src/Codec/Feed.antt =====
-- The decoder of src/codec.rs as a machine that takes one byte at a time.
use rasputin.Prelude.{
  ℕ, ◌≡◌, ◌<◌, refl, ap, sym, Bytes, Option, none, some, List, [], ◌∷◌, ◌++◌, arith, length,
  length-append, eqb, if◌then◌else◌,
}
use mathlib.Core.List.{append_assoc}
use rasputin.Codec.{Framed, Partial, new, size_of}

-- A decoder between two calls: it waits for a byte of the size, or for one of the message.
abbrev pub Waits : Bytes → Option Partial → Type 0
Waits sz_buf none = length sz_buf < 4
Waits sz_buf (some p) = length p.filled < p.size

abbrev pub IsWaiting : Framed → Type 0
IsWaiting f = Waits f.sz_buf f.msg

-- What a byte adds to a size that is not whole yet, and to a message.
unfoldable pub sized : Bytes → List Bytes × Framed
sized sz_buf =
    if eqb (length sz_buf) 4
    then if eqb (size_of sz_buf) 0 then ([] ∷ [], new) else (
      [],
      record { sz_buf = sz_buf; msg = some (record { filled = []; size = size_of sz_buf }) },
    )
    else ([], record { sz_buf = sz_buf; msg = none })

unfoldable pub filled_by : Bytes → Partial → List Bytes × Framed
filled_by sz_buf p =
    if eqb (length p.filled) p.size
    then (p.filled ∷ [], new)
    else ([], record { sz_buf = sz_buf; msg = some p })

-- The machine: the messages that a byte completes, and the decoder after it.
unfoldable pub feed : Framed → ℕ → List Bytes × Framed
unfolding sized filled_by
feed f b = elim f.msg [
  | none ↦ sized (f.sz_buf ++ b ∷ [])
  | some p ↦ filled_by f.sz_buf (record p { filled = p.filled ++ b ∷ [] })
]

unfoldable pub feed_each : Framed → Bytes → List Bytes × Framed
feed_each f [] = ([], f)
feed_each f (b ∷ rest) = let r = feed f b in let s = feed_each r.1 rest in (r.0 ++ s.0, s.1)

pub feed-IsWaiting :
    (sz_buf : Bytes) (msg : Option Partial) (b : ℕ)
    → Waits sz_buf msg
    → IsWaiting (feed (record { sz_buf = sz_buf; msg = msg }) b).1
unfolding feed
feed-IsWaiting sz_buf none b w = ground (arith, length-append sz_buf (b ∷ []))
feed-IsWaiting sz_buf (some p) b w = ground (arith, length-append p.filled (b ∷ []))

pub feed_each-append :
    (f : Framed) (xs ys : Bytes)
    → feed_each f (xs ++ ys)
      ≡ (let r = feed_each f xs in let s = feed_each r.1 ys in (r.0 ++ s.0, s.1))
unfolding feed_each
feed_each-append f [] ys = refl
feed_each-append f (x ∷ xs) ys = rw (feed_each-append (feed f x).1 xs ys) (
    ap (λ (o : List Bytes). (o, (feed_each (feed_each (feed f x).1 xs).1 ys).1))
      (sym (append_assoc (feed f x).0 _ _)))

pub feed_each-IsWaiting : (f : Framed) (xs : Bytes) → IsWaiting f → IsWaiting (feed_each f xs).1
unfolding feed_each
feed_each-IsWaiting f [] w = w
feed_each-IsWaiting f (x ∷ xs) w =
    feed_each-IsWaiting (feed f x).1 xs (feed-IsWaiting f.sz_buf f.msg x w)
