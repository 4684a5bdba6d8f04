-- ===== src/Codec/Cuts.antt =====
-- `decode` of src/codec.rs against the machine of one byte, and on a stream that is cut.
use rasputin.Prelude.{
  ℕ, zero, suc, ◌-◌, ◌≡◌, ◌≤◌, ◌<◌, ap, sym, ◌∙◌, Bytes, Option, none, some, List, [], ◌∷◌, ◌++◌,
  arith, length, length-append, take, drop, eqb, Bool-cases, inl, inr,
}
use mathlib.Core.List.{append-nil}
use rasputin.Codec.{TryRead, ReadLaws, Framed, Partial, new, size_of, decode_loop, decode}
use rasputin.Codec.Feed.{
  Waits, IsWaiting, sized, filled_by, feed, feed_each, feed-IsWaiting, feed_each-append,
  feed_each-IsWaiting,
}
use rasputin.Codec.Rounds.{
  after_msg, after_size, take-nil, after_msg-cons, after_size-cons, after_msg-whole,
  after_size-whole, after_msg-again_lt, after_size-again,
}

module _ ⦃S : TryRead⦄ (laws : ReadLaws S) where
  decode_loop-some :
      (n : ℕ) (sz_buf : Bytes) (p : Partial) (buf : Bytes)
      → decode_loop (suc n) (record { sz_buf = sz_buf; msg = some p }) buf
        ≡ after_msg (decode_loop n new) sz_buf p buf
  unfolding decode_loop after_msg
  decode_loop-some n sz_buf p buf = ground (arith, laws.read_lem (p.size - length p.filled) buf)

  decode_loop-none :
      (n : ℕ) (sz_buf buf : Bytes)
      → decode_loop (suc n) (record { sz_buf = sz_buf; msg = none }) buf
        ≡ after_size (decode_loop n new) sz_buf buf
  unfolding decode_loop after_size
  decode_loop-none n sz_buf buf = ground (
    arith,
    laws.read_lem (4 - length sz_buf) buf,
    laws.read_lem (size_of (sz_buf ++ take (4 - length sz_buf) buf) - 0)
        (drop (4 - length sz_buf) buf),
  )

  decode_loop-fuel :
      (n m : ℕ) (buf : Bytes)
      → length buf < n
      → length buf < m
      → decode_loop n new buf ≡ decode_loop m new buf
  decode_loop-fuel zero m buf h k = elim h [ ]
  decode_loop-fuel (suc n) zero buf h k = elim k [ ]
  decode_loop-fuel (suc n) (suc m) buf h k =
      rw (decode_loop-none n [] buf, decode_loop-none m [] buf)
        (after_size-again (decode_loop n new) (decode_loop m new) [] buf
          (λ left l. decode_loop-fuel n m left (omega arith) (omega arith)) (omega arith))

  -- What the byte completes, and what the loop does with the others.
  followed : ℕ → List Bytes × Framed → Bytes → List Bytes × Framed
  followed n r xs = let s = decode_loop n r.1 xs in (r.0 ++ s.0, s.1)

  short_msg :
      (n : ℕ) (sz_buf : Bytes) (p : Partial) (xs : Bytes)
      → length p.filled < p.size
      → length xs < suc n
      → after_msg (decode_loop (suc n) new) sz_buf p xs
        ≡ decode_loop (suc n) (record { sz_buf = sz_buf; msg = some p }) xs
  short_msg n sz_buf p xs w h =
      after_msg-again_lt (decode_loop (suc n) new) (decode_loop n new) sz_buf p xs
        (λ left l. decode_loop-fuel (suc n) n left (omega arith) (omega arith)) w
      ∙ sym (decode_loop-some n sz_buf p xs)

  filled_by-followed :
      (n : ℕ) (sz_buf : Bytes) (p : Partial) (xs : Bytes)
      → length p.filled ≤ p.size
      → length xs < suc n
      → after_msg (decode_loop (suc n) new) sz_buf p xs ≡ followed (suc n) (filled_by sz_buf p) xs
  unfolding followed filled_by
  filled_by-followed n sz_buf p xs w h = elim (Bool-cases (eqb (length p.filled) p.size)) [
    | inl whole ↦ rw whole (after_msg-whole (decode_loop (suc n) new) sz_buf p xs (ground arith))
    | inr short ↦ rw short (short_msg n sz_buf p xs (ground arith) h)
  ]

  sized-followed :
      (n : ℕ) (sz_buf xs : Bytes)
      → length sz_buf ≤ 4
      → length xs < suc n
      → after_size (decode_loop (suc n) new) sz_buf xs ≡ followed (suc n) (sized sz_buf) xs
  unfolding followed sized
  sized-followed n sz_buf xs w h =
      let again = decode_loop (suc n) new in
      let p : Partial = record { filled = []; size = size_of sz_buf } in
      elim (Bool-cases (eqb (length sz_buf) 4)) [
        | inr short ↦ rw short (
            after_size-again again (decode_loop n new) sz_buf xs
              (λ left l. decode_loop-fuel (suc n) n left (omega arith) (omega arith)) (ground arith)
            ∙ sym (decode_loop-none n sz_buf xs))
        | inl whole ↦ rw whole (
            after_size-whole again sz_buf xs (ground arith)
            ∙ (elim (Bool-cases (eqb (size_of sz_buf) 0)) [
              | inl empty ↦ rw empty (after_msg-whole again sz_buf p xs (ground arith))
              | inr more ↦ rw more (short_msg n sz_buf p xs (ground arith) h)
            ]))
      ]

  decode_loop-cons :
      (n : ℕ) (sz_buf : Bytes) (msg : Option Partial) (x : ℕ) (xs : Bytes)
      → Waits sz_buf msg
      → length xs < suc n
      → decode_loop (suc (suc n)) (record { sz_buf = sz_buf; msg = msg }) (x ∷ xs)
        ≡ followed (suc n) (feed (record { sz_buf = sz_buf; msg = msg }) x) xs
  unfolding feed
  decode_loop-cons n sz_buf none x xs w h =
      decode_loop-none (suc n) sz_buf (x ∷ xs)
      ∙ after_size-cons (decode_loop (suc n) new) sz_buf x xs w
      ∙ sized-followed n (sz_buf ++ x ∷ []) xs (omega (arith, length-append sz_buf (x ∷ []))) h
  decode_loop-cons n sz_buf (some p) x xs w h =
      decode_loop-some (suc n) sz_buf p (x ∷ xs)
      ∙ after_msg-cons (decode_loop (suc n) new) sz_buf p x xs w
      ∙ filled_by-followed n sz_buf (record p { filled = p.filled ++ x ∷ [] }) xs
          (omega (arith, length-append p.filled (x ∷ []))) h

  decode_loop-nil :
      (n : ℕ) (sz_buf : Bytes) (msg : Option Partial)
      → Waits sz_buf msg
      → decode_loop (suc n) (record { sz_buf = sz_buf; msg = msg }) []
        ≡ ([], record { sz_buf = sz_buf; msg = msg })
  unfolding after_size after_msg
  decode_loop-nil n sz_buf none w =
      ground (
        arith,
        decode_loop-none n sz_buf [],
        take-nil {A = ℕ} (4 - length sz_buf),
        append-nil sz_buf,
      )
  decode_loop-nil n sz_buf (some p) w = ground (
    arith,
    decode_loop-some n sz_buf p [],
    take-nil {A = ℕ} (p.size - length p.filled),
    append-nil p.filled,
  )

module _ ⦃S : TryRead⦄ (laws : ReadLaws S) where
  decode_loop-feed_each :
      (n : ℕ) (f : Framed) (xs : Bytes)
      → IsWaiting f
      → length xs < suc n
      → decode_loop (suc n) f xs ≡ feed_each f xs
  unfolding feed_each followed
  decode_loop-feed_each n f [] w h = decode_loop-nil laws n f.sz_buf f.msg w
  decode_loop-feed_each zero f (x ∷ xs) w h = absurd (omega arith)
  decode_loop-feed_each (suc n) f (x ∷ xs) w h =
      decode_loop-cons laws n f.sz_buf f.msg x xs w (omega arith)
      ∙ ap (λ (r : List Bytes × Framed). ((feed f x).0 ++ r.0, r.1))
          (decode_loop-feed_each n (feed f x).1 xs (feed-IsWaiting f.sz_buf f.msg x w)
            (omega arith))

  pub decode-feed_each : (f : Framed) (buf : Bytes) → IsWaiting f → decode f buf ≡ feed_each f buf
  unfolding decode
  decode-feed_each f buf w = decode_loop-feed_each (length buf) f buf w (omega arith)

  -- Where a read from memory moves as many bytes as there are and fit, a decoder between two
  -- calls decodes a buffer as it does the two parts of it one after the other.
  pub decode-append :
      (f : Framed) (xs ys : Bytes)
      → IsWaiting f
      → decode f (xs ++ ys) ≡ (let r = decode f xs in let s = decode r.1 ys in (r.0 ++ s.0, s.1))
  decode-append f xs ys w =
      rw
        (
          decode-feed_each f (xs ++ ys) w,
          decode-feed_each f xs w,
          decode-feed_each (feed_each f xs).1 ys (feed_each-IsWaiting f xs w),
        )
        (feed_each-append f xs ys)
