-- ===== src/Codec/Rounds.antt =====
-- A round of the loop of `decode` of src/codec.rs, by what it reads.
use rasputin.Prelude.{
  ℕ, zero, suc, ◌-◌, ◌≡◌, ◌≤◌, ◌<◌, refl, sym, Bytes, none, some, true, List, [], ◌∷◌, ◌++◌, arith,
  length, length-append, length-take, length-drop, take, drop, eqb, if◌then◌else◌, Bool-cases, inl,
  inr,
}
use mathlib.Core.List.{append_assoc, append-nil}
use rasputin.Codec.{Framed, Partial, size_of}

pub take-nil {ℓ} : {A : Type ℓ} (n : ℕ) → take {A = A} n [] ≡ []
take-nil zero = refl
take-nil (suc n) = refl

-- A round of the loop in terms of `take` and `drop`, the rest of the loop given.
unfoldable pub after_msg :
    (Bytes → List Bytes × Framed) → Bytes → Partial → Bytes → List Bytes × Framed
after_msg again sz_buf p buf =
    let filled = p.filled ++ take (p.size - length p.filled) buf in
    let r = again (drop (p.size - length p.filled) buf) in
    if eqb (length filled) p.size
    then (filled ∷ r.0, r.1)
    else ([], record { sz_buf = sz_buf; msg = some (record p { filled = filled }) })

unfoldable pub after_size : (Bytes → List Bytes × Framed) → Bytes → Bytes → List Bytes × Framed
unfolding after_msg
after_size again sz_buf buf =
    let moved = sz_buf ++ take (4 - length sz_buf) buf in
    if eqb (length moved) 4
    then after_msg again moved (record { filled = []; size = size_of moved })
        (drop (4 - length sz_buf) buf)
    else ([], record { sz_buf = moved; msg = none })

snoc_take :
    (n : ℕ) (ys : Bytes) (x : ℕ) (xs : Bytes)
    → length ys < n
    → ys ++ take (n - length ys) (x ∷ xs) ≡ (ys ++ x ∷ []) ++ take (n - length (ys ++ x ∷ [])) xs
snoc_take n ys x xs h =
    let e : n - length ys ≡ suc (n - length (ys ++ x ∷ [])) =
      omega (arith, length-append ys (x ∷ [])) in
    rw e (sym (append_assoc ys (x ∷ []) _))

snoc_drop :
    (n : ℕ) (ys : Bytes) (x : ℕ) (xs : Bytes)
    → length ys < n
    → drop (n - length ys) (x ∷ xs) ≡ drop (n - length (ys ++ x ∷ [])) xs
snoc_drop n ys x xs h =
    let e : n - length ys ≡ suc (n - length (ys ++ x ∷ [])) =
      omega (arith, length-append ys (x ∷ [])) in
    rw e refl

pub after_msg-cons :
    (again : Bytes → List Bytes × Framed) (sz_buf : Bytes) (p : Partial) (x : ℕ) (xs : Bytes)
    → length p.filled < p.size
    → after_msg again sz_buf p (x ∷ xs)
      ≡ after_msg again sz_buf (record p { filled = p.filled ++ x ∷ [] }) xs
unfolding after_msg
after_msg-cons again sz_buf p x xs h =
    rw (snoc_take p.size p.filled x xs h, snoc_drop p.size p.filled x xs h) refl

pub after_size-cons :
    (again : Bytes → List Bytes × Framed) (sz_buf : Bytes) (x : ℕ) (xs : Bytes)
    → length sz_buf < 4
    → after_size again sz_buf (x ∷ xs) ≡ after_size again (sz_buf ++ x ∷ []) xs
unfolding after_size
after_size-cons again sz_buf x xs h = rw (snoc_take 4 sz_buf x xs h, snoc_drop 4 sz_buf x xs h) refl

pub after_msg-whole :
    (again : Bytes → List Bytes × Framed) (sz_buf : Bytes) (p : Partial) (buf : Bytes)
    → length p.filled ≡ p.size
    → after_msg again sz_buf p buf ≡ (p.filled ∷ (again buf).0, (again buf).1)
unfolding after_msg
after_msg-whole again sz_buf p buf whole =
    let e : p.size - length p.filled ≡ 0 = omega arith in
    let t : eqb (length p.filled) p.size ≡ true = ground arith in
    rw (e, append-nil p.filled, t) refl

pub after_size-whole :
    (again : Bytes → List Bytes × Framed) (sz_buf buf : Bytes)
    → length sz_buf ≡ 4
    → after_size again sz_buf buf
      ≡ after_msg again sz_buf (record { filled = []; size = size_of sz_buf }) buf
unfolding after_size
after_size-whole again sz_buf buf whole =
    let e : 4 - length sz_buf ≡ 0 = omega arith in
    let t : eqb (length sz_buf) 4 ≡ true = ground arith in rw (e, append-nil sz_buf, t) refl

-- What is left after a message, or a size, that was not whole is shorter.
after_msg-again :
    (f g : Bytes → List Bytes × Framed) (n : ℕ) (sz_buf : Bytes) (p : Partial) (buf : Bytes)
    → ((left : Bytes) → length left ≤ n → f left ≡ g left)
    → length buf ≤ n
    → after_msg f sz_buf p buf ≡ after_msg g sz_buf p buf
unfolding after_msg
after_msg-again f g n sz_buf p buf same h =
    rw
      (same (drop (p.size - length p.filled) buf)
        (omega (arith, length-drop (p.size - length p.filled) buf)))
      refl

-- So it is after a message that lacks a byte at least.
pub after_msg-again_lt :
    (f g : Bytes → List Bytes × Framed) (sz_buf : Bytes) (p : Partial) (buf : Bytes)
    → ((left : Bytes) → length left < length buf → f left ≡ g left)
    → length p.filled < p.size
    → after_msg f sz_buf p buf ≡ after_msg g sz_buf p buf
unfolding after_msg
after_msg-again_lt f g sz_buf p buf same h =
    let n = p.size - length p.filled in
    elim (Bool-cases (eqb (length (p.filled ++ take n buf)) p.size)) [
      | inr short ↦ rw short refl
      | inl whole ↦
          rw
            (
              whole,
              same (drop n buf) (
                  ground (
                    arith,
                    length-drop n buf,
                    length-take n buf,
                    length-append p.filled (take n buf),
                  )),
            )
            refl
    ]

pub after_size-again :
    (f g : Bytes → List Bytes × Framed) (sz_buf buf : Bytes)
    → ((left : Bytes) → length left < length buf → f left ≡ g left)
    → length sz_buf < 4
    → after_size f sz_buf buf ≡ after_size g sz_buf buf
unfolding after_size
after_size-again f g sz_buf buf same h =
    let n = 4 - length sz_buf in
    elim (Bool-cases (eqb (length (sz_buf ++ take n buf)) 4)) [
      | inr short ↦ rw short refl
      | inl whole ↦
          let some_read : n ≤ length buf =
            ground (arith, length-take n buf, length-append sz_buf (take n buf)) in
          rw whole (
            after_msg-again f g (length buf - n) (sz_buf ++ take n buf)
              (record { filled = []; size = size_of (sz_buf ++ take n buf) }) (drop n buf)
              (λ left k. same left (omega (arith, k))) (omega (arith, length-drop n buf)))
    ]
