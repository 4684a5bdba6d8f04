-- ===== src/Examples/Characters.antt =====
-- A text as the numbers of its characters.
use rasputin.Prelude.{ℕ, ◌≡◌, refl, String, Bytes, [], ◌∷◌}
use Prim.Native.Nat.{Ordering, compare}
use Prim.Native.Char.{Char, char, code, nul, IsScalar}
use Prim.Native.String.{[] as []ˢ, ◌∷◌ as ◌∷ˢ◌}
use text.Mathlib.TextEquality.{Char-path}

char_at :
    (n : ℕ) (a b c : Ordering)
    → compare n 55296 ≡ a
    → compare 57343 n ≡ b
    → compare n 1114112 ≡ c
    → Char
char_at n Ordering.lt b c p q r = char n (rw p tt)
char_at n Ordering.eq Ordering.lt Ordering.lt p q r = char n (rw (p, q, r) tt)
char_at n Ordering.gt Ordering.lt Ordering.lt p q r = char n (rw (p, q, r) tt)
char_at n _ _ _ p q r = nul

abbrev to_char : ℕ → Char
to_char n = char_at n (compare n 55296) (compare 57343 n) (compare n 1114112) refl refl refl

code-char_at :
    (n : ℕ) (a b c : Ordering) (p : compare n 55296 ≡ a) (q : compare 57343 n ≡ b)
    (r : compare n 1114112 ≡ c)
    → IsScalar n
    → code (char_at n a b c p q r) ≡ n
unfolding char_at
code-char_at n Ordering.lt b c p q r s = refl
code-char_at n Ordering.eq Ordering.lt Ordering.lt p q r s = refl
code-char_at n Ordering.eq Ordering.lt Ordering.eq p q r s =
    let f : IsScalar n → ⊥ = rw (p, q, r) (λ e. e) in absurd (f s)
code-char_at n Ordering.eq Ordering.lt Ordering.gt p q r s =
    let f : IsScalar n → ⊥ = rw (p, q, r) (λ e. e) in absurd (f s)
code-char_at n Ordering.eq Ordering.eq c p q r s =
    let f : IsScalar n → ⊥ = rw (p, q) (λ e. e) in absurd (f s)
code-char_at n Ordering.eq Ordering.gt c p q r s =
    let f : IsScalar n → ⊥ = rw (p, q) (λ e. e) in absurd (f s)
code-char_at n Ordering.gt Ordering.lt Ordering.lt p q r s = refl
code-char_at n Ordering.gt Ordering.lt Ordering.eq p q r s =
    let f : IsScalar n → ⊥ = rw (p, q, r) (λ e. e) in absurd (f s)
code-char_at n Ordering.gt Ordering.lt Ordering.gt p q r s =
    let f : IsScalar n → ⊥ = rw (p, q, r) (λ e. e) in absurd (f s)
code-char_at n Ordering.gt Ordering.eq c p q r s =
    let f : IsScalar n → ⊥ = rw (p, q) (λ e. e) in absurd (f s)
code-char_at n Ordering.gt Ordering.gt c p q r s =
    let f : IsScalar n → ⊥ = rw (p, q) (λ e. e) in absurd (f s)

unfoldable pub codes : String → Bytes
codes []ˢ = []
codes (c ∷ˢ s) = code c ∷ codes s

pub from_codes : Bytes → String
from_codes [] = []ˢ
from_codes (n ∷ b) = to_char n ∷ˢ from_codes b

pub from_codes-codes : (s : String) → from_codes (codes s) ≡ s
unfolding from_codes codes
from_codes-codes []ˢ = refl
from_codes-codes (char n p ∷ˢ s) =
    rw
      (Char-path (to_char n) (char n p) (code-char_at n _ _ _ refl refl refl p), from_codes-codes s)
      refl
