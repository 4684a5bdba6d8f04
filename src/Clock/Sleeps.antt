-- ===== src/Clock/Sleeps.antt =====
-- The time that `TestClock` of src/clock.rs shows after some sleeps.
use rasputin.Prelude.{ℕ, ◌+◌, ◌*◌, ◌%◌, ◌^◌, ◌≤◌, ◌<◌, ◌≡◌, ◌∙◌, List, [], ◌∷◌, length, arith}
use rasputin.Clock.{Timespec, TestClock, now, nanos, carry_over, sleep_ms}

abbrev pub total : Timespec → ℕ
total t = t.sec * 1000000000 + t.nsec

-- No more than a whole second of nanoseconds.
abbrev pub IsNormal : Timespec → Type 0
IsNormal t = t.nsec ≤ 1000000000

carry_over-total :
    (sec nsec : ℕ)
    → nsec < 2 ^ 31
    → sec + 3 < 2 ^ 63
    → IsNormal (carry_over sec nsec)
      × (total (carry_over sec nsec) ≡ sec * 1000000000 + nsec)
      × ((carry_over sec nsec).sec ≤ sec + 3)
unfolding carry_over
carry_over-total sec nsec small room = ground arith

nanos-short : (ms : ℕ) → ms ≤ 1147 → nanos ms ≡ ms * 1000000
nanos-short ms short = omega arith

sleep_ms-total :
    (c : TestClock) (ms : ℕ)
    → IsNormal (now c)
    → ms ≤ 1147
    → (now c).sec + 3 < 2 ^ 63
    → let d = sleep_ms c ms in
      IsNormal (now d)
      × (total (now d) ≡ total (now c) + ms * 1000000)
      × ((now d).sec ≤ (now c).sec + 3)
unfolding sleep_ms
sleep_ms-total c ms normal short room =
    let summed : (c.inner.nsec + nanos ms) % 2 ^ 32 ≡ c.inner.nsec + ms * 1000000 = omega arith in
    rw summed (
      let q = carry_over-total c.inner.sec (c.inner.nsec + ms * 1000000) (omega arith) room in
      (q.0, q.1 ∙ omega arith, q.2))

-- Sleeps one after the other, and their milliseconds.
unfoldable pub sleeps : TestClock → List ℕ → TestClock
sleeps c [] = c
sleeps c (ms ∷ rest) = sleeps (sleep_ms c ms) rest

unfoldable pub elapsed : List ℕ → ℕ
elapsed [] = 0
elapsed (ms ∷ rest) = ms + elapsed rest

abbrev pub AllShort : List ℕ → Type 0
AllShort [] = Unit {0}
AllShort (ms ∷ rest) = (ms ≤ 1147) × AllShort rest

-- From at most a whole second of nanoseconds on, sleeps of at most 1147 ms each move the clock by
-- exactly their sum, and leave at most a whole second of nanoseconds, while the seconds stay
-- below 2^63.
pub sleeps-total :
    (c : TestClock) (mss : List ℕ)
    → IsNormal (now c)
    → AllShort mss
    → (now c).sec + 3 * length mss < 2 ^ 63
    → let d = sleeps c mss in
      IsNormal (now d) × (total (now d) ≡ total (now c) + elapsed mss * 1000000)
unfolding sleeps elapsed
sleeps-total c [] normal short room = (normal, omega arith)
sleeps-total c (ms ∷ rest) normal short room =
    let one = sleep_ms-total c ms normal short.0 (omega arith) in
    let q = sleeps-total (sleep_ms c ms) rest one.0 short.1 (omega (arith, one.2)) in
    (q.0, q.1 ∙ omega (arith, one.1))
