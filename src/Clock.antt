-- ===== src/Clock.antt =====
-- src/clock.rs: `TestClock`, the clock that tests set. `RealClock` asks the operating system. The
-- fields of `time::Timespec` are an `i64` and an `i32`, kept by their bits.
pub mod Sleeps
use rasputin.Prelude.{
  ℕ, ◌+◌, ◌*◌, ◌/◌, ◌%◌, ◌^◌, ◌≤◌, ◌<◌, Bool, true, false, ◌&&◌, List, [], ◌∷◌, ltb, if◌then◌else◌,
}

-- `time::Timespec`
pub record Timespec : Type 0 where
  pub sec : ℕ
  pub nsec : ℕ

pub record TestClock : Type 0 where
  pub inner : Timespec

abbrev pub new : TestClock
new = record { inner = record { sec = 0; nsec = 0 } }

abbrev pub now : TestClock → Timespec
now self = self.inner

-- An `i32` above a constant that is not negative, by its bits.
abbrev pub i32_above : ℕ → ℕ → Bool
i32_above bound bits = ltb bits (2 ^ 31) && ltb bound bits

-- The milliseconds in nanoseconds, a `u32`.
abbrev pub nanos : ℕ → ℕ
nanos ms = ms % 1000000 * 1000000 % 2 ^ 32

-- The body of `sleep_ms`, from the seconds that there are and the nanoseconds that are summed.
unfoldable pub carry_over : ℕ → ℕ → Timespec
carry_over sec nsec =
    if i32_above 1000000000 nsec
    then record { sec = (sec + nsec / 1000000000) % 2 ^ 64; nsec = nsec % 1000000000 }
    else record { sec = sec; nsec = nsec }

unfoldable pub sleep_ms : TestClock → ℕ → TestClock
unfolding carry_over
sleep_ms self ms = record {
  inner = carry_over self.inner.sec ((self.inner.nsec + nanos ms) % 2 ^ 32);
}
