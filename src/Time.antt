-- ===== src/Time.antt =====
-- src/glb_time.h: times as elapsed nanoseconds and as seconds with nanoseconds. A time is not
-- negative and does not reach 2^63, so a `long long` is a number here.
use glb.Common.{ℕ, ◌+◌, ◌*◌, ◌/◌, ◌%◌, ◌^◌, ◌≡◌, ◌<◌, ◌≤◌, arith}

pub record Timespec : Type 0 where
  pub tv_sec : ℕ
  pub tv_nsec : ℕ

abbrev pub second : ℕ
second = 1_000_000_000

-- `gettimeofday` gives `tv_sec` and `tv_usec`.
unfoldable pub time_now : ℕ → ℕ → ℕ
time_now tv_sec tv_usec = tv_sec * second + tv_usec * 1000

unfoldable pub timespec_now : ℕ → ℕ → Timespec
timespec_now tv_sec tv_usec = record { tv_sec = tv_sec; tv_nsec = tv_usec * 1000 }

unfoldable pub timespec_add : Timespec → ℕ → Timespec
timespec_add t i = record {
  tv_sec = t.tv_sec + (i + t.tv_nsec) / second;
  tv_nsec = (i + t.tv_nsec) % second;
}

unfoldable pub time_to_timespec : ℕ → Timespec
time_to_timespec t = record { tv_sec = t / second; tv_nsec = t % second }

-- `t >> 30`
unfoldable pub time_approx_seconds : ℕ → ℕ
time_approx_seconds t = t / 2 ^ 30

-- What a `timespec` stands for, in nanoseconds.
abbrev pub nanoseconds : Timespec → ℕ
nanoseconds t = t.tv_sec * second + t.tv_nsec

-- Adding an interval to a date adds it to the nanoseconds that the date stands for, and the
-- nanosecond field of the result is below one second, whatever it was before.
pub timespec_add_exact :
    (t : Timespec) (i : ℕ)
    → (nanoseconds (timespec_add t i) ≡ nanoseconds t + i) × ((timespec_add t i).tv_nsec < second)
unfolding timespec_add
timespec_add_exact t i = omega arith

-- The two clocks agree: the elapsed time, converted, is the date, for a microsecond field below one
-- second.
pub time_to_timespec-now :
    (s u : ℕ) → u < 1_000_000 → time_to_timespec (time_now s u) ≡ timespec_now s u
unfolding time_to_timespec time_now timespec_now
time_to_timespec-now s u h = ground arith

-- The approximate seconds are at most the seconds, and one more of them makes nine tenths of the time.
time_approx_seconds_bounds :
    (t : ℕ)
    → (time_approx_seconds t * second ≤ t) × (9 * t < 10 * (time_approx_seconds t + 1) * second)
unfolding time_approx_seconds
time_approx_seconds_bounds t = omega arith
