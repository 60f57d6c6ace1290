-- ===== src/Clock/Times.antt =====
-- Milliseconds to a timeval and back (src/cros_clock.c).
use native.Mathlib.Decide.{dec_lt}
use cros.Common.{
  arith, if◌then◌else◌, le→ltb_false, ltb, lt→ltb, mul_size, pos, refl, some, sub_size, ℕ, ◌%◌, ◌*◌,
  ◌-◌, ◌/◌, ◌<◌, ◌^◌, ◌≡◌, ◌≤◌,
}
use cros.Clock.{get_time_ms, get_time_sec_usec, get_time_val, long_of_size, time_val}

long_of_size-small : (n : ℕ) → n < 2 ^ 63 → long_of_size n ≡ pos n
long_of_size-small n h = rw (lt→ltb n (2 ^ 63) h) refl

rest_of_seconds :
    (msec : ℕ) → msec < 2 ^ 64 → sub_size msec (mul_size (msec / 1000) 1000) ≡ msec % 1000
rest_of_seconds msec h = omega arith

-- A number of milliseconds up to 2^64 - 1000 becomes its seconds, and the rest in microseconds.
pub get_time_val-parts :
    (msec : ℕ)
    → msec ≤ 2 ^ 64 - 1000
    → get_time_val msec ≡ time_val (pos (msec / 1000)) (pos (msec % 1000 * 1000))
unfolding get_time_val
get_time_val-parts msec h =
    rw
      (
        le→ltb_false (2 ^ 64 - 1000) msec h,
        long_of_size-small (msec / 1000) (omega arith),
        rest_of_seconds msec (omega arith),
        long_of_size-small (msec % 1000) (omega arith),
      )
      refl

-- The milliseconds of a timeval made from any 64-bit number of milliseconds are that number up
-- to 2^64 - 1000, and 2^64 - 1 above.
pub get_time_ms-get_time_val :
    (msec : ℕ)
    → get_time_ms (some (get_time_val msec))
      ≡ (if ltb (2 ^ 64 - 1000) msec then 2 ^ 64 - 1 else msec)
unfolding get_time_ms get_time_sec_usec get_time_val
get_time_ms-get_time_val msec = elim (dec_lt (2 ^ 64 - 1000) msec) [
  | yes h ↦ rw (lt→ltb (2 ^ 64 - 1000) msec h) refl
  | no h ↦
      rw (get_time_val-parts msec (omega arith), le→ltb_false (2 ^ 64 - 1000) msec (omega arith))
        (omega arith)
]
