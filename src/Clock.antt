-- ===== src/Clock.antt =====
-- Times (src/cros_clock.c), for a 64-bit `long`. Reading the system's clock is a parameter.
use cros.Common.{
  Option, add_size, if◌then◌else◌, ltb, mul_size, negsuc, none, pos, size_of_int, some, sub_size,
  suc, ℕ, ℤ, ◌*◌, ◌-◌, ◌/◌, ◌^◌,
}
pub mod Times
mod Tests

pub record TimeVal : Type 0 where
  pub tv_sec : ℤ
  pub tv_usec : ℤ

abbrev pub time_val : ℤ → ℤ → TimeVal
time_val sec usec = record { tv_sec = sec; tv_usec = usec }

abbrev pub long_max : ℕ
long_max = 2 ^ 63 - 1

-- `(long)x` for a 64-bit unsigned x.
abbrev pub long_of_size : ℕ → ℤ
long_of_size n = if ltb n (2 ^ 63) then pos n else negsuc (2 ^ 64 - n - 1)

-- `x * suc k` for a `long` x, where the product fits.
abbrev pub times_suc : ℤ → ℕ → ℤ
times_suc (pos n) k = pos (n * suc k)
times_suc (negsuc n) k = negsuc (suc n * suc k - 1)

-- What gettimeofday gives, or none when it fails.
unfoldable pub get_time_sec_usec : Option TimeVal → TimeVal
get_time_sec_usec none = time_val (pos 0) (pos 0)
get_time_sec_usec (some now) = now

unfoldable pub get_time_ms : Option TimeVal → ℕ
get_time_ms now =
    let tv = get_time_sec_usec now in
    add_size (mul_size (size_of_int tv.tv_sec) 1000) (size_of_int tv.tv_usec / 1000)

unfoldable pub get_time_val : ℕ → TimeVal
get_time_val msec =
    if ltb (mul_size long_max 1000) msec
    then time_val (pos long_max) (pos 999999)
    else let sec = long_of_size (msec / 1000) in
      time_val sec (times_suc (long_of_size (sub_size msec (mul_size (size_of_int sec) 1000))) 999)
