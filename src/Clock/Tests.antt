-- ===== src/Clock/Tests.antt =====
-- Times at concrete values (src/cros_clock.c).
use cros.Common.{if◌then◌else◌, ltb, none, pos, refl, some, ◌-◌, ◌^◌, ◌≡◌}
use cros.Clock.{get_time_ms, get_time_sec_usec, get_time_val, time_val}
use cros.Clock.Times.{get_time_ms-get_time_val}

get_time_ms-get_time_val_example :
    get_time_ms (some (get_time_val 1234567))
    ≡ (if ltb (2 ^ 64 - 1000) 1234567 then 2 ^ 64 - 1 else 1234567)
get_time_ms-get_time_val_example = get_time_ms-get_time_val 1234567

seconds : get_time_val 1234567 ≡ time_val (pos 1234) (pos 567000)
unfolding get_time_val
seconds = refl

-- The clock cannot be read.
no_time : get_time_ms none ≡ 0
unfolding get_time_ms get_time_sec_usec
no_time = refl
