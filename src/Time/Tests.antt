-- ===== src/Time/Tests.antt =====
-- etime.c: runs, and the theorems at concrete inputs.
use libeasy.Prelude.{◌≡◌, refl, some}
use libeasy.Prelude.Int.{pos, negsuc, ◌+ℤ◌, ◌-ℤ◌, ◌*ℤ◌}
use libeasy.Time.{
  time_delta, time_signed_delta, difference, time_add, time_subtract, milliseconds, of_milliseconds,
}
use libeasy.Time.Order.{at}

add_test : time_add (at 5 999500) (pos 1) ≡ some (at 6 0)
unfolding time_add milliseconds of_milliseconds ◌+ℤ◌ ◌*ℤ◌
add_test = refl

-- Before the epoch the microseconds come out negative.
subtract_test : time_subtract (at 0 0) (pos 1) ≡ some (record { sec = pos 0; usec = negsuc 999 })
unfolding time_subtract milliseconds of_milliseconds ◌+ℤ◌ ◌-ℤ◌ ◌*ℤ◌
subtract_test = refl

delta_test : time_delta (at 5 999500) (at 7 0) ≡ some (pos 1001)
unfolding time_delta time_signed_delta difference ◌+ℤ◌ ◌-ℤ◌ ◌*ℤ◌
delta_test = refl

-- Twenty-five days are too many milliseconds for an int.
wrapped_test : time_signed_delta (at 2160000 0) (at 0 0) ≡ some (negsuc 2134967295)
unfolding time_signed_delta difference ◌+ℤ◌ ◌-ℤ◌ ◌*ℤ◌
wrapped_test = refl
