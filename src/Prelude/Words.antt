-- ===== src/Prelude/Words.antt =====
-- C integers as numbers of `ℤ`: the 32-bit `int`.
use libeasy.Prelude.{ℕ, ◌-◌, ◌%◌, ◌^◌, ◌<◌, ◌≡◌, arith, ltb, if◌then◌else◌}
use libeasy.Prelude.Int.{ℤ, pos, negsuc}

-- The `int` with a bit pattern below 2 ^ 32.
abbrev pub signed32 : ℕ → ℤ
signed32 w = if ltb w (2 ^ 31) then pos w else negsuc (2 ^ 32 - w - 1)

-- The conversion of a number that is not negative to `int`.
abbrev pub to_int : ℕ → ℤ
to_int n = signed32 (n % 2 ^ 32)

pub to_int_small : (n : ℕ) → n < 2 ^ 31 → to_int n ≡ pos n
to_int_small n h = ground arith
