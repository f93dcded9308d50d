-- ===== src/Time/Order.antt =====
-- etime.c: `time_great` and `time_less`.
use libeasy.Prelude.{ℕ, ◌+◌, ◌*◌, ◌<◌, ◌≡◌, arith, ltb, if◌then◌else◌}
use libeasy.Prelude.Int.{ℤ, pos, negsuc}
use libeasy.Time.{Time, time_great, time_less}

-- 1 where the first number is greater, -1 where it is less, 0 where they are equal.
abbrev pub order_of : ℕ → ℕ → ℤ
order_of a b = if ltb b a then pos 1 else if ltb a b then negsuc 0 else pos 0

abbrev pub at : (s u : ℕ) → Time
at s u = record { sec = pos s; usec = pos u }

-- Between times since the epoch with less than a million microseconds `time_great` and `time_less`
-- answer the order of their microseconds in all.
pub time_great-order_of :
    (s1 u1 s2 u2 : ℕ)
    → u1 < 1000000
    → u2 < 1000000
    → (time_great (at s1 u1) (at s2 u2) ≡ order_of (s1 * 1000000 + u1) (s2 * 1000000 + u2))
      × (time_less (at s1 u1) (at s2 u2) ≡ order_of (s2 * 1000000 + u2) (s1 * 1000000 + u1))
unfolding time_great time_less
time_great-order_of s1 u1 s2 u2 h k = (ground arith, ground arith)
