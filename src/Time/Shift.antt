-- ===== src/Time/Shift.antt =====
-- etime.c: `time_add` and `time_subtract`.
use libeasy.Prelude.{ℕ, ◌+◌, ◌-◌, ◌*◌, ◌/◌, ◌%◌, ◌^◌, ◌<◌, ◌≤◌, ◌≡◌, ap, ap₂, ◌∙◌, some, arith}
use libeasy.Prelude.Fault.{◌>>=◌}
use libeasy.Prelude.Int.{pos, ◌+ℤ◌, ◌-ℤ◌, ◌*ℤ◌}
use libeasy.Time.{long, milliseconds, of_milliseconds, time_add, time_subtract}
use libeasy.Time.Order.{at}

long_small : (n : ℕ) → n < 2 ^ 63 → long (pos n) ≡ some (pos n)
long_small n h = ground arith

pos_sum : (m n : ℕ) → pos m +ℤ pos n ≡ pos (m + n)
unfolding ◌+ℤ◌
pos_sum m n = ground arith

pos_difference : (m n : ℕ) → n ≤ m → pos m -ℤ pos n ≡ pos (m - n)
unfolding ◌-ℤ◌
pos_difference m n h = ground arith

pos_product : (m : ℕ) → pos m *ℤ pos 1000 ≡ pos (m * 1000)
unfolding ◌*ℤ◌
pos_product m = ground arith

milliseconds-at :
    (s u : ℕ)
    → s * 1000 + u / 1000 < 2 ^ 63
    → milliseconds (at s u) ≡ some (pos (s * 1000 + u / 1000))
unfolding milliseconds
milliseconds-at s u h =
    ap (λ p. long p >>= λ m. long (m +ℤ pos (u / 1000))) (pos_product s)
    ∙ ap (λ r. r >>= λ m. long (m +ℤ pos (u / 1000))) (long_small (s * 1000) (omega arith))
    ∙ ap long (pos_sum (s * 1000) (u / 1000))
    ∙ long_small (s * 1000 + u / 1000) h

of_milliseconds_pos : (t : ℕ) → of_milliseconds (pos t) ≡ at (t / 1000) (t % 1000 * 1000)
unfolding of_milliseconds
of_milliseconds_pos t = ap (λ u. record { sec = pos (t / 1000); usec = u }) (pos_product (t % 1000))

time_add-at :
    (s u n : ℕ)
    → s * 1000 + u / 1000 + n < 2 ^ 63
    → time_add (at s u) (pos n)
      ≡ some (at ((s * 1000 + u / 1000 + n) / 1000) ((s * 1000 + u / 1000 + n) % 1000 * 1000))
unfolding time_add
time_add-at s u n h =
    ap (λ r. r >>= λ t. long (t +ℤ pos n) >>= λ t'. some (of_milliseconds t'))
      (milliseconds-at s u (omega arith))
    ∙ ap (λ p. long p >>= λ t'. some (of_milliseconds t')) (pos_sum (s * 1000 + u / 1000) n)
    ∙ ap (λ r. r >>= λ t'. some (of_milliseconds t')) (long_small (s * 1000 + u / 1000 + n) h)
    ∙ ap some (of_milliseconds_pos (s * 1000 + u / 1000 + n))

time_subtract-at :
    (s u n : ℕ)
    → n ≤ s * 1000 + u / 1000
    → s * 1000 + u / 1000 < 2 ^ 63
    → time_subtract (at s u) (pos n)
      ≡ some (at ((s * 1000 + u / 1000 - n) / 1000) ((s * 1000 + u / 1000 - n) % 1000 * 1000))
unfolding time_subtract
time_subtract-at s u n k h =
    ap (λ r. r >>= λ t. long (t -ℤ pos n) >>= λ t'. some (of_milliseconds t'))
      (milliseconds-at s u h)
    ∙ ap (λ p. long p >>= λ t'. some (of_milliseconds t'))
        (pos_difference (s * 1000 + u / 1000) n k)
    ∙ ap (λ r. r >>= λ t'. some (of_milliseconds t'))
        (long_small (s * 1000 + u / 1000 - n) (omega arith))
    ∙ ap some (of_milliseconds_pos (s * 1000 + u / 1000 - n))

-- Where the milliseconds fit into 64 bits, `time_add` moves a time since the epoch by so many
-- milliseconds, and `time_subtract` moves it back, but for the microseconds of its last millisecond.
pub time_subtract-time_add :
    (s u n : ℕ)
    → u < 1000000
    → s * 1000 + u / 1000 + n < 2 ^ 63
    → (time_add (at s u) (pos n) >>= λ t. time_subtract t (pos n)) ≡ some (at s (u / 1000 * 1000))
time_subtract-time_add s u n h k =
    let all : ℕ = s * 1000 + u / 1000 + n in
    let back : all / 1000 * 1000 + all % 1000 * 1000 / 1000 ≡ all = omega arith in
    let same_sec : (all / 1000 * 1000 + all % 1000 * 1000 / 1000 - n) / 1000 ≡ s = omega arith in
    let same_usec : (all / 1000 * 1000 + all % 1000 * 1000 / 1000 - n) % 1000 * 1000
        ≡ u / 1000 * 1000 =
      omega arith in
    ap (λ r. r >>= λ t. time_subtract t (pos n)) (time_add-at s u n k)
    ∙ time_subtract-at (all / 1000) (all % 1000 * 1000) n (omega arith) (omega arith)
    ∙ ap₂ (λ a b. some (at a b)) same_sec same_usec
