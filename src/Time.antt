-- ===== src/Time.antt =====
-- etime.c: comparison and shifts of times.
pub mod Order
pub mod Shift
mod Tests
use libeasy.Prelude.{
  ℕ, zero, suc, ◌+◌, ◌-◌, ◌/◌, ◌%◌, ◌^◌, Bool, true, false, Option, none, some, ltb, leb, ◌==◌,
  ◌&&◌, if◌then◌else◌,
}
use libeasy.Prelude.Fault.{◌>>=◌}
use libeasy.Prelude.Words.{to_int, signed32}
use libeasy.Prelude.Int.{ℤ, pos, negsuc, ltb_ℤ, pos_part, neg_part, ◌+ℤ◌, ◌-ℤ◌, ◌*ℤ◌}

-- `struct timeval`, whose fields have 64 bits.
pub record Time : Type 0 where
  pub sec : ℤ
  pub usec : ℤ

-- The result of an operation on 64 bits, a fault where it overflows.
abbrev pub long : ℤ → Option ℤ
long (pos n) = if ltb n (2 ^ 63) then some (pos n) else none
long (negsuc n) = if ltb n (2 ^ 63) then some (negsuc n) else none

abbrev pub minus : ℕ → ℤ
minus zero = pos 0
minus (suc n) = negsuc n

-- `a / 1000` and `a % 1000`, which C rounds to zero.
abbrev pub quotient : ℤ → ℤ
quotient (pos n) = pos (n / 1000)
quotient (negsuc n) = minus ((n + 1) / 1000)

abbrev pub remainder : ℤ → ℤ
remainder (pos n) = pos (n % 1000)
remainder (negsuc n) = minus ((n + 1) % 1000)

abbrev pub same : ℤ → ℤ → Bool
same a b = pos_part a + neg_part b == pos_part b + neg_part a

unfoldable pub time_great : Time → Time → ℤ
time_great t1 t2 =
    if ltb_ℤ t2.sec t1.sec
    then pos 1
    else if same t1.sec t2.sec
    then (if ltb_ℤ t2.usec t1.usec then pos 1 else if same t1.usec t2.usec then pos 0 else negsuc 0)
    else negsuc 0

unfoldable pub time_less : Time → Time → ℤ
time_less t1 t2 = time_great t2 t1

-- `t1->tv_sec * 1000 + t1->tv_usec / 1000`
unfoldable pub milliseconds : Time → Option ℤ
milliseconds t = long (t.sec *ℤ pos 1000) >>= λ m. long (m +ℤ quotient t.usec)

-- The end of `time_add` and of `time_subtract`.
unfoldable pub of_milliseconds : ℤ → Time
of_milliseconds t = record { sec = quotient t; usec = remainder t *ℤ pos 1000 }

unfoldable pub time_add : Time → (increment : ℤ) → Option Time
time_add t1 increment =
    milliseconds t1 >>= λ t. long (t +ℤ increment) >>= λ t'. some (of_milliseconds t')

unfoldable pub time_subtract : Time → (decrement : ℤ) → Option Time
time_subtract t1 decrement =
    milliseconds t1 >>= λ t. long (t -ℤ decrement) >>= λ t'. some (of_milliseconds t')

-- `(t1->tv_sec - t2->tv_sec) * 1000 + (t1->tv_usec - t2->tv_usec)/1000`
unfoldable pub difference : Time → Time → Option ℤ
difference t1 t2 = long (t1.sec -ℤ t2.sec) >>= λ s.
    long (s *ℤ pos 1000) >>= λ m. long (t1.usec -ℤ t2.usec) >>= λ u. long (m +ℤ quotient u)

-- The conversion of a `long` to an `int`.
abbrev pub low_word : ℤ → ℤ
low_word (pos n) = to_int n
low_word (negsuc n) = signed32 (2 ^ 32 - 1 - n % 2 ^ 32)

unfoldable pub time_signed_delta : Time → Time → Option ℤ
time_signed_delta t1 t2 = difference t1 t2 >>= λ d. some (low_word d)

-- `-delta`, which overflows for the least `int`.
abbrev pub absolute : ℤ → Option ℤ
absolute (pos n) = some (pos n)
absolute (negsuc n) = if n == 2 ^ 31 - 1 then none else some (pos (suc n))

unfoldable pub time_delta : Time → Time → Option ℤ
time_delta t1 t2 = time_signed_delta t1 t2 >>= absolute
