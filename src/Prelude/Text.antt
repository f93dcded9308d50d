-- ===== src/Prelude/Text.antt =====
-- C strings as lists of bytes, and decimal numbers.
use Prim.Native.Char.{code}
use Prim.Native.String.{String}
use native.Mathlib.Nat.{pow-suc}
use libeasy.Prelude.{
  ℕ, zero, suc, ◌+◌, ◌-◌, ◌*◌, ◌/◌, ◌%◌, ◌^◌, ◌≤◌, ◌<◌, ◌≡◌, refl, List, [], ◌∷◌, ◌++◌, arith, ltb,
  leb, if◌then◌else◌, length, length-append, Bool-cases, inl, inr, Bool, true, false, ◌&&◌, ◌==◌,
}

-- The bytes of an ASCII text.
abbrev pub codes : String → List ℕ
codes String.[] = []
codes (String.◌∷◌ c s) = code c ∷ codes s

-- `%d` of a number that is not negative, with at most so many digits.
pub digits : (fuel : ℕ) → ℕ → List ℕ
digits zero n = []
digits (suc f) n =
    let more = digits f (n / 10) in
    if ltb n 10 then (b'0' + n) ∷ [] else more ++ (b'0' + n % 10) ∷ []

-- Twenty digits are enough for every number of 64 bits.
unfoldable pub decimal : ℕ → List ℕ
unfolding digits
decimal n = digits 20 n

length-digits : (fuel n : ℕ) → length (digits fuel n) ≤ fuel
unfolding digits
length-digits zero n = omega arith
length-digits (suc f) n =
    let h = length-digits f (n / 10) in
    let l = length-append (digits f (n / 10)) ((b'0' + n % 10) ∷ []) in ground arith

pub length-decimal : (n : ℕ) → length (decimal n) ≤ 20
unfolding decimal
length-decimal n = length-digits 20 n

-- The number that digits stand for, the first the highest.
abbrev pub value : ℕ → List ℕ → ℕ
value acc [] = acc
value acc (c ∷ cs) = value (acc * 10 + (c - b'0')) cs

value-append :
    (acc : ℕ) (xs : List ℕ) (c : ℕ) → value acc (xs ++ c ∷ []) ≡ value acc xs * 10 + (c - b'0')
value-append acc [] c = refl
value-append acc (x ∷ xs) c = value-append (acc * 10 + (x - b'0')) xs c

value-digits : (fuel n : ℕ) → n < 10 ^ fuel → value 0 (digits fuel n) ≡ n
unfolding digits
value-digits zero n h = omega arith
value-digits (suc f) n h = elim (Bool-cases (ltb n 10)) [
  | inl one ↦ rw one (omega arith)
  | inr more ↦
      rw (more, value-append 0 (digits f (n / 10)) (b'0' + n % 10))
        (omega (arith, value-digits f (n / 10) (omega (arith, pow-suc 10 f))))
]

pub value-decimal : (n : ℕ) → n < 10 ^ 20 → value 0 (decimal n) ≡ n
unfolding decimal
value-decimal n h = value-digits 20 n h

-- `strcmp` answers 0
abbrev pub same_bytes : List ℕ → List ℕ → Bool
same_bytes [] [] = true
same_bytes [] (d ∷ ds) = false
same_bytes (c ∷ cs) [] = false
same_bytes (c ∷ cs) (d ∷ ds) = (c == d) && same_bytes cs ds

pub same_bytes_self : (cs : List ℕ) → same_bytes cs cs ≡ true
same_bytes_self [] = refl
same_bytes_self (c ∷ cs) = ground (arith, same_bytes_self cs)

abbrev pub all_digits : List ℕ → Bool
all_digits [] = true
all_digits (c ∷ cs) = (leb b'0' c && leb c b'9') && all_digits cs

all_digits-append :
    (cs ds : List ℕ) → all_digits cs ≡ true → all_digits ds ≡ true → all_digits (cs ++ ds) ≡ true
all_digits-append [] ds h k = k
all_digits-append (c ∷ cs) ds h k = ground (arith, all_digits-append cs ds)

all_digits-digits : (fuel n : ℕ) → all_digits (digits fuel n) ≡ true
unfolding digits
all_digits-digits zero n = refl
all_digits-digits (suc f) n = elim (Bool-cases (ltb n 10)) [
  | inl one ↦ rw one (ground arith)
  | inr more ↦ rw more (
      all_digits-append (digits f (n / 10)) ((b'0' + n % 10) ∷ []) (all_digits-digits f (n / 10))
        (ground arith))
]

pub all_digits-decimal : (n : ℕ) → all_digits (decimal n) ≡ true
unfolding decimal
all_digits-decimal n = all_digits-digits 20 n
