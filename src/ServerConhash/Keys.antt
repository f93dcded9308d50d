-- ===== src/ServerConhash/Keys.antt =====
-- server_conhash.c: the keys of different groups are different.
use libeasy.Prelude.{
  ℕ, zero, suc, ◌-◌, ◌^◌, ◌≤◌, ◌<◌, ◌≡◌, ◌≢◌, refl, sym, ap, ◌∙◌, Bool, true, false, not, ◌&&◌,
  List, [], ◌∷◌, ◌++◌, arith, ◌==◌, if◌then◌else◌, length, take, drop,
}
use libeasy.Prelude.Int.{ℤ, pos, negsuc}
use libeasy.Prelude.Text.{
  decimal, value, value-decimal, length-decimal, all_digits, all_digits-decimal,
}
use libeasy.Prelude.Slices.{take_all}
use libeasy.ServerConhash.{printed, str_id, ip_key}

-- The bytes before the first `_`.
before_mark : List ℕ → List ℕ
before_mark [] = []
before_mark (c ∷ cs) = if c == b'_' then [] else c ∷ before_mark cs

-- No mark, and bytes enough for a number.
abbrev marks : List ℕ → Bool
marks [] = true
marks (c ∷ cs) = not (c == b'_') && marks cs

all_digits-marks : (cs : List ℕ) → all_digits cs ≡ true → marks cs ≡ true
all_digits-marks [] h = refl
all_digits-marks (c ∷ cs) h = ground (arith, all_digits-marks cs)

printed-marks : (id : ℤ) → marks (printed id) ≡ true
printed-marks (pos n) = all_digits-marks (decimal n) (all_digits-decimal n)
printed-marks (negsuc n) = all_digits-marks (decimal (suc n)) (all_digits-decimal (suc n))

length-printed : (id : ℤ) → length (printed id) ≤ 21
length-printed (pos n) = omega (arith, length-decimal n)
length-printed (negsuc n) = omega (arith, length-decimal (suc n))

before_mark-take :
    (cs iden : List ℕ) (n : ℕ)
    → marks cs ≡ true
    → length cs < n
    → before_mark (take n (cs ++ b'_' ∷ iden)) ≡ cs
unfolding before_mark
before_mark-take cs iden zero h k = absurd (omega arith)
before_mark-take [] iden (suc n) h k = refl
before_mark-take (c ∷ cs) iden (suc n) h k = ground (arith, before_mark-take cs iden n)

before_mark-ip_key : (id : ℤ) (iden : List ℕ) → before_mark (ip_key id iden) ≡ printed id
before_mark-ip_key id iden =
    before_mark-take (printed id) iden (64 - 2) (printed-marks id)
      (omega (arith, length-printed id))

-- A number that an int holds.
abbrev pub IsSmall : ℤ → Type 0
IsSmall (pos n) = n < 2 ^ 31
IsSmall (negsuc n) = n < 2 ^ 31

no_sign : (m n : ℕ) → printed (negsuc m) ≢ printed (pos n)
no_sign m n e = let h : false ≡ true = ap all_digits e ∙ all_digits-decimal n in absurd (cc)

decimal_injective : (m n : ℕ) → m < 10 ^ 20 → n < 10 ^ 20 → decimal m ≡ decimal n → m ≡ n
decimal_injective m n h k e = sym (value-decimal m h) ∙ ap (value 0) e ∙ value-decimal n k

printed_injective : (a b : ℤ) → IsSmall a → IsSmall b → printed a ≡ printed b → a ≡ b
printed_injective (pos m) (pos n) h k e =
    ap pos (decimal_injective m n (omega (arith, h)) (omega (arith, k)) e)
printed_injective (pos m) (negsuc n) h k e = absurd (no_sign n m (sym e))
printed_injective (negsuc m) (pos n) h k e = absurd (no_sign m n e)
printed_injective (negsuc m) (negsuc n) h k e =
    let same : suc m ≡ suc n =
      decimal_injective (suc m) (suc n) (omega (arith, h)) (omega (arith, k)) (ap (drop 1) e) in
    ap negsuc (omega (arith, same))

-- A key of another group is another key.
pub ip_key_apart :
    (a b : ℤ) (iden other : List ℕ) → IsSmall a → IsSmall b → a ≢ b → ip_key a iden ≢ ip_key b other
ip_key_apart a b iden other h k ne e = ne (
    printed_injective a b h k
      (sym (before_mark-ip_key a iden) ∙ ap before_mark e ∙ before_mark-ip_key b other))

pub str_id_apart : (a b : ℤ) → IsSmall a → IsSmall b → a ≢ b → str_id a ≢ str_id b
str_id_apart a b h k ne e = ne (printed_injective a b h k (sym (whole a) ∙ e ∙ whole b))
  where
    whole : (i : ℤ) → str_id i ≡ printed i
    whole i = take_all (32 - 2) (printed i) (omega (arith, length-printed i))
