-- ===== src/Lua/Hex.antt =====
-- easy_lua.c: bytes as two digits to the base of 16 (`ctoi`, and the loops with `ctoi` and `%02x`).
use libeasy.Prelude.{
  ℕ, ◌+◌, ◌-◌, ◌*◌, ◌/◌, ◌%◌, ◌<◌, ◌≡◌, refl, ap, ◌&&◌, Option, none, some, List, [], ◌∷◌, arith,
  ltb, leb, if◌then◌else◌, length,
}
use libeasy.Prelude.Fault.{◌>>=◌}

-- `none` is -1.
unfoldable pub ctoi : ℕ → Option ℕ
ctoi ch =
    if leb ch b'9' && leb b'0' ch
    then some (ch - b'0')
    else if leb ch b'F' && leb b'A' ch
    then some (ch - b'A' + 10)
    else if leb ch b'f' && leb b'a' ch
    then some (ch - b'a' + 10)
    else none

-- `(i1<<4)|i2` as a byte; a negative number must not be shifted.
abbrev pub joined : (i1 i2 : Option ℕ) → Option ℕ
joined none i2 = none
joined (some a) none = some 255
joined (some a) (some b) = some (16 * a + b)

-- The loop of `lua_decrypt_des3` over pairs of digits; behind an odd number of them stands the zero.
unfoldable pub unhex : List ℕ → Option (List ℕ)
unhex [] = some []
unhex (c ∷ []) = joined (ctoi c) (ctoi 0) >>= λ b. some (b ∷ [])
unhex (c ∷ d ∷ cs) = joined (ctoi c) (ctoi d) >>= λ b. unhex cs >>= λ bs. some (b ∷ bs)

-- A digit of `%x`.
abbrev pub hex_digit : ℕ → ℕ
hex_digit n = if ltb n 10 then b'0' + n else b'a' + (n - 10)

-- `%02x` of each byte.
unfoldable pub hex : List ℕ → List ℕ
hex [] = []
hex (b ∷ bs) = hex_digit (b / 16) ∷ hex_digit (b % 16) ∷ hex bs

pub length-hex : (bs : List ℕ) → length (hex bs) ≡ 2 * length bs
unfolding hex
length-hex [] = omega arith
length-hex (b ∷ bs) = omega (arith, length-hex bs)

pub ctoi-hex_digit : (n : ℕ) → n < 16 → ctoi (hex_digit n) ≡ some n
unfolding ctoi
ctoi-hex_digit n h = ground arith

abbrev pub AreBytes : List ℕ → Type 0
AreBytes [] = Unit
AreBytes (b ∷ bs) = (b < 256) × AreBytes bs

pub unhex-hex : (bs : List ℕ) → AreBytes bs → unhex (hex bs) ≡ some bs
unfolding unhex hex
unhex-hex [] h = refl
unhex-hex (b ∷ bs) h =
    let e : 16 * (b / 16) + b % 16 ≡ b = omega arith in
    rw
      (
        ctoi-hex_digit (b / 16) (omega (arith, h.0)),
        ctoi-hex_digit (b % 16) (omega arith),
        unhex-hex bs (h.1),
      )
      (ap (λ c. some (c ∷ bs)) e)
