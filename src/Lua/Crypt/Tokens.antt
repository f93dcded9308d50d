-- ===== src/Lua/Crypt/Tokens.antt =====
-- easy_lua.c: a time that is encrypted and decrypted again.
use libeasy.Prelude.{
  ℕ, zero, suc, ◌+◌, ◌*◌, ◌/◌, ◌%◌, ◌^◌, ◌<◌, ◌≡◌, refl, ap, subst, ◌∙◌, true, false, Option, some,
  List, [], ◌∷◌, ◌++◌, append-nil, arith, ltb, ◌==◌, length, drop, Bool-cases, inl, inr,
}
use native.Mathlib.Nat.{pow-suc}
use libeasy.Prelude.Fault.{◌>>=◌}
use libeasy.Prelude.Text.{decimal}
use libeasy.Prelude.Slices.{take_all, drop_all}
use libeasy.Lua.Hex.{AreBytes, hex_digit, ctoi-hex_digit}
use libeasy.Lua.Crypt.{
  Des3, hex_digits, leading_digits, add_digit, skip_prefix, is_white, is_x, positive, max_u64,
  strtoull, bytes_of, word_of, context, blocks, lua_gen_time_token_des3,
  lua_decrypt_time_token_des3,
}
use libeasy.Lua.Crypt.Arrays.{IsDes3}
use libeasy.Lua.Crypt.Texts.{IsKey, context-IsCipher}

length-bytes_of : (n w : ℕ) → length (bytes_of n w) ≡ n
length-bytes_of zero w = refl
length-bytes_of (suc n) w = ap suc (length-bytes_of n (w / 256))

bytes_of-AreBytes : (n w : ℕ) → AreBytes (bytes_of n w)
bytes_of-AreBytes zero w = tt
bytes_of-AreBytes (suc n) w = (omega arith, bytes_of-AreBytes n (w / 256))

word_of-bytes_of : (n w : ℕ) → w < 256 ^ n → word_of (bytes_of n w) ≡ w
word_of-bytes_of zero w h = omega arith
word_of-bytes_of (suc n) w h =
    omega (arith, word_of-bytes_of n (w / 256) (omega (arith, pow-suc 256 n)))

word_of_below : (bs : List ℕ) → AreBytes bs → word_of bs < 256 ^ length bs
word_of_below [] h = omega arith
word_of_below (b ∷ bs) h = omega (arith, h.0, word_of_below bs (h.1), pow-suc 256 (length bs))

bytes_of-word_of : (bs : List ℕ) → AreBytes bs → bytes_of (length bs) (word_of bs) ≡ bs
bytes_of-word_of [] h = refl
bytes_of-word_of (b ∷ bs) h =
    let low : (b + 256 * word_of bs) % 256 ≡ b = omega (arith, h.0) in
    let high : (b + 256 * word_of bs) / 256 ≡ word_of bs = omega (arith, h.0) in
    rw (low, high, bytes_of-word_of bs (h.1)) refl

-- Digits as `%x` prints them.
abbrev AreHex : List ℕ → Type 0
AreHex [] = Unit
AreHex (c ∷ cs) = ((d : ℕ) × (d < 16) × (c ≡ hex_digit d)) × AreHex cs

append-AreHex : (xs ys : List ℕ) → AreHex xs → AreHex ys → AreHex (xs ++ ys)
append-AreHex [] ys h k = k
append-AreHex (x ∷ xs) ys h k = (h.0, append-AreHex xs ys (h.1) k)

hex_digits-AreHex : (fuel n : ℕ) → AreHex (hex_digits fuel n)
hex_digits-AreHex zero n = tt
hex_digits-AreHex (suc f) n = elim (Bool-cases (ltb n 16)) [
  | inl one ↦ let small : n < 16 = ground arith in rw one ((n, small, refl), tt)
  | inr more ↦ rw more (
      append-AreHex (hex_digits f (n / 16)) (hex_digit (n % 16) ∷ []) (hex_digits-AreHex f (n / 16))
        ((n % 16, omega arith, refl), tt))
]

leading_digits-append :
    (acc : Option ℕ) (xs ys : List ℕ)
    → AreHex xs
    → leading_digits acc (xs ++ ys) ≡ leading_digits (leading_digits acc xs) ys
unfolding leading_digits
leading_digits-append acc [] ys h = refl
leading_digits-append acc (x ∷ xs) ys ((d, small, is), more) =
    rw (is, ctoi-hex_digit d small) (leading_digits-append (add_digit acc d) xs ys more)

leading_digits-hex_digits :
    (fuel n : ℕ) → n < 16 ^ fuel → n < 2 ^ 64 → leading_digits (some 0) (hex_digits fuel n) ≡ some n
unfolding leading_digits
leading_digits-hex_digits zero n h k = ap some (omega arith)
leading_digits-hex_digits (suc f) n h k = elim (Bool-cases (ltb n 16)) [
  | inl one ↦
      let fits : ltb max_u64 (16 * 0 + n) ≡ false = ground arith in
      rw (one, ctoi-hex_digit n (ground arith), fits) (ap some (omega arith))
  | inr more ↦
      let fits : ltb max_u64 (16 * (n / 16) + n % 16) ≡ false = ground arith in
      rw
        (
          more,
          leading_digits-append (some 0) (hex_digits f (n / 16)) (hex_digit (n % 16) ∷ [])
              (hex_digits-AreHex f (n / 16)),
          leading_digits-hex_digits f (n / 16) (omega (arith, pow-suc 16 f)) (omega arith),
          ctoi-hex_digit (n % 16) (omega arith),
          fits,
        )
        (ap some (omega arith))
]

skip_prefix-AreHex : (cs : List ℕ) → AreHex cs → skip_prefix cs ≡ cs
skip_prefix-AreHex [] h = refl
skip_prefix-AreHex (c ∷ []) h = refl
skip_prefix-AreHex (c ∷ d ∷ cs) (first, ((e, small, is), more)) =
    let no_x : is_x d ≡ false = rw is (ground arith) in ground arith

strtoull-AreHex : (cs : List ℕ) → AreHex cs → strtoull cs ≡ positive (leading_digits (some 0) cs)
unfolding strtoull leading_digits
strtoull-AreHex [] h = refl
strtoull-AreHex (c ∷ cs) h =
    let (d, small, is) = h.0 in
    let shown : is_white c ≡ false = rw is (ground arith) in
    let no_minus : (c == b'-') ≡ false = rw is (ground arith) in
    let no_plus : (c == b'+') ≡ false = rw is (ground arith) in
    rw (shown, no_minus, no_plus)
      (ap (λ t. positive (leading_digits (some 0) t)) (skip_prefix-AreHex (c ∷ cs) h))

strtoull-hex_digits : (n : ℕ) → n < 2 ^ 64 → strtoull (hex_digits 16 n) ≡ n
strtoull-hex_digits n h =
    strtoull-AreHex (hex_digits 16 n) (hex_digits-AreHex 16 n)
    ∙ ap positive (leading_digits-hex_digits 16 n (omega arith) h)

module _ {D : Type 0} (lib : Des3 D) (is : IsDes3 lib) (key : List ℕ) (good : IsKey key) where
  abbrev enc : List ℕ → List ℕ
  enc = lib.encrypt (context lib true key)

  abbrev dec : List ℕ → List ℕ
  dec = lib.decrypt (context lib true key)

  -- One block of 8 bytes is all that there is.
  one_block :
      (f : List ℕ → List ℕ) (bs : List ℕ) → length bs ≡ 8 → blocks f 1 bs ++ drop (8 * 1) bs ≡ f bs
  one_block f bs h =
      let eight : 8 * 1 ≡ 8 = omega arith in
      rw
        (
          eight,
          take_all 8 bs (omega (arith, h)),
          drop_all 8 bs (omega (arith, h)),
          append-nil (f bs),
          append-nil (f bs),
        )
        refl

  gen-hex_digits :
      (now : ℕ)
      → lua_gen_time_token_des3 lib true now (some key)
        ≡ some (hex_digits 16 (word_of (enc (bytes_of 8 now))))
  unfolding lua_gen_time_token_des3
  gen-hex_digits now =
      ap (λ bs. some (hex_digits 16 (word_of bs)))
        (one_block enc (bytes_of 8 now) (length-bytes_of 8 now))

  decrypt-hex_digits :
      (w : ℕ)
      → w < 2 ^ 64
      → lua_decrypt_time_token_des3 lib true (some (hex_digits 16 w)) (some key)
        ≡ some (decimal (word_of (dec (bytes_of 8 w))))
  unfolding lua_decrypt_time_token_des3
  decrypt-hex_digits w h =
      ap
        (λ v. some (decimal (word_of (blocks dec 1 (bytes_of 8 v) ++ drop (8 * 1) (bytes_of 8 v)))))
        (strtoull-hex_digits w h)
      ∙ ap (λ bs. some (decimal (word_of bs))) (one_block dec (bytes_of 8 w) (length-bytes_of 8 w))

  -- Eight bytes are a number of 64 bits.
  word_of_fits : (bs : List ℕ) → length bs ≡ 8 → AreBytes bs → word_of bs < 2 ^ 64
  word_of_fits bs size h =
      let below : word_of bs < 256 ^ 8 =
        subst (λ n. word_of bs < 256 ^ n) size (word_of_below bs h) in
      below

  decrypt_coded :
      (now : ℕ) (bs : List ℕ)
      → length bs ≡ 8
      → AreBytes bs
      → now < 2 ^ 64
      → dec bs ≡ bytes_of 8 now
      → lua_decrypt_time_token_des3 lib true (some (hex_digits 16 (word_of bs))) (some key)
        ≡ some (decimal now)
  decrypt_coded now bs size h fits plain =
      decrypt-hex_digits (word_of bs) (word_of_fits bs size h)
      ∙ ap (λ cs. some (decimal (word_of (dec cs))))
          (subst (λ n. bytes_of n (word_of bs) ≡ bs) size (bytes_of-word_of bs h))
      ∙ ap (λ cs. some (decimal (word_of cs))) plain
      ∙ ap (λ w. some (decimal w)) (word_of-bytes_of 8 now fits)

-- With a key of 16 or 24 bytes a token of a time of 64 bits is decrypted to its decimal number, where
-- there is memory and 3DES decrypts a block that it encrypted.
pub lua_gen_time_token_des3-lua_decrypt_time_token_des3 :
    {D : Type 0} (lib : Des3 D)
    → IsDes3 lib
    → (key : List ℕ) (now : ℕ) → IsKey key
    → now < 2 ^ 64
    → (lua_gen_time_token_des3 lib true now (some key) >>= λ token.
        lua_decrypt_time_token_des3 lib true (some token) (some key))
      ≡ some (decimal now)
lua_gen_time_token_des3-lua_decrypt_time_token_des3 lib is key now good fits =
    let cipher = context-IsCipher lib is key good in
    let size = length-bytes_of 8 now in
    let bytes = bytes_of-AreBytes 8 now in
    let plain = bytes_of 8 now in
    ap (λ token. token >>= λ t. lua_decrypt_time_token_des3 lib true (some t) (some key))
      (gen-hex_digits lib is key good now)
    ∙ decrypt_coded lib is key good now _ (cipher.length_is plain size)
        (cipher.bytes plain size bytes) fits (cipher.inverse plain size bytes)
