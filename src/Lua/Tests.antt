-- ===== src/Lua/Tests.antt =====
-- easy_lua.c: runs, and the theorems at concrete inputs, where a cipher adds to each byte.
use libeasy.Prelude.{
  ℕ, suc, ◌+◌, ◌-◌, ◌%◌, ◌<◌, ◌≡◌, refl, ap, ap₂, ◌∙◌, Bool, true, ltb, ◌&&◌, none, some, List, [],
  ◌∷◌, map, arith, length, inl, get_or,
}
use libeasy.Prelude.Fault.{◌>>=◌}
use libeasy.Prelude.Text.{codes, decimal}
use libeasy.Lua.Hex.{AreBytes, ctoi, unhex, hex}
use libeasy.Lua.Crypt.{
  Des3, strtoull, leading_digits, lua_decrypt_des3, lua_encrypt_des3, lua_gen_time_token_des3,
  lua_decrypt_time_token_des3,
}
use libeasy.Lua.Crypt.Arrays.{AreChars, IsCipher, IsDes3}
use libeasy.Lua.Crypt.Texts.{lua_encrypt_des3-lua_decrypt_des3}
use libeasy.Lua.Crypt.Tokens.{lua_gen_time_token_des3-lua_decrypt_time_token_des3}

abbrev are_chars : List ℕ → Bool
are_chars [] = true
are_chars (c ∷ cs) = ltb 0 c && ltb c 256 && are_chars cs

are_chars-AreChars : (cs : List ℕ) → are_chars cs ≡ true → AreChars cs
are_chars-AreChars [] h = tt
are_chars-AreChars (c ∷ cs) h =
    let first : 0 < c = ground arith in
    let second : c < 256 = ground arith in (first, second, are_chars-AreChars cs (ground arith))

abbrev forward : ℕ → ℕ → ℕ
forward d c = (c + d) % 256

abbrev back : ℕ → ℕ → ℕ
back d c = (c + (256 - d % 256)) % 256

abbrev shifts : Des3 ℕ
shifts = record {
  zeroed = 0;
  set_2keys = λ key1 key2. get_or key1 0 0;
  set_3keys = λ key1 key2 key3. get_or key1 0 0;
  encrypt = λ d b. map (forward d) b;
  decrypt = λ d b. map (back d) b;
}

length-map : (f : ℕ → ℕ) (cs : List ℕ) → length (map f cs) ≡ length cs
length-map f [] = refl
length-map f (c ∷ cs) = ap suc (length-map f cs)

forward-AreBytes : (d : ℕ) (cs : List ℕ) → AreBytes (map (forward d) cs)
forward-AreBytes d [] = tt
forward-AreBytes d (c ∷ cs) = (omega arith, forward-AreBytes d cs)

back-forward : (d : ℕ) (cs : List ℕ) → AreBytes cs → map (back d) (map (forward d) cs) ≡ cs
back-forward d [] h = refl
back-forward d (c ∷ cs) h =
    let same : back d (forward d c) ≡ c = omega (arith, h.0) in
    ap₂ (λ x xs. x ∷ xs) same (back-forward d cs (h.1))

shifts-IsCipher : (d : ℕ) → IsCipher (map (forward d)) (map (back d))
shifts-IsCipher d = record {
  length_is = λ b h. length-map (forward d) b ∙ h;
  bytes = λ b h k. forward-AreBytes d b;
  inverse = λ b h k. back-forward d b k;
}

shifts-IsDes3 : IsDes3 shifts
shifts-IsDes3 = record {
  two_keys = λ key1 key2. shifts-IsCipher (get_or key1 0 0);
  three_keys = λ key1 key2 key3. shifts-IsCipher (get_or key1 0 0);
}

abbrev key : List ℕ
key = codes "0123456789abcdef"

unhex_test : unhex (codes "0aFf") ≡ some (10 ∷ 255 ∷ [])
unfolding unhex ctoi
unhex_test = refl

-- Behind an odd number of digits stands the zero, which is no digit.
odd_test : unhex (codes "0aF") ≡ some (10 ∷ 255 ∷ [])
unfolding unhex ctoi
odd_test = refl

strtoull_test : strtoull (codes " 0x1fz") ≡ 31
unfolding strtoull leading_digits ctoi
strtoull_test = refl

-- A text of 64 bytes is too long for what it is printed into.
long_test :
    lua_encrypt_des3 shifts true
      (some (codes "0123456789abcdef0123456789abcdef0123456789abcdef0123456789abcdef"))
      (some key)
    ≡ none
unfolding lua_encrypt_des3
long_test = refl

-- A byte that is encrypted to zero ends what is decrypted.
zero_test :
    (lua_encrypt_des3 shifts true (some (208 ∷ codes "1234567")) (some key) >>= λ coded.
    lua_decrypt_des3 shifts true (some coded) (some key))
    ≡ some (some [])
unfolding lua_encrypt_des3 lua_decrypt_des3 unhex hex ctoi
zero_test = refl

lua_encrypt_des3-lua_decrypt_des3_example :
    (lua_encrypt_des3 shifts true (some (codes "12345678x")) (some key) >>= λ coded.
    lua_decrypt_des3 shifts true (some coded) (some key))
    ≡ some (some (codes "12345678"))
lua_encrypt_des3-lua_decrypt_des3_example =
    lua_encrypt_des3-lua_decrypt_des3 shifts shifts-IsDes3 key (codes "12345678x") (inl refl)
      (are_chars-AreChars (codes "12345678x") refl) (omega arith)
      (are_chars-AreChars (map (forward 48) (codes "12345678")) refl)

lua_gen_time_token_des3-lua_decrypt_time_token_des3_example :
    (lua_gen_time_token_des3 shifts true 1335950049 (some key) >>= λ token.
    lua_decrypt_time_token_des3 shifts true (some token) (some key))
    ≡ some (codes "1335950049")
unfolding decimal
lua_gen_time_token_des3-lua_decrypt_time_token_des3_example =
    lua_gen_time_token_des3-lua_decrypt_time_token_des3 shifts shifts-IsDes3 key 1335950049
      (inl refl) (omega arith)
