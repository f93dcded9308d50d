-- ===== src/Lua/Crypt.antt =====
-- easy_lua.c: texts and times that are encrypted with 3DES, and the digest of MD5.
pub mod Arrays
pub mod Texts
pub mod Tokens
use libeasy.Prelude.{
  ℕ, zero, suc, ◌+◌, ◌-◌, ◌*◌, ◌/◌, ◌%◌, ◌^◌, Bool, true, false, ◌&&◌, ◌||◌, Option, none, some,
  List, [], ◌∷◌, ◌++◌, ltb, leb, ◌==◌, if◌then◌else◌, length, take, drop,
}
use libeasy.Prelude.Fault.{◌>>=◌}
use libeasy.Prelude.Text.{decimal}
use libeasy.Lua.Hex.{ctoi, unhex, hex, hex_digit}

-- The functions of crypt/3des.c, on contexts `D` of which `zeroed` is the one that `memset` leaves.
pub record Des3 (D : Type 0) : Type 0 where
  pub zeroed : D
  pub set_2keys : (key1 key2 : List ℕ) → D
  pub set_3keys : (key1 key2 key3 : List ℕ) → D
  pub encrypt : D → List ℕ → List ℕ
  pub decrypt : D → List ℕ → List ℕ

abbrev pub zeros : ℕ → List ℕ
zeros zero = []
zeros (suc n) = 0 ∷ zeros n

-- The text in an array: without a zero what stands behind the array is read.
abbrev pub before_zero : List ℕ → Option (List ℕ)
before_zero [] = none
before_zero (c ∷ cs) = if c == 0 then some [] else (before_zero cs >>= λ r. some (c ∷ r))

abbrev pub buffer_size : ℕ
buffer_size = 128

-- An array of which the first bytes are given.
abbrev pub in_buffer : List ℕ → List ℕ
in_buffer bytes = bytes ++ zeros (buffer_size - length bytes)

-- `n` blocks of 8 bytes, one after the other.
abbrev pub blocks : (List ℕ → List ℕ) → (n : ℕ) → List ℕ → List ℕ
blocks f zero cs = []
blocks f (suc n) cs = f (take 8 cs) ++ blocks f n (drop 8 cs)

-- The first `n` blocks of an array are replaced. What is written without memory for it goes to NULL.
abbrev pub crypt_blocks : (malloc : Bool) → (List ℕ → List ℕ) → (n : ℕ) → List ℕ → Option (List ℕ)
crypt_blocks malloc f n cs =
    if malloc || (n == 0) then some (blocks f n cs ++ drop (8 * n) cs) else none

-- `%llx`, with at most so many digits.
abbrev pub hex_digits : (fuel : ℕ) → ℕ → List ℕ
hex_digits zero n = []
hex_digits (suc f) n =
    let more = hex_digits f (n / 16) in
    if ltb n 16 then hex_digit n ∷ [] else more ++ hex_digit (n % 16) ∷ []

abbrev pub is_white : ℕ → Bool
is_white c = (leb 9 c && leb c 13) || (c == b' ')

abbrev pub skip_white : List ℕ → List ℕ
skip_white [] = []
skip_white (c ∷ cs) = if is_white c then skip_white cs else c ∷ cs

abbrev pub max_u64 : ℕ
max_u64 = 2 ^ 64 - 1

-- The digits of `strtoull`; `none` is a number that does not fit.
abbrev pub add_digit : (acc : Option ℕ) (digit : ℕ) → Option ℕ
add_digit none digit = none
add_digit (some n) digit = if ltb max_u64 (16 * n + digit) then none else some (16 * n + digit)

abbrev pub or_stop : (acc : Option ℕ) → (ℕ → Option ℕ) → Option ℕ → Option ℕ
or_stop acc more none = acc
or_stop acc more (some digit) = more digit

unfoldable pub leading_digits : (acc : Option ℕ) → List ℕ → Option ℕ
leading_digits acc [] = acc
leading_digits acc (c ∷ cs) =
    or_stop acc (λ digit. leading_digits (add_digit acc digit) cs) (ctoi c)

abbrev pub is_x : ℕ → Bool
is_x c = (c == b'x') || (c == b'X')

-- `0x` in front of a digit.
abbrev pub begins_with_digit : List ℕ → Bool
begins_with_digit [] = false
begins_with_digit (c ∷ cs) = elim (ctoi c) [ none ↦ false | some digit ↦ true ]

abbrev pub skip_prefix : List ℕ → List ℕ
skip_prefix [] = []
skip_prefix (c ∷ []) = c ∷ []
skip_prefix (c ∷ d ∷ cs) = if (c == b'0') && is_x d && begins_with_digit cs then cs else c ∷ d ∷ cs

-- A number that does not fit is ULLONG_MAX, whatever its sign, and the negative of another wraps
-- around.
abbrev pub negated : Option ℕ → ℕ
negated none = max_u64
negated (some n) = (2 ^ 64 - n) % 2 ^ 64

abbrev pub positive : Option ℕ → ℕ
positive none = max_u64
positive (some n) = n

abbrev pub unsigned : List ℕ → Option ℕ
unsigned cs = leading_digits (some 0) (skip_prefix cs)

abbrev pub signed : List ℕ → ℕ
signed [] = 0
signed (c ∷ cs) =
    if c == b'-'
    then negated (unsigned cs)
    else if c == b'+'
    then positive (unsigned cs)
    else positive (unsigned (c ∷ cs))

-- `strtoull` to the base of 16.
unfoldable pub strtoull : List ℕ → ℕ
strtoull cs = signed (skip_white cs)

-- The bytes of a number of 64 bits in memory, the lowest first.
abbrev pub bytes_of : (n : ℕ) (word : ℕ) → List ℕ
bytes_of zero word = []
bytes_of (suc n) word = word % 256 ∷ bytes_of n (word / 256)

abbrev pub word_of : List ℕ → ℕ
word_of [] = 0
word_of (b ∷ bs) = b + 256 * word_of bs

module _ {D : Type 0} (lib : Des3 D) (malloc : Bool) where
  -- The context for a key of 16 or 24 bytes; with another length it stays zero.
  abbrev pub context : (key : List ℕ) → D
  context key =
      if length key == 16
      then lib.set_2keys (take 8 key) (drop 8 key)
      else if length key == 24
      then lib.set_3keys (take 8 key) (take 8 (drop 8 key)) (drop 16 key)
      else lib.zeroed

  -- From `data_len` on: what is decrypted of the text in the array is pushed.
  abbrev pub decrypt_data : (key data_bytes : List ℕ) → Option (Option (List ℕ))
  decrypt_data key data_bytes = before_zero data_bytes >>= λ text.
      crypt_blocks malloc (lib.decrypt (context key)) (length text / 8) data_bytes >>= λ decrypted.
      before_zero decrypted >>= λ result. some (some result)

  -- `lua_decrypt_des3`; the arguments are what `lua_tostring` gives, and `some none` is nil.
  unfoldable pub lua_decrypt_des3 : (pdata key : Option (List ℕ)) → Option (Option (List ℕ))
  lua_decrypt_des3 none key = none
  lua_decrypt_des3 (some pdata) key =
      if ltb 256 (length pdata)
      then some none
      else (key >>= λ k. unhex pdata >>= λ bytes. decrypt_data k (in_buffer bytes))

  -- What `sprintf` writes into `encrypt_data` with the zero behind it.
  abbrev pub print_data : (n : ℕ) → List ℕ → Option (List ℕ)
  print_data n encrypted =
      if ltb (16 * n) buffer_size then some (hex (take (8 * n) encrypted)) else none

  abbrev pub encrypt_data : (key data_bytes : List ℕ) → Option (List ℕ)
  encrypt_data key data_bytes = before_zero data_bytes >>= λ text.
      crypt_blocks malloc (lib.encrypt (context key)) (length text / 8) data_bytes >>= λ encrypted.
      print_data (length text / 8) encrypted

  -- `lua_encrypt_des3`; a text that is longer than the array is copied behind it.
  unfoldable pub lua_encrypt_des3 : (pdata key : Option (List ℕ)) → Option (List ℕ)
  lua_encrypt_des3 pdata none = none
  lua_encrypt_des3 none (some key) = none
  lua_encrypt_des3 (some pdata) (some key) =
      if leb (length pdata) buffer_size then encrypt_data key (in_buffer pdata) else none

  -- `lua_gen_time_token_des3`, where `now` is what `time` answers.
  unfoldable pub lua_gen_time_token_des3 : (now : ℕ) (key : Option (List ℕ)) → Option (List ℕ)
  lua_gen_time_token_des3 now none = none
  lua_gen_time_token_des3 now (some key) =
      crypt_blocks malloc (lib.encrypt (context key)) 1 (bytes_of 8 now) >>= λ bytes.
      some (hex_digits 16 (word_of bytes))

  -- `lua_decrypt_time_token_des3`
  unfoldable pub lua_decrypt_time_token_des3 : (token key : Option (List ℕ)) → Option (List ℕ)
  lua_decrypt_time_token_des3 none key = none
  lua_decrypt_time_token_des3 (some token) none = none
  lua_decrypt_time_token_des3 (some token) (some key) =
      crypt_blocks malloc (lib.decrypt (context key)) 1 (bytes_of 8 (strtoull token)) >>= λ bytes.
      some (decimal (word_of bytes))

-- `lua_gen_md5`, where `md5` gives the digest of 16 bytes.
unfoldable pub lua_gen_md5 :
    (md5 : List ℕ → List ℕ) → (data_text : Option (List ℕ)) → Option (List ℕ)
lua_gen_md5 md5 none = none
lua_gen_md5 md5 (some text) = some (hex (md5 text))
