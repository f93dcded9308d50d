-- ===== src/Lua/Crypt/Texts.antt =====
-- easy_lua.c: a text that is encrypted and decrypted again.
use libeasy.Prelude.{
  ℕ, ◌-◌, ◌*◌, ◌/◌, ◌≤◌, ◌<◌, ◌≡◌, refl, sym, true, false, some, List, arith, ltb, leb, ◌==◌,
  length, take, drop, ◌⊎◌, inl, inr,
}
use libeasy.Prelude.Fault.{◌>>=◌}
use libeasy.Prelude.Slices.{take-length, drop-length}
use libeasy.Lua.Hex.{hex, length-hex, unhex-hex}
use libeasy.Lua.Crypt.{
  Des3, zeros, buffer_size, in_buffer, blocks, context, lua_decrypt_des3, lua_encrypt_des3,
}
use libeasy.Lua.Crypt.Arrays.{
  AreChars, AreBytes-AreChars, take-AreChars, before_zero-zeros, IsCipher, IsDes3, length-blocks,
  blocks-append, blocks-inverse,
}

-- A key of two or of three parts.
abbrev pub IsKey : List ℕ → Type 0
IsKey key = (length key ≡ 16) ⊎ (length key ≡ 24)

module _ {D : Type 0} (lib : Des3 D) (is : IsDes3 lib) (key : List ℕ) (good : IsKey key) where
  pub context-IsCipher :
      IsCipher (lib.encrypt (context lib true key)) (lib.decrypt (context lib true key))
  context-IsCipher = elim good [
    | inl two ↦
        let e : (length key == 16) ≡ true = ground arith in
        rw e (is.two_keys (take 8 key) (drop 8 key))
    | inr three ↦
        let e : (length key == 16) ≡ false = ground arith in
        let e' : (length key == 24) ≡ true = ground arith in
        rw (e, e') (is.three_keys (take 8 key) (take 8 (drop 8 key)) (drop 16 key))
  ]

  module _ (text : List ℕ) (chars : AreChars text) where
    abbrev enc : List ℕ → List ℕ
    enc = lib.encrypt (context lib true key)

    abbrev dec : List ℕ → List ℕ
    dec = lib.decrypt (context lib true key)

    abbrev count : ℕ
    count = length text / 8

    fits : 8 * count ≤ length text
    fits = omega arith

    length-coded : length (blocks enc count text) ≡ 8 * count
    length-coded = length-blocks enc dec context-IsCipher count text fits

    encrypt-hex :
        length text < 64
        → lua_encrypt_des3 lib true (some text) (some key) ≡ some (hex (blocks enc count text))
    unfolding lua_encrypt_des3
    encrypt-hex short =
        let small : leb (length text) buffer_size ≡ true = ground arith in
        let printed : ltb (16 * count) buffer_size ≡ true = ground arith in
        let same =
          blocks-append enc dec context-IsCipher count text (zeros (buffer_size - length text))
            fits in
        rw
          (
            small,
            before_zero-zeros text (buffer_size - length text) chars (omega arith),
            printed,
            same,
            take-length (blocks enc count text) (drop (8 * count) (in_buffer text)) (8 * count)
                (sym length-coded),
          )
          refl

    decrypt-hex :
        length text < 64
        → AreChars (blocks enc count text)
        → lua_decrypt_des3 lib true (some (hex (blocks enc count text))) (some key)
          ≡ some (some (take (8 * count) text))
    unfolding lua_decrypt_des3
    decrypt-hex short coded =
        let coded_bytes = blocks enc count text in
        let bytes = AreBytes-AreChars coded_bytes coded in
        let small : ltb 256 (length (hex coded_bytes)) ≡ false =
          ground (arith, length-hex coded_bytes, length-coded) in
        let same_count : length coded_bytes / 8 ≡ count = omega (arith, length-coded) in
        let room : ℕ = buffer_size - length coded_bytes in
        rw
          (
            small,
            unhex-hex coded_bytes bytes,
            before_zero-zeros coded_bytes room coded (omega (arith, length-coded)),
            same_count,
            blocks-inverse enc dec context-IsCipher count text (zeros room) fits
                (AreBytes-AreChars text chars),
            drop-length coded_bytes (zeros room) (8 * count) (sym length-coded),
            before_zero-zeros (take (8 * count) text) room (take-AreChars (8 * count) text chars)
                (omega (arith, length-coded)),
          )
          refl

-- With a key of 16 or 24 bytes a text of less than 64 bytes is decrypted to what was encrypted, as far
-- as its blocks of 8 bytes go, where no byte of it and of what it is encrypted to is zero, there is
-- memory, and 3DES decrypts the blocks that it encrypted.
pub lua_encrypt_des3-lua_decrypt_des3 :
    {D : Type 0} (lib : Des3 D)
    → IsDes3 lib
    → (key text : List ℕ) → IsKey key
    → AreChars text
    → length text < 64
    → AreChars (blocks (lib.encrypt (context lib true key)) (length text / 8) text)
    → (lua_encrypt_des3 lib true (some text) (some key) >>= λ coded.
        lua_decrypt_des3 lib true (some coded) (some key))
      ≡ some (some (take (8 * (length text / 8)) text))
lua_encrypt_des3-lua_decrypt_des3 lib is key text good chars short coded =
    rw (encrypt-hex lib is key good text chars short)
      (decrypt-hex lib is key good text chars short coded)
