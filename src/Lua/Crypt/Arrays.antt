-- ===== src/Lua/Crypt/Arrays.antt =====
-- easy_lua.c: what stands in an array, and blocks of 8 bytes that are encrypted and decrypted.
use libeasy.Prelude.{
  ℕ, zero, suc, ◌+◌, ◌*◌, ◌≤◌, ◌<◌, ◌≡◌, refl, sym, ap, ap₂, ◌∙◌, some, List, [], ◌∷◌, ◌++◌,
  append_assoc, arith, length, length-append, take, drop,
}
use libeasy.Prelude.Slices.{take-length, drop-length, take-append, drop-append}
use libeasy.Lua.Hex.{AreBytes}
use libeasy.Lua.Crypt.{Des3, zeros, before_zero, blocks}

-- Bytes that are not zero.
abbrev pub AreChars : List ℕ → Type 0
AreChars [] = Unit
AreChars (c ∷ cs) = (0 < c) × (c < 256) × AreChars cs

pub AreBytes-AreChars : (cs : List ℕ) → AreChars cs → AreBytes cs
AreBytes-AreChars [] h = tt
AreBytes-AreChars (c ∷ cs) h = (h.1, AreBytes-AreChars cs (h.2))

pub take-AreChars : (n : ℕ) (cs : List ℕ) → AreChars cs → AreChars (take n cs)
take-AreChars zero cs h = tt
take-AreChars (suc n) [] h = tt
take-AreChars (suc n) (c ∷ cs) h = (h.0, h.1, take-AreChars n cs (h.2))

pub before_zero-zeros :
    (cs : List ℕ) (n : ℕ) → AreChars cs → 0 < n → before_zero (cs ++ zeros n) ≡ some cs
before_zero-zeros [] zero h k = absurd (omega arith)
before_zero-zeros [] (suc n) h k = refl
before_zero-zeros (c ∷ cs) n h k = ground (arith, h.0, before_zero-zeros cs n (h.2) k)

-- `f` encrypts blocks of 8 bytes, and `g` decrypts them.
pub record IsCipher (f g : List ℕ → List ℕ) : Type 0 where
  pub length_is : (b : List ℕ) → length b ≡ 8 → length (f b) ≡ 8
  pub bytes : (b : List ℕ) → length b ≡ 8 → AreBytes b → AreBytes (f b)
  pub inverse : (b : List ℕ) → length b ≡ 8 → AreBytes b → g (f b) ≡ b

-- What is relied on of crypt/3des.c: with keys that were set it decrypts what it encrypted.
pub record IsDes3 {D : Type 0} (lib : Des3 D) : Type 0 where
  pub two_keys :
      (key1 key2 : List ℕ)
      → IsCipher (lib.encrypt (lib.set_2keys key1 key2)) (lib.decrypt (lib.set_2keys key1 key2))
  pub three_keys :
      (key1 key2 key3 : List ℕ)
      → IsCipher
          (lib.encrypt (lib.set_3keys key1 key2 key3))
          (lib.decrypt (lib.set_3keys key1 key2 key3))

pub length-take_le : (n : ℕ) (cs : List ℕ) → n ≤ length cs → length (take n cs) ≡ n
length-take_le zero cs h = refl
length-take_le (suc n) [] h = absurd (omega arith)
length-take_le (suc n) (c ∷ cs) h = ap suc (length-take_le n cs (omega arith))

pub length-drop_le : (n : ℕ) (cs : List ℕ) → n ≤ length cs → n + length (drop n cs) ≡ length cs
length-drop_le zero cs h = omega arith
length-drop_le (suc n) [] h = absurd (omega arith)
length-drop_le (suc n) (c ∷ cs) h = omega (arith, length-drop_le n cs (omega arith))

pub take-AreBytes : (n : ℕ) (cs : List ℕ) → AreBytes cs → AreBytes (take n cs)
take-AreBytes zero cs h = tt
take-AreBytes (suc n) [] h = tt
take-AreBytes (suc n) (c ∷ cs) h = (h.0, take-AreBytes n cs (h.1))

pub drop-AreBytes : (n : ℕ) (cs : List ℕ) → AreBytes cs → AreBytes (drop n cs)
drop-AreBytes zero cs h = h
drop-AreBytes (suc n) [] h = tt
drop-AreBytes (suc n) (c ∷ cs) h = drop-AreBytes n cs (h.1)

pub append-AreBytes : (xs ys : List ℕ) → AreBytes xs → AreBytes ys → AreBytes (xs ++ ys)
append-AreBytes [] ys h k = k
append-AreBytes (x ∷ xs) ys h k = (h.0, append-AreBytes xs ys (h.1) k)

append-take-drop : (n : ℕ) (cs : List ℕ) → take n cs ++ drop n cs ≡ cs
append-take-drop zero cs = refl
append-take-drop (suc n) [] = refl
append-take-drop (suc n) (c ∷ cs) = ap (λ t. c ∷ t) (append-take-drop n cs)

take-drop :
    (n m : ℕ) (cs : List ℕ) → n ≤ length cs → take n cs ++ take m (drop n cs) ≡ take (n + m) cs
take-drop n m cs h =
    let size = length-take_le n cs h in
    sym (take-append (take n cs) (drop n cs) (n + m) m (omega (arith, size)))
    ∙ ap (take (n + m)) (append-take-drop n cs)

take-left : (n : ℕ) (cs rest : List ℕ) → n ≤ length cs → take n (cs ++ rest) ≡ take n cs
take-left zero cs rest h = refl
take-left (suc n) [] rest h = absurd (omega arith)
take-left (suc n) (c ∷ cs) rest h = ap (λ t. c ∷ t) (take-left n cs rest (omega arith))

module _ (f g : List ℕ → List ℕ) (is : IsCipher f g) where
  pub length-blocks : (n : ℕ) (cs : List ℕ) → 8 * n ≤ length cs → length (blocks f n cs) ≡ 8 * n
  length-blocks zero cs h = omega arith
  length-blocks (suc n) cs h = omega (
    arith,
    length-append (f (take 8 cs)) (blocks f n (drop 8 cs)),
    is.length_is (take 8 cs) (length-take_le 8 cs (omega arith)),
    length-blocks n (drop 8 cs) (omega (arith, length-drop_le 8 cs (omega arith))),
  )

  -- The blocks of a text in an array are those of the text.
  pub blocks-append :
      (n : ℕ) (cs rest : List ℕ) → 8 * n ≤ length cs → blocks f n (cs ++ rest) ≡ blocks f n cs
  blocks-append zero cs rest h = refl
  blocks-append (suc n) cs rest h = ap₂ ◌++◌ (ap f (take-left 8 cs rest (omega arith))) (
      ap (blocks f n) (drop-append 8 cs rest (omega arith))
      ∙ blocks-append n (drop 8 cs) rest (omega (arith, length-drop_le 8 cs (omega arith))))

  -- Decrypting the blocks that were encrypted gives the text as far as its blocks go.
  pub blocks-inverse :
      (n : ℕ) (cs rest : List ℕ)
      → 8 * n ≤ length cs
      → AreBytes cs
      → blocks g n (blocks f n cs ++ rest) ≡ take (8 * n) cs
  blocks-inverse zero cs rest h b =
      let none_left : 0 ≡ 8 * 0 = omega arith in ap (λ k. take k cs) none_left
  blocks-inverse (suc n) cs rest h b =
      let first = f (take 8 cs) in
      let others = blocks f n (drop 8 cs) in
      let size = length-take_le 8 cs (omega arith) in
      let left = length-drop_le 8 cs (omega arith) in
      let eight : 8 ≡ length first = sym (is.length_is (take 8 cs) size) in
      let sum : 8 + 8 * n ≡ 8 * suc n = omega arith in
      rw
        (
          append_assoc first others rest,
          take-length first (others ++ rest) 8 eight,
          drop-length first (others ++ rest) 8 eight,
          is.inverse (take 8 cs) size (take-AreBytes 8 cs b),
          blocks-inverse n (drop 8 cs) rest (omega (arith, left)) (drop-AreBytes 8 cs b),
        )
        (take-drop 8 (8 * n) cs (omega arith) ∙ ap (λ k. take k cs) sum)

pub length-zeros : (n : ℕ) → length (zeros n) ≡ n
length-zeros zero = refl
length-zeros (suc n) = ap suc (length-zeros n)
