-- ===== src/Strings/Comment.antt =====
-- estring.c: `delete_comment` and `char_at`.
use libeasy.Prelude.{
  ℕ, suc, ◌+◌, ◌≡◌, refl, ap, ◌∙◌, some, List, [], ◌∷◌, map, arith, length, ◌==◌, if◌then◌else◌,
  Bool-cases, inl, inr, ◌⊎◌, get_elem?,
}
use libeasy.Prelude.Int.{pos, negsuc}
use libeasy.Strings.{text_of, delete_comment, char_from, char_at}

-- The part of a text before a byte.
unfoldable pub before : ℕ → List ℕ → List ℕ
before c [] = []
before c (b ∷ text) = let rest = before c text in if b == c then [] else b ∷ rest

text_of-map :
    (c : ℕ) (text : List ℕ)
    → text_of text ≡ text
    → text_of (map (λ b. if b == c then 0 else b) text) ≡ before c text
unfolding text_of before
text_of-map c [] h = refl
text_of-map c (b ∷ text) h = elim (Bool-cases (b == 0)) [
  | inl zero_byte ↦ let no : [] ≡ b ∷ text = rw (zero_byte) at h in absurd (cc)
  | inr other ↦
      let whole : b ∷ text_of text ≡ b ∷ text = rw (other) at h in
      elim (Bool-cases (b == c)) [
        | inl hit ↦ rw (hit) refl
        | inr miss ↦ rw (miss, other) (ap (λ t. b ∷ t) (text_of-map c text (cc)))
      ]
]

length-map {ℓ κ} :
    {A : Type ℓ} {B : Type κ} (f : A → B) (xs : List A) → length (map f xs) ≡ length xs
length-map f [] = refl
length-map f (x ∷ xs) = ap suc (length-map f xs)

-- `delete_comment` cuts a text, which has no zero in it, off before the first comment character, and
-- writes to none but its own bytes.
pub delete_comment-before :
    (c : ℕ) (text : List ℕ)
    → text_of text ≡ text
    → (bytes : List ℕ) × (delete_comment (some text) c ≡ some bytes)
      × (text_of bytes ≡ before c text)
      × (length bytes ≡ length text)
unfolding delete_comment
delete_comment-before c text h =
    (map (λ b. if b == c then 0 else b) text, refl, text_of-map c text h, length-map _ text)

char_from-before :
    (i c : ℕ) (text : List ℕ)
    → ((char_from i text c ≡ negsuc 0) × (before c text ≡ text))
      ⊎ ((char_from i text c ≡ pos (i + length (before c text)))
          × (get_elem? text (length (before c text)) ≡ some c))
unfolding char_from before
char_from-before i c [] = inl (refl, refl)
char_from-before i c (b ∷ text) = elim (Bool-cases (b == c)) [
  | inl hit ↦
      let same : b ≡ c = ground arith in
      let at : i ≡ i + 0 = omega arith in rw (hit) (inr (ap pos at, ap some same))
  | inr miss ↦ rw (miss) (elim (char_from-before (i + 1) c text) [
    | inl (absent, whole) ↦ inl (absent, ap (λ t. b ∷ t) whole)
    | inr (place, found) ↦
        let at : i + 1 + length (before c text) ≡ i + suc (length (before c text)) = omega arith in
        inr (place ∙ ap pos at, found)
  ])
]

-- `char_at` answers the length of what is before the character, or -1 where it is not there.
pub char_at-before :
    (c : ℕ) (text : List ℕ)
    → ((char_at (some text) c ≡ negsuc 0) × (before c text ≡ text))
      ⊎ ((char_at (some text) c ≡ pos (length (before c text)))
          × (get_elem? text (length (before c text)) ≡ some c))
char_at-before c text = elim (char_from-before 0 c text) [
  | inl absent ↦ inl absent
  | inr (place, found) ↦
      let at : 0 + length (before c text) ≡ length (before c text) = omega arith in
      inr (place ∙ ap pos at, found)
]
