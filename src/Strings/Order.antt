-- ===== src/Strings/Order.antt =====
-- estring.c: the order of `str_cmp`.
use libeasy.Prelude.{
  ℕ, zero, suc, ◌≤◌, ◌≡◌, ◌↔◌, ◌⊎◌, inl, inr, refl, sym, ap, ap₂, ◌∙◌, false, List, [], ◌∷◌, arith,
  length, ltb, if◌then◌else◌, Bool-cases,
}
use libeasy.Prelude.Int.{ℤ, pos, negsuc}
use libeasy.Strings.{memcmp, by_size, str_cmp}

-- The order of the dictionary: by the first byte that differs, a prefix before what is longer.
unfoldable pub lexicographic : List ℕ → List ℕ → ℤ
lexicographic [] [] = pos 0
lexicographic [] (y ∷ ys) = negsuc 0
lexicographic (x ∷ xs) [] = pos 1
lexicographic (x ∷ xs) (y ∷ ys) =
    let rest = lexicographic xs ys in if ltb x y then negsuc 0 else if ltb y x then pos 1 else rest

by_size-suc : (r : ℤ) (m n : ℕ) → by_size r (suc m) (suc n) ≡ by_size r m n
by_size-suc (negsuc k) m n = refl
by_size-suc (pos (suc k)) m n = refl
by_size-suc (pos zero) m n = ground arith

by_size_first :
    (x y : ℕ) (rest other : ℤ) (m n : ℕ)
    → by_size rest m n ≡ other
    → by_size (if ltb x y then negsuc 0 else if ltb y x then pos 1 else rest) (suc m) (suc n)
      ≡ (if ltb x y then negsuc 0 else if ltb y x then pos 1 else other)
by_size_first x y rest other m n h = elim (Bool-cases (ltb x y)) [
  | inl less ↦ rw (less) refl
  | inr a ↦ elim (Bool-cases (ltb y x)) [
    | inl more ↦ rw (a, more) refl
    | inr b ↦ rw (a, b) (by_size-suc rest m n ∙ h)
  ]
]

by_size-memcmp :
    (k : ℕ) (xs ys : List ℕ)
    → k ≤ length xs
    → k ≤ length ys
    → (length xs ≡ k) ⊎ (length ys ≡ k)
    → by_size (memcmp k xs ys) (length xs) (length ys) ≡ lexicographic xs ys
unfolding lexicographic
by_size-memcmp zero [] [] h i e = refl
by_size-memcmp zero [] (y ∷ ys) h i e = ground arith
by_size-memcmp zero (x ∷ xs) [] h i e = ground arith
by_size-memcmp zero (x ∷ xs) (y ∷ ys) h i e = absurd (omega arith)
by_size-memcmp (suc k) [] ys h i e = absurd (omega arith)
by_size-memcmp (suc k) (x ∷ xs) [] h i e = absurd (omega arith)
by_size-memcmp (suc k) (x ∷ xs) (y ∷ ys) h i e =
    by_size_first x y (memcmp k xs ys) (lexicographic xs ys) (length xs) (length ys)
      (by_size-memcmp k xs ys (omega arith) (omega arith) (omega arith))

-- `str_cmp` answers -1, 0 or 1 by the order of the dictionary.
pub str_cmp-lexicographic : (xs ys : List ℕ) → str_cmp xs ys ≡ lexicographic xs ys
unfolding str_cmp
str_cmp-lexicographic xs ys =
    by_size-memcmp (if ltb (length xs) (length ys) then length xs else length ys) xs ys
      (ground arith) (ground arith) (ground arith)

pub opposite : ℤ → ℤ
opposite (negsuc n) = pos 1
opposite (pos zero) = pos 0
opposite (pos (suc n)) = negsuc 0

lexicographic_swap : (xs ys : List ℕ) → lexicographic ys xs ≡ opposite (lexicographic xs ys)
unfolding lexicographic opposite
lexicographic_swap [] [] = refl
lexicographic_swap [] (y ∷ ys) = refl
lexicographic_swap (x ∷ xs) [] = refl
lexicographic_swap (x ∷ xs) (y ∷ ys) = elim (Bool-cases (ltb x y)) [
  | inl less ↦ let not_more : ltb y x ≡ false = ground arith in rw (less, not_more) refl
  | inr a ↦ elim (Bool-cases (ltb y x)) [
    | inl more ↦ rw (a, more) refl
    | inr b ↦ rw (a, b) (lexicographic_swap xs ys)
  ]
]

lexicographic_eq : (xs ys : List ℕ) → lexicographic xs ys ≡ pos 0 → xs ≡ ys
unfolding lexicographic
lexicographic_eq [] [] h = refl
lexicographic_eq [] (y ∷ ys) h = absurd (cc)
lexicographic_eq (x ∷ xs) [] h = absurd (cc)
lexicographic_eq (x ∷ xs) (y ∷ ys) h = elim (Bool-cases (ltb x y)) [
  | inl less ↦ let no : negsuc 0 ≡ pos 0 = rw (less) at h in absurd (cc)
  | inr a ↦ elim (Bool-cases (ltb y x)) [
    | inl more ↦ let no : pos 1 ≡ pos 0 = rw (a, more) at h in absurd (cc)
    | inr b ↦
        let same : x ≡ y = ground arith in
        ap₂ (λ c t. c ∷ t) same (lexicographic_eq xs ys (rw (a, b) at h))
  ]
]

lexicographic_self : (xs : List ℕ) → lexicographic xs xs ≡ pos 0
unfolding lexicographic
lexicographic_self [] = refl
lexicographic_self (x ∷ xs) =
    let a : ltb x x ≡ false = ground arith in rw (a) (lexicographic_self xs)

-- `str_cmp` answers 0 just for equal texts, and the other way round it answers the opposite.
pub str_cmp_order :
    (xs ys : List ℕ)
    → ((str_cmp xs ys ≡ pos 0) ↔ (xs ≡ ys)) × (str_cmp ys xs ≡ opposite (str_cmp xs ys))
str_cmp_order xs ys = (
  (
    λ h. lexicographic_eq xs ys (sym (str_cmp-lexicographic xs ys) ∙ h),
    λ e. ap (λ t. str_cmp t ys) e ∙ str_cmp-lexicographic ys ys ∙ lexicographic_self ys,
  ),
  str_cmp-lexicographic ys xs
      ∙ lexicographic_swap xs ys
      ∙ ap opposite (sym (str_cmp-lexicographic xs ys)),
)
