-- ===== src/Prelude/Slices.antt =====
-- Parts of lists: `take` and `drop` against `++`.
use libeasy.Prelude.{
  ℕ, zero, suc, ◌+◌, ◌-◌, ◌≤◌, ◌≡◌, refl, sym, ap, ◌∙◌, some, List, [], ◌∷◌, ◌++◌, arith, length,
  length-append, get_elem?, take, drop,
}

module _ {ℓ} {A : Type ℓ} where
  pub append_≤ :
      (xs ys : List A) (a b : ℕ) → length xs ≤ a → length ys ≤ b → length (xs ++ ys) ≤ a + b
  append_≤ xs ys a b h k = omega (arith, length-append xs ys)

  pub drop-append : (i : ℕ) (xs ys : List A) → i ≤ length xs → drop i (xs ++ ys) ≡ drop i xs ++ ys
  drop-append zero xs ys h = refl
  drop-append (suc i) [] ys h = absurd (omega arith)
  drop-append (suc i) (x ∷ xs) ys h = drop-append i xs ys (omega arith)

  pub drop-length : (xs ys : List A) (n : ℕ) → n ≡ length xs → drop n (xs ++ ys) ≡ ys
  drop-length [] ys zero h = refl
  drop-length [] ys (suc n) h = absurd (omega arith)
  drop-length (x ∷ xs) ys zero h = absurd (omega arith)
  drop-length (x ∷ xs) ys (suc n) h = drop-length xs ys n (omega arith)

  pub take-length : (xs ys : List A) (n : ℕ) → n ≡ length xs → take n (xs ++ ys) ≡ xs
  take-length [] ys zero h = refl
  take-length [] ys (suc n) h = absurd (omega arith)
  take-length (x ∷ xs) ys zero h = absurd (omega arith)
  take-length (x ∷ xs) ys (suc n) h = ap (λ t. x ∷ t) (take-length xs ys n (omega arith))

  pub take-append :
      (xs ys : List A) (n k : ℕ) → n ≡ length xs + k → take n (xs ++ ys) ≡ xs ++ take k ys
  take-append [] ys n k h = ap (λ t. take t ys) (omega arith)
  take-append (x ∷ xs) ys zero k h = absurd (omega arith)
  take-append (x ∷ xs) ys (suc n) k h = ap (λ t. x ∷ t) (take-append xs ys n k (omega arith))

  pub drop-take : (i n : ℕ) (xs : List A) → drop i (take n xs) ≡ take (n - i) (drop i xs)
  drop-take zero n xs = ap (λ t. take t xs) (omega arith)
  drop-take (suc i) zero xs =
      let e : zero ≡ zero - suc i = omega arith in ap (λ t. take t (drop (suc i) xs)) e
  drop-take (suc i) (suc n) [] = sym (take-nil (suc n - suc i))
    where
      take-nil : (m : ℕ) → take {A = A} m [] ≡ []
      take-nil zero = refl
      take-nil (suc m) = refl
  drop-take (suc i) (suc n) (x ∷ xs) = drop-take i n xs ∙ ap (λ t. take t (drop i xs)) (omega arith)

  pub drop-drop : (i j : ℕ) (xs : List A) → drop j (drop i xs) ≡ drop (i + j) xs
  drop-drop zero j xs = ap (λ t. drop t xs) (omega arith)
  drop-drop (suc i) j [] = drop_nil j ∙ sym (drop_nil (suc i + j))
    where
      drop_nil : (m : ℕ) → drop {A = A} m [] ≡ []
      drop_nil zero = refl
      drop_nil (suc m) = refl
  drop-drop (suc i) j (x ∷ xs) =
      let e : suc (i + j) ≡ suc i + j = omega arith in
      drop-drop i j xs ∙ ap (λ t. drop t (x ∷ xs)) e

  pub take-take : (m n : ℕ) (xs : List A) → m ≤ n → take m (take n xs) ≡ take m xs
  take-take zero n xs h = refl
  take-take (suc m) zero xs h = absurd (omega arith)
  take-take (suc m) (suc n) [] h = refl
  take-take (suc m) (suc n) (x ∷ xs) h = ap (λ t. x ∷ t) (take-take m n xs (omega arith))

  pub take_all : (n : ℕ) (xs : List A) → length xs ≤ n → take n xs ≡ xs
  take_all zero [] h = refl
  take_all zero (x ∷ xs) h = absurd (omega arith)
  take_all (suc n) [] h = refl
  take_all (suc n) (x ∷ xs) h = ap (λ t. x ∷ t) (take_all n xs (omega arith))

  pub drop_all : (n : ℕ) (xs : List A) → length xs ≤ n → drop n xs ≡ []
  drop_all zero [] h = refl
  drop_all zero (x ∷ xs) h = absurd (omega arith)
  drop_all (suc n) [] h = refl
  drop_all (suc n) (x ∷ xs) h = drop_all n xs (omega arith)

  pub drop-cons :
      (i : ℕ) (xs : List A) {x : A} → get_elem? xs i ≡ some x → drop i xs ≡ x ∷ drop (i + 1) xs
  drop-cons i [] e = absurd (cc)
  drop-cons zero (y ∷ xs) {x} e =
      let one : suc zero ≡ 0 + 1 = omega arith in
      let same : y ≡ x = cc in rw same (ap (λ t. x ∷ drop t (x ∷ xs)) one)
  drop-cons (suc i) (y ∷ xs) {x} e =
      let e' : suc (i + 1) ≡ suc i + 1 = omega arith in
      drop-cons i xs e ∙ ap (λ t. x ∷ drop t (y ∷ xs)) e'

  -- What the head of a dropped list says of the list.
  pub get_elem?-drop :
      (i : ℕ) (xs : List A) {x : A} {ys : List A} → drop i xs ≡ x ∷ ys → get_elem? xs i ≡ some x
  get_elem?-drop zero [] e = absurd (cc)
  get_elem?-drop zero (y ∷ xs) e = cc
  get_elem?-drop (suc i) [] e = absurd (cc)
  get_elem?-drop (suc i) (y ∷ xs) e = get_elem?-drop i xs e

  pub drop-suc :
      (i : ℕ) (xs : List A) {x : A} {ys : List A} → drop i xs ≡ x ∷ ys → drop (i + 1) xs ≡ ys
  drop-suc i xs {x} {ys} e = sym (drop-drop i 1 xs) ∙ ap (drop 1) e
