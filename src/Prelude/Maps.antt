-- ===== src/Prelude/Maps.antt =====
-- Maps as functions, and membership of numbers in lists.
use libeasy.Prelude.{
  ℕ, zero, suc, ◌+◌, ltb, leb, ◌&&◌, ◌≡◌, refl, ap, ◌∙◌, Bool, true, false, ◌||◌, List, [], ◌∷◌,
  ◌++◌, arith, ◌==◌, if◌then◌else◌, Bool-cases, inl, inr,
}

abbrev pub update {ℓ} : {A : Type ℓ} → (ℕ → A) → ℕ → A → ℕ → A
update f p v q = if p == q then v else f q

abbrev pub has : ℕ → List ℕ → Bool
has a [] = false
has a (x ∷ xs) = (a == x) || has a xs

-- No number stands in the list twice.
abbrev pub Distinct : List ℕ → Type 0
Distinct [] = Unit
Distinct (x ∷ xs) = (has x xs ≡ false) × Distinct xs

pub has-append : (a : ℕ) (xs ys : List ℕ) → has a (xs ++ ys) ≡ (has a xs || has a ys)
has-append a [] ys = refl
has-append a (x ∷ xs) ys = ground (arith, has-append a xs ys)

-- The parts of a list without repetition have none, and nothing in common.
pub Distinct-left : (xs ys : List ℕ) → Distinct (xs ++ ys) → Distinct xs
Distinct-left [] ys d = tt
Distinct-left (x ∷ xs) ys d = (ground (arith, has-append x xs ys, d.0), Distinct-left xs ys (d.1))

pub Distinct-right : (xs ys : List ℕ) → Distinct (xs ++ ys) → Distinct ys
Distinct-right [] ys d = d
Distinct-right (x ∷ xs) ys d = Distinct-right xs ys (d.1)

pub Distinct-apart :
    (xs ys : List ℕ) (a : ℕ) → Distinct (xs ++ ys) → has a xs ≡ true → has a ys ≡ false
Distinct-apart [] ys a d h = absurd (cc)
Distinct-apart (x ∷ xs) ys a d h =
    ground (arith, has-append x xs ys, d.0, Distinct-apart xs ys a (d.1))

pub Distinct-append :
    (xs ys : List ℕ)
    → Distinct xs
    → Distinct ys
    → ((a : ℕ) → has a xs ≡ true → has a ys ≡ false)
    → Distinct (xs ++ ys)
Distinct-append [] ys d e apart = e
Distinct-append (x ∷ xs) ys d e apart = (
  ground (arith, has-append x xs ys, d.0, apart x),
  Distinct-append xs ys (d.1) e (λ a h. apart a (ground arith)),
)

pub has_ne : (a b : ℕ) (xs : List ℕ) → has a xs ≡ false → has b xs ≡ true → (b == a) ≡ false
has_ne a b xs h k = elim (Bool-cases (b == a)) [
  | inl hit ↦
      let same : b ≡ a = ground arith in
      let no : has b xs ≡ false = ap (λ c. has c xs) same ∙ h in absurd (cc)
  | inr miss ↦ miss
]

module _ {ℓ} {A : Type ℓ} (f : ℕ → A) (p : ℕ) (v : A) where
  pub update_self : update f p v p ≡ v
  update_self = ground arith

  pub update_ne : (q : ℕ) → (p == q) ≡ false → update f p v q ≡ f q
  update_ne q h = ap (λ b. if b then v else f q) h

pub ne_sym : (a b : ℕ) → (a == b) ≡ false → (b == a) ≡ false
ne_sym a b h = ground arith

-- Where a member stands.
pub record Split (x : ℕ) (xs : List ℕ) : Type 0 where
  pub before : List ℕ
  pub after : List ℕ
  pub is : xs ≡ before ++ x ∷ after

pub has-Split : (x : ℕ) (xs : List ℕ) → has x xs ≡ true → Split x xs
has-Split x [] h = absurd (cc)
has-Split x (y ∷ xs) h = elim (Bool-cases (x == y)) [
  | inl hit ↦ record { before = []; after = xs; is = ap (λ a. a ∷ xs) (ground arith) }
  | inr miss ↦
      let more = has-Split x xs (ground arith) in
      record { before = y ∷ more.before; after = more.after; is = ap (λ rest. y ∷ rest) more.is }
]

-- The numbers from `i` on, `n` of them.
abbrev pub upto : (i n : ℕ) → List ℕ
upto i zero = []
upto i (suc n) = i ∷ upto (suc i) n

pub has-upto : (a i n : ℕ) → has a (upto i n) ≡ (leb i a && ltb a (i + n))
has-upto a i zero = ground arith
has-upto a i (suc n) = ground (arith, has-upto a (suc i) n)

pub upto-last : (i n : ℕ) → upto i (suc n) ≡ upto i n ++ (i + n) ∷ []
upto-last i zero = ap (λ k. k ∷ []) (omega arith)
upto-last i (suc n) =
    ap (λ ks. i ∷ ks) (upto-last (suc i) n ∙ ap (λ k. upto (suc i) n ++ k ∷ []) (omega arith))

pub has-upto_first : (a n : ℕ) → has a (upto 0 n) ≡ ltb a n
has-upto_first a n = ground (arith, has-upto a 0 n)

pub has-upto_with : (a n : ℕ) → ((a == n) || has a (upto 0 n)) ≡ ltb a (suc n)
has-upto_with a n = ground (arith, has-upto a 0 n)
