-- ===== src/Streams/Linked.antt =====
-- The links of the streams of a list, in order.
use libeasy.Prelude.{
  ℕ, ◌≡◌, refl, sym, ap, ◌∙◌, true, false, Option, none, some, List, [], ◌∷◌, ◌++◌, arith, ◌==◌,
}
use libeasy.Prelude.Maps.{has, Distinct}
use libeasy.Streams.{Store, set_next, set_last}

abbrev pub first : List ℕ → Option ℕ → Option ℕ
first [] n = n
first (x ∷ xs) n = some x

abbrev pub final : List ℕ → Option ℕ
final [] = none
final (x ∷ []) = some x
final (x ∷ y ∷ xs) = final (y ∷ xs)

-- The streams `xs` stand in this order between the streams `p` and `n`.
abbrev pub Linked : Store → (p : Option ℕ) → List ℕ → (n : Option ℕ) → Type 0
Linked h p [] n = Unit
Linked h p (x ∷ xs) n = ((h x).last ≡ p) × ((h x).next ≡ first xs n) × Linked h (some x) xs n

-- The stream before what follows `xs`.
abbrev pub last_of : Option ℕ → List ℕ → Option ℕ
last_of p [] = p
last_of p (x ∷ xs) = last_of (some x) xs

pub final-has : (xs : List ℕ) (a : ℕ) → final xs ≡ some a → has a xs ≡ true
final-has [] a e = absurd (cc)
final-has (x ∷ []) a e = let same : x ≡ a = cc in ground arith
final-has (x ∷ y ∷ xs) a e = let h = final-has (y ∷ xs) a e in ground arith

pub frame :
    (h g : Store) (p : Option ℕ) (xs : List ℕ) (n : Option ℕ)
    → Linked h p xs n
    → ((a : ℕ) → has a xs ≡ true → g a ≡ h a)
    → Linked g p xs n
frame h g p [] n l same = tt
frame h g p (x ∷ xs) n l same =
    let e = same x (ground arith) in
    (
      ap (λ k. k.last) e ∙ l.0,
      ap (λ k. k.next) e ∙ l.1,
      frame h g (some x) xs n (l.2) (λ a i. same a (ground arith)),
    )

pub first-append : (xs ys : List ℕ) (n : Option ℕ) → first (xs ++ ys) n ≡ first xs (first ys n)
first-append [] ys n = refl
first-append (x ∷ xs) ys n = refl

pub split :
    (h : Store) (p : Option ℕ) (xs ys : List ℕ) (n : Option ℕ)
    → Linked h p (xs ++ ys) n
    → Linked h p xs (first ys n) × Linked h (last_of p xs) ys n
split h p [] ys n l = (tt, l)
split h p (x ∷ xs) ys n l =
    let r = split h (some x) xs ys n (l.2) in ((l.0, l.1 ∙ first-append xs ys n, r.0), r.1)

pub join :
    (h : Store) (p : Option ℕ) (xs ys : List ℕ) (n : Option ℕ)
    → Linked h p xs (first ys n)
    → Linked h (last_of p xs) ys n
    → Linked h p (xs ++ ys) n
join h p [] ys n l m = m
join h p (x ∷ xs) ys n l m =
    (l.0, l.1 ∙ sym (first-append xs ys n), join h (some x) xs ys n (l.2) m)

-- Another stream is set behind the last.
pub relink_end :
    (h : Store) (p : Option ℕ) (xs : List ℕ) (n m : Option ℕ) (a : ℕ)
    → Distinct xs
    → final xs ≡ some a
    → Linked h p xs n
    → Linked (set_next h a m) p xs m
relink_end h p [] n m a d e l = tt
relink_end h p (x ∷ []) n m a d e l = let same : x ≡ a = cc in ground arith
relink_end h p (x ∷ y ∷ xs) n m a d e l =
    let i = final-has (y ∷ xs) a e in
    let other : (a == x) ≡ false = ground (arith, d.0) in
    (rw (other) (l.0), rw (other) (l.1), relink_end h (some x) (y ∷ xs) n m a (d.1) e (l.2))

-- Another stream is set before the first.
pub relink_start :
    (h : Store) (p q : Option ℕ) (x : ℕ) (xs : List ℕ) (n : Option ℕ)
    → Distinct (x ∷ xs)
    → Linked h p (x ∷ xs) n
    → Linked (set_last h x q) q (x ∷ xs) n
relink_start h p q x xs n d l =
    let self : (x == x) ≡ true = ground arith in
    (
      rw (self) refl,
      rw (self) (l.1),
      frame h (set_last h x q) (some x) xs n (l.2) (λ a i. ground (arith, d.0)),
    )

pub last_of-final : (x : ℕ) (xs : List ℕ) → last_of (some x) xs ≡ final (x ∷ xs)
last_of-final x [] = refl
last_of-final x (y ∷ xs) = last_of-final y xs

pub final-some : (x : ℕ) (xs : List ℕ) → (a : ℕ) × (final (x ∷ xs) ≡ some a)
final-some x [] = (x, refl)
final-some x (y ∷ xs) = final-some y xs

pub final-append : (xs : List ℕ) (y : ℕ) (ys : List ℕ) → final (xs ++ y ∷ ys) ≡ final (y ∷ ys)
final-append [] y ys = refl
final-append (x ∷ []) y ys = refl
final-append (x ∷ z ∷ xs) y ys = final-append (z ∷ xs) y ys
