-- ===== src/Streams/Chains.antt =====
-- What it is for the pointers of a list to hold a list of streams.
use libeasy.Prelude.{
  ℕ, suc, ◌≡◌, refl, ap, true, false, none, some, List, [], ◌∷◌, ◌++◌, arith, length,
}
use libeasy.Prelude.Int.{pos, ◌+ℤ◌, ◌-ℤ◌}
use libeasy.Prelude.Maps.{has, Distinct}
use libeasy.Streams.{Store, Chain, empty}
use libeasy.Streams.Linked.{first, final, Linked, last_of, frame, last_of-final}

-- The list from the head to the tail of `c` is `xs`, and no stream is in it twice.
pub record IsChain (h : Store) (c : Chain) (xs : List ℕ) : Type 0 where
  pub head_is : c.head ≡ first xs none
  pub tail_is : c.tail ≡ final xs
  pub num_is : c.num ≡ pos (length xs)
  pub linked : Linked h none xs none
  pub distinct : Distinct xs

pub empty-IsChain : (h : Store) → IsChain h empty []
empty-IsChain h = record {
  head_is = refl;
  tail_is = refl;
  num_is = refl;
  linked = tt;
  distinct = tt;
}

-- A change of other streams leaves a list.
pub frame-IsChain :
    (h g : Store) (c : Chain) (xs : List ℕ)
    → IsChain h c xs
    → ((a : ℕ) → has a xs ≡ true → g a ≡ h a)
    → IsChain g c xs
frame-IsChain h g c xs i same = record {
  head_is = i.head_is;
  tail_is = i.tail_is;
  num_is = i.num_is;
  linked = frame h g none xs none i.linked same;
  distinct = i.distinct;
}

pub pos_suc : (n : ℕ) → pos n +ℤ pos 1 ≡ pos (suc n)
unfolding ◌+ℤ◌
pos_suc n = ground arith

pub pos_pred : (n : ℕ) → pos (suc n) -ℤ pos 1 ≡ pos n
unfolding ◌-ℤ◌
pos_pred n = ground arith

-- A list became another, and no stream outside of `old` has other links.
pub record Changed (h : Store) (r : Store × Chain) (old new : List ℕ) : Type 0 where
  pub now_is : IsChain (r.0) (r.1) new
  pub others : (a : ℕ) → has a old ≡ false → (r.0) a ≡ h a

pub last_of-none : (ys : List ℕ) → last_of none ys ≡ final ys
last_of-none [] = refl
last_of-none (y ∷ ys) = last_of-final y ys

pub final-last : (xs : List ℕ) (x : ℕ) → final (xs ++ x ∷ []) ≡ some x
final-last [] x = refl
final-last (y ∷ []) x = refl
final-last (y ∷ z ∷ xs) x = final-last (z ∷ xs) x

-- The streams before the last one.
pub record Ends (x : ℕ) (xs : List ℕ) : Type 0 where
  pub before : List ℕ
  pub is : xs ≡ before ++ x ∷ []

pub final-Ends : (x : ℕ) (xs : List ℕ) → final xs ≡ some x → Ends x xs
final-Ends x [] e = absurd (cc)
final-Ends x (y ∷ []) e = record { before = []; is = ap (λ a. a ∷ []) (cc) }
final-Ends x (y ∷ z ∷ xs) e =
    let more = final-Ends x (z ∷ xs) e in
    record { before = y ∷ more.before; is = ap (λ rest. y ∷ rest) more.is }
