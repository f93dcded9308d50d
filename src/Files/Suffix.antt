-- ===== src/Files/Suffix.antt =====
-- eother.c: the suffix of a name is what stands behind its last dot.
use libeasy.Prelude.{
  ℕ, zero, suc, ◌≡◌, refl, sym, ap, ◌∙◌, true, false, Option, none, some, List, [], ◌∷◌, ◌==◌,
  if◌then◌else◌, length, get_or, Bool-cases, inl, inr,
}
use libeasy.Files.{find_dot, file_suffix}

-- What a later dot gives, or else what follows this byte if it is one.
abbrev pub or_here : ℕ → List ℕ → Option (List ℕ) → Option (List ℕ)
or_here c cs none = if c == b'.' then some cs else none
or_here c cs (some s) = some s

-- The bytes behind the last dot, by a search from the front.
abbrev pub behind_last : List ℕ → Option (List ℕ)
behind_last [] = none
behind_last (c ∷ cs) = or_here c cs (behind_last cs)

find_dot-cons : (n c : ℕ) (cs : List ℕ) → find_dot (suc n) (c ∷ cs) ≡ or_here c cs (find_dot n cs)
unfolding find_dot
find_dot-cons zero c cs = refl
find_dot-cons (suc n) c cs = elim (Bool-cases (get_or cs n 0 == b'.')) [
  | inl hit ↦ simp (hit) refl
  | inr miss ↦ simp (miss) (find_dot-cons n c cs)
]

find_dot-behind_last : (cs : List ℕ) → find_dot (length cs) cs ≡ behind_last cs
unfolding find_dot
find_dot-behind_last [] = refl
find_dot-behind_last (c ∷ cs) =
    find_dot-cons (length cs) c cs ∙ ap (or_here c cs) (find_dot-behind_last cs)

-- NULL for what is empty.
abbrev pub unless_empty : Option (List ℕ) → Option (List ℕ)
unless_empty none = none
unless_empty (some []) = none
unless_empty (some (c ∷ cs)) = some (c ∷ cs)

ends_in_dot :
    (c : ℕ) (cs : List ℕ)
    → (get_or (c ∷ cs) (length cs) 0 == b'.') ≡ true
    → behind_last (c ∷ cs) ≡ some []
ends_in_dot c [] h = ap (λ b. if b then some [] else none) h
ends_in_dot c (d ∷ ds) h = ap (or_here c (d ∷ ds)) (ends_in_dot d ds h)

keeps_some :
    (c d : ℕ) (ds : List ℕ) (o : Option (List ℕ))
    → unless_empty o ≡ o
    → unless_empty (or_here c (d ∷ ds) o) ≡ or_here c (d ∷ ds) o
keeps_some c d ds none e = elim (Bool-cases (c == b'.')) [
  | inl hit ↦ rw (hit) refl
  | inr miss ↦ rw (miss) refl
]
keeps_some c d ds (some s) e = e

ends_otherwise :
    (c : ℕ) (cs : List ℕ)
    → (get_or (c ∷ cs) (length cs) 0 == b'.') ≡ false
    → unless_empty (behind_last (c ∷ cs)) ≡ behind_last (c ∷ cs)
ends_otherwise c [] h = rw (h) refl
ends_otherwise c (d ∷ ds) h = keeps_some c d ds (behind_last (d ∷ ds)) (ends_otherwise d ds h)

-- `file_suffix` gives what stands behind the last dot of a name, without the dot, and NULL where that is
-- nothing or there is no dot.
pub file_suffix-behind_last :
    (name : List ℕ) → file_suffix (some name) ≡ unless_empty (behind_last name)
unfolding file_suffix
file_suffix-behind_last [] = refl
file_suffix-behind_last (c ∷ cs) = elim (Bool-cases (get_or (c ∷ cs) (length cs) 0 == b'.')) [
  | inl hit ↦ simp (hit) (sym (ap unless_empty (ends_in_dot c cs hit)))
  | inr miss ↦ simp (miss) (find_dot-behind_last (c ∷ cs) ∙ sym (ends_otherwise c cs miss))
]
