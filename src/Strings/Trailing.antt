-- ===== src/Strings/Trailing.antt =====
-- estring.c: the loop of `trim_str` from the end of the text.
use libeasy.Prelude.{
  ℕ, zero, suc, ◌-◌, ◌≤◌, ◌≡◌, refl, sym, ap, subst, ◌∙◌, Bool, true, false, Option, none, some,
  List, [], ◌∷◌, ◌++◌, arith, length, length-append, set, get_elem?, replicate, Bool-cases, inl,
  inr, if◌then◌else◌, append_assoc, append-nil,
}
use libeasy.Strings.{is_space, is_white, all_white, clear_trailing}

-- A text without the spaces and tabs at its start.
unfoldable pub strip_start : List ℕ → List ℕ
strip_start [] = []
strip_start (b ∷ text) = let rest = strip_start text in if is_space b then rest else b ∷ text

-- A byte in front of a text, left out where it is white and nothing follows.
abbrev pub unless_last : ℕ → List ℕ → List ℕ
unless_last b [] = if is_white b then [] else b ∷ []
unless_last b (c ∷ text) = b ∷ c ∷ text

-- A text without the white bytes at its end.
unfoldable pub strip_end : List ℕ → List ℕ
strip_end [] = []
strip_end (b ∷ text) = unless_last b (strip_end text)

strip_end_white :
    (xs : List ℕ) (b : ℕ) → is_white b ≡ true → strip_end (xs ++ b ∷ []) ≡ strip_end xs
unfolding strip_end
strip_end_white [] b h = rw (h) refl
strip_end_white (x ∷ xs) b h = ap (λ t. unless_last x t) (strip_end_white xs b h)

unless_last-snoc : (x : ℕ) (xs : List ℕ) (b : ℕ) → unless_last x (xs ++ b ∷ []) ≡ x ∷ (xs ++ b ∷ [])
unless_last-snoc x [] b = refl
unless_last-snoc x (y ∷ xs) b = refl

strip_end_other :
    (xs : List ℕ) (b : ℕ) → is_white b ≡ false → strip_end (xs ++ b ∷ []) ≡ xs ++ b ∷ []
unfolding strip_end
strip_end_other [] b h = rw (h) refl
strip_end_other (x ∷ xs) b h =
    ap (λ t. unless_last x t) (strip_end_other xs b h) ∙ unless_last-snoc x xs b

pub length-strip_end : (xs : List ℕ) → length (strip_end xs) ≤ length xs
unfolding strip_end
length-strip_end [] = omega arith
length-strip_end (x ∷ xs) = length-unless_last x (strip_end xs) (length xs) (length-strip_end xs)
  where
    length-unless_last :
        (b : ℕ) (text : List ℕ) (n : ℕ) → length text ≤ n → length (unless_last b text) ≤ suc n
    length-unless_last b [] n h = elim (Bool-cases (is_white b)) [
      | inl white ↦ rw (white) (omega arith)
      | inr other ↦ rw (other) (omega arith)
    ]
    length-unless_last b (c ∷ text) n h = omega arith

all_white-snoc :
    (xs : List ℕ) (b : ℕ) → all_white (xs ++ b ∷ []) ≡ (if all_white xs then is_white b else false)
unfolding all_white
all_white-snoc [] b = elim (Bool-cases (is_white b)) [
  | inl white ↦ rw (white) refl
  | inr other ↦ rw (other) refl
]
all_white-snoc (x ∷ xs) b = elim (Bool-cases (is_white x)) [
  | inl white ↦ rw (white) (all_white-snoc xs b)
  | inr other ↦ rw (other) refl
]

pub set-append :
    (xs : List ℕ) (b v : ℕ) (ys : List ℕ) → set (xs ++ b ∷ ys) (length xs) v ≡ xs ++ v ∷ ys
set-append [] b v ys = refl
set-append (x ∷ xs) b v ys = ap (λ t. x ∷ t) (set-append xs b v ys)

get_elem?-append :
    (xs : List ℕ) (b : ℕ) (ys : List ℕ) → get_elem? (xs ++ b ∷ ys) (length xs) ≡ some b
get_elem?-append [] b ys = refl
get_elem?-append (x ∷ xs) b ys = get_elem?-append xs b ys

-- The last byte of a text, and what is before it.
snoc_of : (x : ℕ) (xs : List ℕ) → (init : List ℕ) × (b : ℕ) × (x ∷ xs ≡ init ++ b ∷ [])
snoc_of x [] = ([], x, refl)
snoc_of x (y ∷ xs) = let r = snoc_of y xs in (x ∷ r.0, r.1, ap (λ t. x ∷ t) (r.2))

-- A step of the second loop, at the byte `b` behind `init`.
clear_trailing_white :
    (init : List ℕ) (b : ℕ) (ys : List ℕ)
    → is_white b ≡ true
    → clear_trailing (suc (length init)) (init ++ b ∷ ys)
      ≡ clear_trailing (length init) (init ++ 0 ∷ ys)
unfolding clear_trailing
clear_trailing_white init b ys h = rw (get_elem?-append init b ys, set-append init b 0 ys, h) refl

clear_trailing_other :
    (init : List ℕ) (b : ℕ) (ys : List ℕ)
    → is_white b ≡ false
    → clear_trailing (suc (length init)) (init ++ b ∷ ys) ≡ some (init ++ b ∷ ys)
unfolding clear_trailing
clear_trailing_other init b ys h = rw (get_elem?-append init b ys, h) refl

replicate-snoc : (k : ℕ) (ys : List ℕ) → replicate k 0 ++ 0 ∷ ys ≡ replicate (suc k) 0 ++ ys
replicate-snoc zero ys = refl
replicate-snoc (suc k) ys = ap (λ t. 0 ∷ t) (replicate-snoc k ys)

-- What the second loop leaves of the bytes `xs`.
abbrev pub cleared : List ℕ → List ℕ
cleared xs = strip_end xs ++ replicate (length xs - length (strip_end xs)) 0

cleared_white :
    (init : List ℕ) (b : ℕ) → is_white b ≡ true → cleared (init ++ b ∷ []) ≡ cleared init ++ 0 ∷ []
cleared_white init b h =
    let l = length-strip_end init in
    let more : length (init ++ b ∷ []) - length (strip_end init)
        ≡ suc (length init - length (strip_end init)) =
      omega (arith, length-append init (b ∷ [])) in
    ap (λ t. t ++ replicate (length (init ++ b ∷ []) - length t) 0) (strip_end_white init b h)
    ∙ ap (λ k. strip_end init ++ replicate k 0) more
    ∙ ap (λ t. strip_end init ++ t)
        (sym (append-nil (replicate (suc (length init - length (strip_end init))) 0))
          ∙ sym (replicate-snoc (length init - length (strip_end init)) []))
    ∙ sym (
        append_assoc (strip_end init) (replicate (length init - length (strip_end init)) 0)
          (0 ∷ []))

cleared_other :
    (init : List ℕ) (b : ℕ) → is_white b ≡ false → cleared (init ++ b ∷ []) ≡ init ++ b ∷ []
cleared_other init b h =
    let none_left : length (init ++ b ∷ []) - length (init ++ b ∷ []) ≡ 0 = omega arith in
    ap (λ t. t ++ replicate (length (init ++ b ∷ []) - length t) 0) (strip_end_other init b h)
    ∙ ap (λ k. (init ++ b ∷ []) ++ replicate k 0) none_left
    ∙ append-nil (init ++ b ∷ [])

-- What the loop makes of `xs`, with `ys` behind it.
abbrev pub outcome : List ℕ → List ℕ → Option (List ℕ)
outcome xs ys = if all_white xs then none else some (cleared xs ++ ys)

outcome_white :
    (init : List ℕ) (b : ℕ) (ys : List ℕ)
    → is_white b ≡ true
    → outcome init (0 ∷ ys) ≡ outcome (init ++ b ∷ []) ys
outcome_white init b ys h = elim (Bool-cases (all_white init)) [
  | inl blank ↦
      let both : all_white (init ++ b ∷ []) ≡ true = all_white-snoc init b ∙ rw (blank) h in
      rw (blank, both) refl
  | inr text ↦
      let both : all_white (init ++ b ∷ []) ≡ false = all_white-snoc init b ∙ rw (text) refl in
      rw (text, both)
        (ap some (
          sym (append_assoc (cleared init) (0 ∷ []) ys)
          ∙ ap (λ t. t ++ ys) (sym (cleared_white init b h))))
]

outcome_other :
    (init : List ℕ) (b : ℕ) (ys : List ℕ)
    → is_white b ≡ false
    → some (init ++ b ∷ ys) ≡ outcome (init ++ b ∷ []) ys
outcome_other init b ys h =
    let any = all_white-snoc init b in
    let text : all_white (init ++ b ∷ []) ≡ false = any ∙ if_false (all_white init) h in
    rw (text) (
      ap some
        (sym (append_assoc init (b ∷ []) ys) ∙ ap (λ t. t ++ ys) (sym (cleared_other init b h))))
  where
    if_false : (c : Bool) {d : Bool} → d ≡ false → (if c then d else false) ≡ false
    if_false true h = h
    if_false false h = refl

-- The loop clears the white bytes at the end of a text, and leaves a blank one downwards.
pub clear_trailing-outcome :
    (n : ℕ) (xs ys : List ℕ) → length xs ≡ n → clear_trailing n (xs ++ ys) ≡ outcome xs ys
unfolding clear_trailing all_white
clear_trailing-outcome zero [] ys l = refl
clear_trailing-outcome (suc n) [] ys l = absurd (omega arith)
clear_trailing-outcome zero (x ∷ xs) ys l = absurd (omega arith)
clear_trailing-outcome (suc n) (x ∷ xs) ys l =
    let s = snoc_of x xs in
    let init = s.0 in
    let b = s.1 in
    let e : x ∷ xs ≡ init ++ b ∷ [] = s.2 in
    let k : length (x ∷ xs) ≡ length (init ++ b ∷ []) = ap length e in
    let m : length init ≡ n = omega (arith, length-append init (b ∷ [])) in
    subst (λ t. clear_trailing (suc n) (t ++ ys) ≡ outcome t ys) (sym e)
      (ap (λ t. clear_trailing (suc n) t) (append_assoc init (b ∷ []) ys)
        ∙ elim (Bool-cases (is_white b)) [
          | inl white ↦
              ap (λ k. clear_trailing (suc k) (init ++ b ∷ ys)) (sym m)
              ∙ clear_trailing_white init b ys white
              ∙ ap (λ k. clear_trailing k (init ++ 0 ∷ ys)) m
              ∙ clear_trailing-outcome n init (0 ∷ ys) m
              ∙ outcome_white init b ys white
          | inr other ↦
              ap (λ k. clear_trailing (suc k) (init ++ b ∷ ys)) (sym m)
              ∙ clear_trailing_other init b ys other
              ∙ outcome_other init b ys other
        ])
