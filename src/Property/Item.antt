-- ===== src/Property/Item.antt =====
-- eproperty.c: lemmas on the texts in the buffer of a line.
use libeasy.Prelude.{
  ℕ, zero, suc, ◌+◌, ◌-◌, ◌≡◌, refl, sym, ap, ◌∙◌, Bool, true, false, some, List, [], ◌∷◌, ◌++◌,
  arith, ◌==◌, if◌then◌else◌, length, length-append, drop, replicate, append_assoc, map, Bool-cases,
  inl, inr,
}
use libeasy.Prelude.Fault.{◌>>=◌}
use libeasy.Prelude.Int.{pos, negsuc}
use libeasy.Prelude.Slices.{drop-length}
use libeasy.Strings.{
  is_white, is_space, all_white, leading, clear_trailing, text_of, char_from, comment_from,
}
use libeasy.Strings.Trailing.{
  strip_start, strip_end, unless_last, cleared, outcome, clear_trailing-outcome,
}
use libeasy.Strings.Trim.{strip_end_some}
use libeasy.Property.{trim_at}

-- A text without a byte.
unfoldable pub is_free : ℕ → List ℕ → Bool
is_free c [] = true
is_free c (b ∷ text) = let rest = is_free c text in if b == c then false else rest

is_free_tail :
    (c b : ℕ) (text : List ℕ)
    → is_free c (b ∷ text) ≡ true
    → ((b == c) ≡ false) × (is_free c text ≡ true)
unfolding is_free
is_free_tail c b text h = elim (Bool-cases (b == c)) [
  | inl hit ↦ let no : false ≡ true = rw (hit) at h in absurd (cc)
  | inr miss ↦ (miss, rw (miss) at h)
]

pub is_free_cons :
    (c b : ℕ) (text : List ℕ)
    → (b == c) ≡ false
    → is_free c text ≡ true
    → is_free c (b ∷ text) ≡ true
unfolding is_free
is_free_cons c b text h k = rw (h) k

pub is_free-append :
    (c : ℕ) (xs ys : List ℕ)
    → is_free c xs ≡ true
    → is_free c ys ≡ true
    → is_free c (xs ++ ys) ≡ true
is_free-append c [] ys h k = k
is_free-append c (x ∷ xs) ys h k =
    let r = is_free_tail c x xs h in
    is_free_cons c x (xs ++ ys) (r.0) (is_free-append c xs ys (r.1) k)

pub is_free-strip_start :
    (c : ℕ) (xs : List ℕ) → is_free c xs ≡ true → is_free c (strip_start xs) ≡ true
unfolding strip_start
is_free-strip_start c [] h = h
is_free-strip_start c (x ∷ xs) h = elim (Bool-cases (is_space x)) [
  | inl space ↦ rw (space) (is_free-strip_start c xs ((is_free_tail c x xs h).1))
  | inr other ↦ rw (other) h
]

pub is_free-strip_end :
    (c : ℕ) (xs : List ℕ) → is_free c xs ≡ true → is_free c (strip_end xs) ≡ true
unfolding strip_end is_free
is_free-strip_end c [] h = h
is_free-strip_end c (x ∷ xs) h =
    let r = is_free_tail c x xs h in
    is_free-unless_last c x (strip_end xs) (r.0) (is_free-strip_end c xs (r.1))
  where
    is_free-unless_last :
        (c x : ℕ) (t : List ℕ)
        → (x == c) ≡ false
        → is_free c t ≡ true
        → is_free c (unless_last x t) ≡ true
    is_free-unless_last c x [] h k = elim (Bool-cases (is_white x)) [
      | inl white ↦ rw (white) refl
      | inr other ↦ rw (other, h) refl
    ]
    is_free-unless_last c x (y ∷ t) h k = rw (h) k

-- The text in front of a zero, or of zeros.
pub text_of-zero : (xs ys : List ℕ) → is_free 0 xs ≡ true → text_of (xs ++ 0 ∷ ys) ≡ xs
unfolding text_of
text_of-zero [] ys h = refl
text_of-zero (x ∷ xs) ys h =
    let r = is_free_tail 0 x xs h in rw (r.0) (ap (λ t. x ∷ t) (text_of-zero xs ys (r.1)))

pub text_of-replicate :
    (xs : List ℕ) (k : ℕ) → is_free 0 xs ≡ true → text_of (xs ++ replicate k 0) ≡ xs
unfolding text_of
text_of-replicate [] zero h = refl
text_of-replicate [] (suc k) h = refl
text_of-replicate (x ∷ xs) k h =
    let r = is_free_tail 0 x xs h in rw (r.0) (ap (λ t. x ∷ t) (text_of-replicate xs k (r.1)))

pub text_of-replicate-zero :
    (xs : List ℕ) (k : ℕ) (ys : List ℕ)
    → is_free 0 xs ≡ true
    → text_of (xs ++ (replicate k 0 ++ 0 ∷ ys)) ≡ xs
text_of-replicate-zero xs zero ys h = text_of-zero xs ys h
text_of-replicate-zero xs (suc k) ys h = text_of-zero xs (replicate k 0 ++ 0 ∷ ys) h

pub char_from-append :
    (i c : ℕ) (xs ys : List ℕ)
    → is_free c xs ≡ true
    → char_from i (xs ++ c ∷ ys) c ≡ pos (i + length xs)
unfolding char_from
char_from-append i c [] ys h =
    let same : (c == c) ≡ true = ground arith in
    let at : i ≡ i + 0 = omega arith in rw (same) (ap pos at)
char_from-append i c (x ∷ xs) ys h =
    let r = is_free_tail c x xs h in
    let at : i + 1 + length xs ≡ i + suc (length xs) = omega arith in
    rw (r.0) (char_from-append (i + 1) c xs ys (r.1) ∙ ap pos at)

unless_last-append :
    (x : ℕ) (xs t : List ℕ) (c : ℕ) (rest : List ℕ)
    → t ≡ c ∷ rest
    → unless_last x (xs ++ t) ≡ x ∷ (xs ++ t)
unless_last-append x [] t c rest e = rw (e) refl
unless_last-append x (y ∷ xs) t c rest e = refl

-- A text that is not blank keeps what is in front of it.
pub strip_end-append :
    (xs ys : List ℕ) → all_white ys ≡ false → strip_end (xs ++ ys) ≡ xs ++ strip_end ys
unfolding strip_end
strip_end-append [] ys h = refl
strip_end-append (x ∷ xs) ys h =
    let r = strip_end_some ys h in
    ap (λ t. unless_last x t) (strip_end-append xs ys h)
    ∙ unless_last-append x xs (strip_end ys) (r.0) (r.1) (r.2)

pub strip_end_dark :
    (b : ℕ) (ys : List ℕ) → is_white b ≡ false → strip_end (b ∷ ys) ≡ b ∷ strip_end ys
unfolding strip_end
strip_end_dark b ys h = unless_last_dark b (strip_end ys) h
  where
    unless_last_dark : (b : ℕ) (t : List ℕ) → is_white b ≡ false → unless_last b t ≡ b ∷ t
    unless_last_dark b [] h = rw (h) refl
    unless_last_dark b (c ∷ t) h = refl

pub all_white-append : (xs ys : List ℕ) → all_white ys ≡ false → all_white (xs ++ ys) ≡ false
unfolding all_white
all_white-append [] ys h = h
all_white-append (x ∷ xs) ys h = elim (Bool-cases (is_white x)) [
  | inl white ↦ rw (white) (all_white-append xs ys h)
  | inr other ↦ rw (other) refl
]

pub all_white_dark : (b : ℕ) (ys : List ℕ) → is_white b ≡ false → all_white (b ∷ ys) ≡ false
unfolding all_white
all_white_dark b ys h = rw (h) refl

pub all_white-strip_start :
    (xs : List ℕ) → all_white xs ≡ false → all_white (strip_start xs) ≡ false
unfolding all_white strip_start
all_white-strip_start [] h = h
all_white-strip_start (x ∷ xs) h = elim (Bool-cases (is_space x)) [
  | inl space ↦
      let white : is_white x ≡ true = ground arith in
      rw (space) (all_white-strip_start xs (rw (white) at h))
  | inr other ↦ rw (other) h
]

pub leading-strip_start : (xs : List ℕ) → leading (strip_start xs) ≡ 0
unfolding leading strip_start
leading-strip_start [] = refl
leading-strip_start (x ∷ xs) = elim (Bool-cases (is_space x)) [
  | inl space ↦ rw (space) (leading-strip_start xs)
  | inr other ↦ rw (other, other) refl
]

pub drop-leading : (xs : List ℕ) → drop (leading xs) xs ≡ strip_start xs
unfolding leading strip_start
drop-leading [] = refl
drop-leading (x ∷ xs) = elim (Bool-cases (is_space x)) [
  | inl space ↦
      let one : leading xs + 1 ≡ suc (leading xs) = omega arith in
      rw (space) (ap (λ k. drop k (x ∷ xs)) one ∙ drop-leading xs)
  | inr other ↦ rw (other) refl
]

pub length-leading : (xs : List ℕ) → leading xs + length (strip_start xs) ≡ length xs
unfolding leading strip_start
length-leading [] = omega arith
length-leading (x ∷ xs) = elim (Bool-cases (is_space x)) [
  | inl space ↦ let ih = length-leading xs in rw (space) (omega arith)
  | inr other ↦ rw (other) (omega arith)
]

-- The blanks of a text do not go on behind a byte that is none.
pub leading-append : (xs ys : List ℕ) → all_white xs ≡ false → leading (xs ++ ys) ≡ leading xs
unfolding leading all_white
leading-append [] ys h = absurd (cc)
leading-append (x ∷ xs) ys h = elim (Bool-cases (is_space x)) [
  | inl space ↦
      let white : is_white x ≡ true = ground arith in
      let ih = leading-append xs ys (rw (white) at h) in rw (space) (omega arith)
  | inr other ↦ rw (other) refl
]

outcome_dark : (xs ys : List ℕ) → all_white xs ≡ false → outcome xs ys ≡ some (cleared xs ++ ys)
outcome_dark xs ys h = rw (h) refl

-- `trim_str` at a text behind `pre`, in front of `tail`.
pub trim_at-text :
    (pre text tail : List ℕ)
    → text_of (text ++ tail) ≡ text
    → all_white (pre ++ text) ≡ false
    → strip_end (pre ++ text) ≡ pre ++ strip_end text
    → trim_at (length pre) (pre ++ (text ++ tail))
      ≡ some (
        length pre + leading text,
        pre ++ (strip_end text ++ (replicate (length text - length (strip_end text)) 0 ++ tail)),
      )
unfolding trim_at
trim_at-text pre text tail e w s =
    let d = length text - length (strip_end text) in
    let found : text_of (drop (length pre) (pre ++ (text ++ tail))) ≡ text =
      ap text_of (drop-length pre (text ++ tail) (length pre) refl) ∙ e in
    let left : d ≡ length (pre ++ text) - length (pre ++ strip_end text) =
      omega (arith, length-append pre text, length-append pre (strip_end text)) in
    let bytes : cleared (pre ++ text) ++ tail ≡ pre ++ (strip_end text ++ (replicate d 0 ++ tail)) =
      ap (λ t. (t ++ replicate (length (pre ++ text) - length t) 0) ++ tail) s
      ∙ ap (λ k. ((pre ++ strip_end text) ++ replicate k 0) ++ tail) (sym left)
      ∙ append_assoc (pre ++ strip_end text) (replicate d 0) tail
      ∙ append_assoc pre (strip_end text) (replicate d 0 ++ tail) in
    let loop : clear_trailing (length pre + length text) (pre ++ (text ++ tail))
        ≡ some (pre ++ (strip_end text ++ (replicate d 0 ++ tail))) =
      ap (λ n. clear_trailing n (pre ++ (text ++ tail))) (sym (length-append pre text))
      ∙ ap (λ t. clear_trailing (length (pre ++ text)) t) (sym (append_assoc pre text tail))
      ∙ clear_trailing-outcome (length (pre ++ text)) (pre ++ text) tail refl
      ∙ outcome_dark (pre ++ text) tail w
      ∙ ap some bytes in
    rw (found) (ap (λ r. r >>= λ buffer'. some (length pre + leading text, buffer')) loop)

pub char_from_free :
    (i c : ℕ) (text : List ℕ) → is_free c text ≡ true → char_from i text c ≡ negsuc 0
unfolding char_from
char_from_free i c [] h = refl
char_from_free i c (b ∷ text) h =
    let r = is_free_tail c b text h in rw (r.0) (char_from_free (i + 1) c text (r.1))

-- A text without the comment character is no comment, and nothing of it is deleted.
pub comment_from_free :
    (c : ℕ) (text : List ℕ) → is_free c text ≡ true → comment_from text c ≡ false
unfolding comment_from
comment_from_free c [] h = refl
comment_from_free c (b ∷ text) h =
    let r = is_free_tail c b text h in
    elim (Bool-cases (is_space b)) [
      | inl space ↦ rw (space) (comment_from_free c text (r.1))
      | inr other ↦ rw (other) (r.0)
    ]

pub map_free :
    (c : ℕ) (text : List ℕ) → is_free c text ≡ true → map (λ b. if b == c then 0 else b) text ≡ text
map_free c [] h = refl
map_free c (b ∷ text) h =
    let r = is_free_tail c b text h in rw (r.0) (ap (λ t. b ∷ t) (map_free c text (r.1)))
