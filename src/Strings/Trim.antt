-- ===== src/Strings/Trim.antt =====
-- estring.c: `trim_str`.
use libeasy.Prelude.{
  ℕ, suc, ◌+◌, ◌-◌, ◌≤◌, ◌≡◌, refl, sym, ap, ◌∙◌, true, false, none, some, List, [], ◌∷◌, ◌++◌,
  arith, length, drop, replicate, Bool-cases, inl, inr, append-nil,
}
use libeasy.Prelude.Fault.{◌>>=◌}
use libeasy.Prelude.Slices.{drop-append}
use libeasy.Strings.{is_space, is_white, all_white, is_blank, leading, clear_trailing, trim_str}
use libeasy.Strings.Trailing.{
  strip_start, strip_end, unless_last, cleared, outcome, clear_trailing-outcome,
}

pub strip_end_some :
    (text : List ℕ)
    → all_white text ≡ false
    → (c : ℕ) × (rest : List ℕ) × (strip_end text ≡ c ∷ rest)
unfolding all_white strip_end
strip_end_some [] h = absurd (cc)
strip_end_some (b ∷ text) h = elim (Bool-cases (is_white b)) [
  | inl white ↦
      let r = strip_end_some text (rw (white) at h) in
      (b, r.0 ∷ r.1, ap (λ t. unless_last b t) (r.2))
  | inr other ↦ (b, strip_end text, kept b (strip_end text) other)
]
  where
    kept : (b : ℕ) (t : List ℕ) → is_white b ≡ false → unless_last b t ≡ b ∷ t
    kept b [] h = rw (h) refl
    kept b (c ∷ t) h = refl

is_space_white : (b : ℕ) → is_space b ≡ true → is_white b ≡ true
is_space_white b h = ground arith

-- The blanks that are passed over are still in front of the stripped text.
leading-strip_end :
    (text : List ℕ)
    → all_white text ≡ false
    → (drop (leading text) (strip_end text) ≡ strip_end (strip_start text))
      × (leading text ≤ length (strip_end text))
unfolding leading all_white strip_end strip_start
leading-strip_end [] h = absurd (cc)
leading-strip_end (b ∷ text) h = elim (Bool-cases (is_space b)) [
  | inl space ↦
      let some_text : all_white text ≡ false = rw (is_space_white b space) at h in
      let r = strip_end_some text some_text in
      let ih = leading-strip_end text some_text in
      let front : unless_last b (strip_end text) ≡ b ∷ strip_end text =
        ap (λ t. unless_last b t) (r.2) ∙ ap (λ t. b ∷ t) (sym (r.2)) in
      let one : leading text + 1 ≡ suc (leading text) = omega arith in
      let i = ih.1 in
      rw (space, front) (ap (λ k. drop k (b ∷ strip_end text)) one ∙ ih.0, omega arith)
  | inr other ↦ rw (other) (refl, omega arith)
]

outcome_text : (text : List ℕ) → all_white text ≡ false → outcome text [] ≡ some (cleared text)
outcome_text text h = rw (h) (ap some (append-nil (cleared text)))

outcome_blank : (text : List ℕ) → all_white text ≡ true → outcome text [] ≡ none
outcome_blank text h = rw (h) refl

-- A text with a byte that is not white is trimmed to itself without the spaces and tabs at its start
-- and the white bytes at its end, for each of which a zero follows.
pub trim_str-Stripped :
    (text : List ℕ)
    → is_blank (some text) ≡ false
    → (bytes : List ℕ) × (trim_str (some text) ≡ some (some (leading text, bytes)))
      × (drop (leading text) bytes
          ≡ strip_end (strip_start text) ++ replicate (length text - length (strip_end text)) 0)
unfolding trim_str
trim_str-Stripped text h =
    let l = leading-strip_end text h in
    (
      cleared text,
      ap (λ r. r >>= λ bytes. some (some (leading text, bytes)))
          (ap (λ t. clear_trailing (length text) t) (sym (append-nil text))
            ∙ clear_trailing-outcome (length text) text [] refl
            ∙ outcome_text text h),
      drop-append (leading text) (strip_end text) _ (l.1)
          ∙ ap (λ t. t ++ replicate (length text - length (strip_end text)) 0) (l.0),
    )

-- In a blank text, also an empty one, `trim_str` reads the byte before the first.
pub trim_str_blank : (text : List ℕ) → is_blank (some text) ≡ true → trim_str (some text) ≡ none
unfolding trim_str
trim_str_blank text h =
    ap (λ r. r >>= λ bytes. some (some (leading text, bytes)))
      (ap (λ t. clear_trailing (length text) t) (sym (append-nil text))
        ∙ clear_trailing-outcome (length text) text [] refl
        ∙ outcome_blank text h)
