-- ===== src/Log/Line.antt =====
-- elog.c: the line that is given out for a text.
use libeasy.Prelude.{
  ℕ, zero, suc, ◌+◌, ◌-◌, ◌≤◌, ◌<◌, ◌≡◌, refl, ap, ◌∙◌, false, List, [], ◌∷◌, ◌++◌, arith, ltb,
  length, length-append, length-take, take, replicate, set, Bool-cases, inl, inr, if◌then◌else◌,
}
use libeasy.Prelude.Slices.{take_all}
use libeasy.Log.{line_in, line, line_buffer_size}

-- A byte that is set in the part behind `p`, seen from `p` on.
take-set-append :
    (p zs : List ℕ) (n j v : ℕ)
    → n ≡ length p + j
    → take (n + 1) (set (p ++ zs) n v) ≡ p ++ take (j + 1) (set zs j v)
take-set-append [] zs n j v h = let e : n ≡ j = omega arith in ap (λ i. take (i + 1) (set zs i v)) e
take-set-append (x ∷ p) zs zero j v h = absurd (omega arith)
take-set-append (x ∷ p) zs (suc n) j v h =
    let e : suc n + 1 ≡ suc (n + 1) = omega arith in
    ap (λ i. take i (x ∷ set (p ++ zs) n v)) e
    ∙ ap (λ t. x ∷ t) (take-set-append p zs n j v (omega arith))

one_set : (z : ℕ) → 1 ≤ z → take {A = ℕ} (0 + 1) (set (replicate z 0) 0 b'\n') ≡ b'\n' ∷ []
one_set zero h = absurd (omega arith)
one_set (suc z) h = refl

two_set : (z : ℕ) → 2 ≤ z → take {A = ℕ} (1 + 1) (set (replicate z 0) 1 b'\n') ≡ 0 ∷ b'\n' ∷ []
two_set zero h = absurd (omega arith)
two_set (suc zero) h = absurd (omega arith)
two_set (suc (suc z)) h = refl

line_in_fits :
    (size : ℕ) (text : List ℕ) → length text + 3 ≤ size → line_in size text ≡ text ++ b'\n' ∷ []
unfolding line_in
line_in_fits size text h =
    let whole = take_all (size - 3) text (omega arith) in
    let few : ltb (size - 2) (length text) ≡ false = ground arith in
    rw (whole, few)
      (take-set-append text (replicate (size - length text) 0) (length text) 0 b'\n' (omega arith)
        ∙ ap (λ t. text ++ t) (one_set (size - length text) (omega arith)))

line_size_cut :
    (size n : ℕ) → 3 ≤ size → size < n + 3 → (if ltb (size - 2) n then size - 2 else n) ≡ size - 2
line_size_cut size n h k = ground arith

line_in_cut :
    (size : ℕ) (text : List ℕ)
    → 3 ≤ size
    → size < length text + 3
    → line_in size text ≡ take (size - 3) text ++ 0 ∷ b'\n' ∷ []
unfolding line_in
line_in_cut size text h k =
    let l : length (take (size - 3) text) ≡ size - 3 =
      ground (arith, length-take (size - 3) text) in
    rw (line_size_cut size (length text) h k) (
      take-set-append (take (size - 3) text) (replicate (size - length (take (size - 3) text)) 0)
        (size - 2) 1 b'\n' (omega arith)
      ∙ ap (λ t. take (size - 3) text ++ t)
          (two_set (size - length (take (size - 3) text)) (omega arith)))

-- A text of at most 8093 bytes is given out whole, with a newline behind it.
pub line_whole : (text : List ℕ) → length text ≤ 8093 → line text ≡ text ++ b'\n' ∷ []
unfolding line
line_whole text h = line_in_fits line_buffer_size text (omega arith)

-- Of a longer text come 8093 bytes, the zero that `vsnprintf` put behind them, and the newline.
pub line_cut : (text : List ℕ) → 8093 < length text → line text ≡ take 8093 text ++ 0 ∷ b'\n' ∷ []
unfolding line
line_cut text h = line_in_cut line_buffer_size text (omega arith) (omega arith)

-- No line is longer than the buffer.
pub length-line : (text : List ℕ) → length (line text) < line_buffer_size
length-line text = elim (Bool-cases (ltb 8093 (length text))) [
  | inl long ↦
      rw (line_cut text (ground arith))
        (omega (arith, length-append (take 8093 text) (0 ∷ b'\n' ∷ []), length-take 8093 text))
  | inr short ↦
      rw (line_whole text (ground arith)) (ground (arith, length-append text (b'\n' ∷ [])))
]
