-- ===== src/Buffer/Lines.antt =====
-- ebuffer.c: what `buffer_read_line` takes, on each way out of its loop.
use libeasy.Prelude.{
  ℕ, zero, suc, ◌+◌, ◌-◌, ◌≤◌, ◌<◌, ◌≡◌, ◌⊎◌, refl, sym, ap, ◌∙◌, true, some, List, [], ◌∷◌, ◌++◌,
  arith, length, length-append, drop, inl, inr, append_assoc, append-nil,
}
use libeasy.Prelude.Int.{pos, negsuc}
use libeasy.Prelude.Slices.{drop-length}
use libeasy.Buffer.{Buffer, cr, lf, line_loop, failure, read_line}
use libeasy.Buffer.Contents.{contents, IsValid, contents-skip}
use libeasy.Buffer.Line.{
  Plain, line_loop-end, line_loop-full, next_byte, rounds, line_loop-to, taken,
}

-- What a line of `len` bytes leaves.
abbrev pub past_line : Buffer → (len skip : ℕ) → Buffer
past_line b len skip = record b { from = b.from + len + skip }

module _ {b : Buffer} (v : IsValid b) (l : List ℕ) (plain : Plain l) where
  past-contents :
      (tail rest : List ℕ)
      → contents b ≡ l ++ (tail ++ rest)
      → IsValid (past_line b (length l) (length tail))
        × (contents (past_line b (length l) (length tail)) ≡ rest)
  past-contents tail rest e =
      let k : ℕ = length l + length tail in
      let r = rounds v l (tail ++ rest) e in
      let all = length-append tail rest in
      let le : k ≤ b.last - b.from = omega arith in
      let same : b.from + k ≡ b.from + length l + length tail = omega arith in
      (
        record { ordered = omega (arith, v.ordered); inside = v.inside; small = v.small },
        ap (λ i. contents (record b { from = i })) (sym same)
            ∙ contents-skip k b le
            ∙ ap (drop k) (e ∙ sym (append_assoc l tail rest))
            ∙ drop-length (l ++ tail) rest k (sym (length-append l tail)),
      )

  ended :
      (n c skip : ℕ) (rest : List ℕ)
      → contents b ≡ l ++ c ∷ rest
      → length l < n
      → (c ≡ cr) × (skip ≡ 2) ⊎ (c ≡ lf) × (skip ≡ 1)
      → read_line (some b) true (pos n)
        ≡ some (pos (length l), l ++ 0 ∷ [], some (past_line b (length l) skip))
  unfolding read_line
  ended zero c skip rest e lt way = absurd (omega arith)
  ended (suc m) c skip rest e lt way =
      let n : ℕ = suc m in
      let at : ℕ = b.from + length l in
      let there = next_byte v l c rest e in
      rw (
        line_loop-to v l (c ∷ rest) e n plain (omega arith),
        line_loop-end (length rest) b n at (length l) c skip there way lt,
        taken v l (c ∷ rest) e,
      )

  -- The line ends by a line feed, or by a carriage return, behind which one more byte is passed over.
  abbrev Terminator : List ℕ → Type 0
  Terminator t = (t ≡ lf ∷ []) ⊎ ((x : ℕ) × (t ≡ cr ∷ x ∷ []))

  -- Where the line has no CR or LF in it and is shorter than the caller's buffer, `buffer_read_line`
  -- hands it over with a zero behind it, returns the length of the line, and leaves what follows the end
  -- of the line.
  pub read_line_ends :
      (n : ℕ) (t rest : List ℕ)
      → Terminator t
      → contents b ≡ l ++ (t ++ rest)
      → length l < n
      → (b' : Buffer) × (read_line (some b) true (pos n)
          ≡ some (pos (length l), l ++ 0 ∷ [], some b'))
        × IsValid b'
        × (contents b' ≡ rest)
  read_line_ends n t rest (inl is_lf) e lt =
      let e' : contents b ≡ l ++ (lf ∷ rest) = e ∙ ap (λ u. l ++ (u ++ rest)) is_lf in
      let (valid, left) = past-contents (lf ∷ []) rest e' in
      (past_line b (length l) 1, ended n lf 1 rest e' lt (inr (refl, refl)), valid, left)
  read_line_ends n t rest (inr (x, is_cr)) e lt =
      let e' : contents b ≡ l ++ (cr ∷ x ∷ rest) = e ∙ ap (λ u. l ++ (u ++ rest)) is_cr in
      let (valid, left) = past-contents (cr ∷ x ∷ []) rest e' in
      (past_line b (length l) 2, ended n cr 2 (x ∷ rest) e' lt (inl (refl, refl)), valid, left)

  -- A line that is as long as the caller's buffer or longer is refused, and nothing is taken.
  pub read_line_too_long :
      (n c : ℕ) (rest : List ℕ)
      → contents b ≡ l ++ c ∷ rest
      → length l ≡ n
      → 0 < n
      → read_line (some b) true (pos n) ≡ some (negsuc 0, [], some b)
  unfolding read_line
  read_line_too_long zero c rest e le h = absurd (omega arith)
  read_line_too_long (suc m) c rest e le h =
      rw (line_loop-to v l (c ∷ rest) e (suc m) plain (omega arith), full)
    where
      full :
          line_loop (suc (length rest)) b (suc m) (b.from + length l) (length l) ≡ some (failure b)
      full = line_loop-full (length rest) b (suc m) (b.from + length l) (length l) (omega arith)

  -- Bytes at the end that no line end follows are passed over and counted, but none of them is
  -- handed over.
  pub read_line_unended :
      (n : ℕ)
      → contents b ≡ l
      → length l ≤ n
      → 0 < n
      → (b' : Buffer) × (read_line (some b) true (pos n) ≡ some (pos (length l), [], some b'))
        × (contents b' ≡ [])
  unfolding read_line
  read_line_unended zero e le h = absurd (omega arith)
  read_line_unended (suc m) e le h =
      let e' = e ∙ sym (append-nil l) in
      (
        record b { from = b.from + length l },
        rw (line_loop-to v l [] e' (suc m) plain le) refl,
        contents-skip (length l) b (omega (arith, rounds v l [] e'))
            ∙ ap (drop (length l)) e'
            ∙ drop-length l [] (length l) refl,
      )

  -- A carriage return that is the last byte makes `pos` run past `last`.
  pub read_line-cr_last :
      (n : ℕ)
      → contents b ≡ l ++ cr ∷ []
      → length l < n
      → (b' : Buffer) × (read_line (some b) true (pos n)
          ≡ some (pos (length l), l ++ 0 ∷ [], some b'))
        × (b'.from ≡ suc b'.last)
  read_line-cr_last n e lt = (
    past_line b (length l) 2,
    ended n cr 2 [] e lt (inl (refl, refl)),
    omega (arith, v.ordered, rounds v l (cr ∷ []) e),
  )
