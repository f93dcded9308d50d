-- ===== src/Buffer/Line.antt =====
-- ebuffer.c: the rounds of the loop of `buffer_read_line`.
use libeasy.Prelude.{
  ℕ, suc, ◌+◌, ◌-◌, ◌≤◌, ◌<◌, ◌≡◌, ◌≢◌, ◌⊎◌, refl, sym, ap, ◌∙◌, true, false, some, List, [], ◌∷◌,
  ◌++◌, arith, length, length-append, take, drop, leb, ◌==◌, inl, inr, take-append-drop,
  append_assoc, get_elem?,
}
use libeasy.Prelude.Slices.{take-length, drop-length, drop-drop, get_elem?-drop, drop-suc}
use libeasy.Buffer.{Buffer, cr, lf, slice, line_end, line_loop, failure}
use libeasy.Buffer.Contents.{contents, IsValid, length-contents, slice-contents}

-- No byte ends a line.
abbrev pub Plain : List ℕ → Type 0
Plain [] = Unit
Plain (c ∷ cs) = (c ≢ cr) × (c ≢ lf) × Plain cs

-- One round over a byte that does not end the line.
line_loop-plain :
    (k : ℕ) (b : Buffer) (n at len c : ℕ)
    → get_elem? b.block at ≡ some c
    → c ≢ cr
    → c ≢ lf
    → len < n
    → line_loop (suc k) b n at len ≡ line_loop k b n (at + 1) (len + 1)
unfolding line_loop
line_loop-plain k b n at len c e not_cr not_lf lt = rw (more, e, is_cr, is_lf)
  where
    more : leb n len ≡ false
    more = ground arith

    is_cr : (c == cr) ≡ false
    is_cr = ground arith

    is_lf : (c == lf) ≡ false
    is_lf = ground arith

-- The round over a byte that ends the line.
pub line_loop-end :
    (k : ℕ) (b : Buffer) (n at len c skip : ℕ)
    → get_elem? b.block at ≡ some c
    → (c ≡ cr) × (skip ≡ 2) ⊎ (c ≡ lf) × (skip ≡ 1)
    → len < n
    → line_loop (suc k) b n at len ≡ line_end b at len skip
unfolding line_loop
line_loop-end k b n at len c skip e (inl (is_cr, two)) lt = rw (more, e, is_cr, two)
  where
    more : leb n len ≡ false
    more = ground arith
line_loop-end k b n at len c skip e (inr (is_lf, one)) lt = rw (more, e, is_lf, one)
  where
    more : leb n len ≡ false
    more = ground arith

pub line_loop-full :
    (k : ℕ) (b : Buffer) (n at len : ℕ) → n ≤ len → line_loop (suc k) b n at len ≡ some (failure b)
unfolding line_loop
line_loop-full k b n at len le = rw full
  where
    full : leb n len ≡ true
    full = ground arith

line_loop_at :
    (b : Buffer) (n : ℕ) {k k' at at' len len' : ℕ}
    → k ≡ k'
    → at ≡ at'
    → len ≡ len'
    → line_loop k b n at len ≡ line_loop k' b n at' len'
line_loop_at b n ek ea el = λ i. line_loop (ek i) b n (ea i) (el i)

-- The rounds over the plain beginning of a line.
line_loop-skip :
    (l tail : List ℕ) (k : ℕ) (b : Buffer) (n at len : ℕ)
    → Plain l
    → drop at b.block ≡ l ++ tail
    → len + length l ≤ n
    → line_loop (length l + k) b n at len ≡ line_loop k b n (at + length l) (len + length l)
line_loop-skip [] tail k b n at len p d le =
    line_loop_at b n (omega arith) (omega arith) (omega arith)
line_loop-skip (c ∷ cs) tail k b n at len p d le =
    line_loop_at b n (omega arith) refl refl
    ∙ line_loop-plain (length cs + k) b n at len c (get_elem?-drop at b.block d) p.0 p.1
        (omega arith)
    ∙ line_loop-skip cs tail k b n (at + 1) (len + 1) p.2 (drop-suc at b.block d) (omega arith)
    ∙ line_loop_at b n refl (omega arith) (omega arith)

module _ {b : Buffer} (v : IsValid b) (l rest : List ℕ) (e : contents b ≡ l ++ rest) where
  pub rounds : b.last - b.from ≡ length l + length rest
  rounds = sym (length-contents v) ∙ ap length e ∙ length-append l rest

  block_from : drop b.from b.block ≡ l ++ (rest ++ drop (b.last - b.from) (drop b.from b.block))
  block_from =
      let behind = drop (b.last - b.from) (drop b.from b.block) in
      sym (take-append-drop (b.last - b.from) (drop b.from b.block))
      ∙ ap (λ xs. xs ++ behind) e
      ∙ append_assoc l rest behind

  -- The loop comes to the end of the plain bytes `l`.
  pub line_loop-to :
      (n : ℕ)
      → Plain l
      → length l ≤ n
      → line_loop (b.last - b.from) b n b.from 0
        ≡ line_loop (length rest) b n (b.from + length l) (length l)
  line_loop-to n p le =
      line_loop_at b n rounds refl refl
      ∙ line_loop-skip l _ (length rest) b n b.from 0 p block_from (omega arith)
      ∙ line_loop_at b n refl refl (omega arith)

  pub taken : slice b.block b.from (length l) ≡ some l
  taken =
      slice-contents (length l) v (omega (arith, rounds))
      ∙ ap some (ap (take (length l)) e ∙ take-length l rest (length l) refl)

pub next_byte :
    {b : Buffer} (v : IsValid b) (l : List ℕ) (c : ℕ) (rest : List ℕ)
    → contents b ≡ l ++ c ∷ rest
    → get_elem? b.block (b.from + length l) ≡ some c
next_byte {b} v l c rest e = get_elem?-drop (b.from + length l) b.block (
    sym (drop-drop b.from (length l) b.block)
    ∙ ap (drop (length l)) (block_from v l (c ∷ rest) e)
    ∙ drop-length l _ (length l) refl)
