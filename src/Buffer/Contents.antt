-- ===== src/Buffer/Contents.antt =====
-- ebuffer.c: the bytes that a buffer holds, and when its pointers are in order.
use libeasy.Prelude.{
  ℕ, zero, ◌+◌, ◌-◌, ◌^◌, ◌≤◌, ◌<◌, ◌≡◌, ◌↔◌, sym, ap, ◌∙◌, true, some, List, [], ◌++◌, arith,
  length, length-take, length-drop, take, drop, leb,
}
use libeasy.Prelude.Slices.{drop-append, drop-drop, drop-take, take-take}
use libeasy.Buffer.{Buffer, slice, eof}

-- What has been written and not yet read.
abbrev pub contents : Buffer → List ℕ
contents b = take (b.last - b.from) (drop b.from b.block)

pub record IsValid (b : Buffer) : Type 0 where
  pub ordered : b.from ≤ b.last
  pub inside : b.last ≤ length b.block
  pub small : length b.block < 2 ^ 31

pub length-contents : {b : Buffer} → IsValid b → length (contents b) ≡ b.last - b.from
length-contents {b} v =
    omega (arith, length-take (b.last - b.from) (drop b.from b.block), length-drop b.from b.block)

-- A copy of the first `n` unread bytes.
pub slice-contents :
    (n : ℕ) {b : Buffer}
    → IsValid b
    → n ≤ b.last - b.from
    → slice b.block b.from n ≡ some (take n (contents b))
slice-contents n {b} v h = rw (inside, take-take n (b.last - b.from) (drop b.from b.block) h)
  where
    inside : leb (b.from + n) (length b.block) ≡ true
    inside = let i = v.inside in let o = v.ordered in ground arith

-- What is left behind the first `n` unread bytes.
pub contents-skip :
    (n : ℕ) (b : Buffer)
    → n ≤ b.last - b.from
    → contents (record b { from = b.from + n }) ≡ drop n (contents b)
contents-skip n b h = sym (
    drop-take n (b.last - b.from) (drop b.from b.block)
    ∙ ap (take (b.last - b.from - n)) (drop-drop b.from n b.block)
    ∙ ap (λ k. take k (drop (b.from + n) b.block)) (omega arith))

-- `buffer_eof` tells whether nothing is left to read.
pub eof_iff : {b : Buffer} → IsValid b → (eof (some b) ≡ true) ↔ (contents b ≡ [])
unfolding eof
eof_iff {b} v = (
  (λ e.
      let done : b.last ≤ b.from = ground arith in
      let none_left : b.last - b.from ≡ zero = omega arith in
      ap (λ n. take n (drop b.from b.block)) none_left),
  λ e. let n = ap length e in let l = length-contents v in ground arith,
)

-- The unread bytes stay where the block keeps its bytes up to `last`, whatever stands behind.
pub contents_kept :
    (from last : ℕ) (block rest : List ℕ)
    → from ≤ last
    → last ≤ length block
    → drop from (take last block ++ rest) ≡ take (last - from) (drop from block) ++ rest
contents_kept from last block rest h k =
    drop-append from (take last block) rest (omega (arith, length-take last block))
    ∙ ap (λ xs. xs ++ rest) (drop-take from last block)
