-- ===== src/Buffer/Write.antt =====
-- ebuffer.c: what `buffer_write` appends, and what it does where no memory is found.
use libeasy.Prelude.{
  ℕ, ◌+◌, ◌-◌, ◌^◌, ◌≤◌, ◌<◌, ◌≡◌, refl, sym, ap, ◌∙◌, Bool, true, false, Option, none, some, List,
  ◌++◌, append_assoc, arith, length, length-append, length-take, length-drop, take, drop, leb,
  Bool-cases, inl, inr,
}
use libeasy.Prelude.Int.{pos, negsuc, sub_ℕ, ltb_ℤ}
use libeasy.Prelude.Words.{to_int_small}
use libeasy.Prelude.Slices.{take-length}
use libeasy.MemPool.{Pool}
use libeasy.Buffer.{Buffer, Answers, new_block, moved, enlarge, copy_in, write}
use libeasy.Buffer.Contents.{contents, IsValid, length-contents, contents_kept}

-- What a write that succeeds leaves.
pub record Appended (b : Buffer) (buf : List ℕ) (b' : Buffer) : Type 0 where
  pub valid : IsValid b'
  pub bytes : contents b' ≡ contents b ++ buf

-- A buffer with the same unread bytes.
pub record SameContents (b b' : Buffer) : Type 0 where
  pub valid : IsValid b'
  pub bytes : contents b' ≡ contents b

copied : Buffer → List ℕ → Buffer
copied b buf = record b {
  block = take b.last b.block ++ (buf ++ drop (b.last + length buf) b.block);
  last = b.last + length buf;
}

length-copied :
    (b : Buffer) (buf : List ℕ)
    → b.last + length buf ≤ length b.block
    → length (copied b buf).block ≡ length b.block
unfolding copied
length-copied b buf room =
    let rest = drop (b.last + length buf) b.block in
    omega (
      arith,
      length-append (take b.last b.block) (buf ++ rest),
      length-append buf rest,
      length-take b.last b.block,
      length-drop (b.last + length buf) b.block,
    )

copied-Appended :
    {b : Buffer} (buf : List ℕ)
    → IsValid b
    → b.last + length buf ≤ length b.block
    → Appended b buf (copied b buf)
unfolding copied
copied-Appended {b} buf v room =
    let rest = drop (b.last + length buf) b.block in
    let l = length-copied b buf room in
    record {
      valid = record {
        ordered = omega (arith, v.ordered);
        inside = omega arith;
        small = omega arith;
      };
      bytes =
          ap (take (b.last + length buf - b.from)) (
            contents_kept b.from b.last b.block (buf ++ rest) v.ordered v.inside
            ∙ sym (append_assoc (contents b) buf rest))
          ∙ take-length (contents b ++ buf) rest (b.last + length buf - b.from)
              (omega (arith, length-append (contents b) buf, length-contents v));
    }

copy_in-copied :
    (b : Buffer) (buf : List ℕ)
    → b.last + length buf ≤ length b.block
    → copy_in b buf ≡ some (pos (length buf), copied b buf)
unfolding copy_in copied
copy_in-copied b buf room = rw fits
  where
    fits : leb (b.last + length buf) (length b.block) ≡ true
    fits = ground arith

-- The allocator that a buffer uses answers a block of `n` bytes.
pub record Answered (a : Answers) (p : Option Pool) (n : ℕ) : Type 0 where
  pub block : List ℕ
  pub pool : Option Pool
  pub answer : new_block a p n ≡ (some block, pool)
  pub long : length block ≡ n

moved-SameContents :
    {b : Buffer} (fresh : List ℕ) (p : Option Pool)
    → IsValid b
    → length b.block ≤ length fresh
    → length fresh < 2 ^ 31
    → (b' : Buffer) × (moved b (some fresh, p) ≡ some (true, b'))
      × SameContents b b'
      × (b'.last ≡ b.last)
      × (length b'.block ≡ length fresh)
moved-SameContents {b} fresh p v more small =
    let old = take b.last b.block in
    let rest = drop b.last fresh in
    let l : length (old ++ rest) ≡ length fresh = omega (
      arith,
      v.inside,
      length-append old rest,
      length-take b.last b.block,
      length-drop b.last fresh,
    ) in
    let all : leb (0 + b.last) (length b.block) ≡ true = let i = v.inside in ground arith in
    (
      record { pool = p; block = old ++ rest; from = b.from; last = b.last },
      rw all,
      record {
        valid = record {
          ordered = v.ordered;
          inside = omega (arith, v.inside);
          small = omega arith;
        };
        bytes =
            ap (take (b.last - b.from))
              (contents_kept b.from b.last b.block rest v.ordered v.inside)
            ∙ take-length (contents b) rest (b.last - b.from) (sym (length-contents v));
      },
      refl,
      l,
    )

-- The test of `buffer_write` for room.
module _ (b : Buffer) (buf : List ℕ) (v : IsValid b) where
  abbrev short_of_room : Bool
  short_of_room = ltb_ℤ (sub_ℕ (length b.block) b.last) (pos (length buf))

  room_of_test : short_of_room ≡ false → b.last + length buf ≤ length b.block
  room_of_test h = let i = v.inside in ground arith

  short_of_test : short_of_room ≡ true → length b.block < b.last + length buf
  short_of_test h = let i = v.inside in ground arith

  grows_of_test : short_of_room ≡ true → leb (length b.block + length buf) (length b.block) ≡ false
  grows_of_test h = let i = v.inside in let s = short_of_test h in ground arith

module _ (a : Answers) (b : Buffer) (buf : List ℕ) (v : IsValid b) where
  -- Where there is room in the block of a valid buffer or the allocator answers a block that is longer
  -- by as much, and where the lengths of the block and of the bytes add up to less than 2 ^ 31,
  -- `buffer_write` puts the bytes behind those that are unread, returns their number and keeps the
  -- buffer valid.
  pub write-Appended :
      (length b.block < b.last + length buf → Answered a b.pool (length b.block + length buf))
      → length b.block + length buf < 2 ^ 31
      → (b' : Buffer) × (write a b buf ≡ some (pos (length buf), b')) × Appended b buf b'
  unfolding write enlarge
  write-Appended answered small = elim (Bool-cases (short_of_room b buf v)) [
    | inl short ↦
        let ans = answered (short_of_test b buf v short) in
        let (b', e, same, at, l) =
          moved-SameContents {b = b} ans.block ans.pool v (omega (arith, ans.long))
            (omega (arith, ans.long)) in
        let le : b'.last + length buf ≤ length b'.block = omega (arith, v.inside, ans.long) in
        let done = copied-Appended buf same.valid le in
        (
          copied b' buf,
          rw
              (
                short,
                to_int_small (length b.block + length buf) small,
                grows_of_test b buf v short,
                ans.answer,
                e,
              )
              (copy_in-copied b' buf le),
          record { valid = done.valid; bytes = done.bytes ∙ ap (λ xs. xs ++ buf) same.bytes },
        )
    | inr room ↦
        let le = room_of_test b buf v room in
        (copied b buf, rw room (copy_in-copied b buf le), copied-Appended buf v le)
  ]

  -- Where there is no room and the allocator answers NULL, `buffer_write` returns -1 and the unread
  -- bytes stay.
  pub write_fails :
      (p : Option Pool)
      → length b.block < b.last + length buf
      → length b.block + length buf < 2 ^ 31
      → new_block a b.pool (length b.block + length buf) ≡ (none, p)
      → write a b buf ≡ some (negsuc 0, record b { pool = p })
  unfolding write enlarge
  write_fails p short small no_block = rw (
    short_test,
    to_int_small (length b.block + length buf) small,
    grows_of_test b buf v short_test,
    no_block,
  )
    where
      short_test : short_of_room b buf v ≡ true
      short_test = let i = v.inside in ground arith
