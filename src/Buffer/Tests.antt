-- ===== src/Buffer/Tests.antt =====
-- ebuffer.c: runs on small buffers, and the theorems at them.
use libeasy.Prelude.{
  ℕ, ◌≡◌, ◌↔◌, refl, inl, true, none, some, [], ◌∷◌, arith, replicate, length-replicate,
}
use libeasy.Prelude.Int.{pos, negsuc}
use libeasy.MemPool.{Pool}
use libeasy.Buffer.{Buffer, Answers, cr, lf, eof, read, read_line, write, new_block}
use libeasy.Buffer.Contents.{contents, IsValid, eof_iff}
use libeasy.Buffer.Write.{Answered, Appended, write-Appended, write_fails}
use libeasy.Buffer.Read.{read_past}
use libeasy.Buffer.Lines.{read_line_ends}

-- "ab\ncd" in a block of six bytes.
abbrev two_lines : Buffer
two_lines = record { pool = none; block = 97 ∷ 98 ∷ lf ∷ 99 ∷ 100 ∷ 7 ∷ []; from = 0; last = 5 }

-- "ab\r"
abbrev half_ended : Buffer
half_ended = record { pool = none; block = 97 ∷ 98 ∷ cr ∷ []; from = 0; last = 3 }

abbrev no_memory : Answers
no_memory = record { malloc = λ n. none; memalign = none }

abbrev memory : Answers
memory = record { malloc = λ n. some (replicate n 7); memalign = some 8192 }

two_lines-IsValid : IsValid two_lines
two_lines-IsValid = omega arith

read_line-two_lines :
    read_line (some two_lines) true (pos 10)
    ≡ some (pos 2, 97 ∷ 98 ∷ 0 ∷ [], some (record two_lines { from = 3 }))
unfolding read_line
read_line-two_lines = refl

write-two_lines :
    write memory two_lines (1 ∷ 2 ∷ [])
    ≡ some (
      pos 2,
      record { pool = none; block = 97 ∷ 98 ∷ lf ∷ 99 ∷ 100 ∷ 1 ∷ 2 ∷ 7 ∷ []; from = 0; last = 7 },
    )
unfolding write
write-two_lines = refl

memory-Answered : (n : ℕ) → Answered memory none n
unfolding new_block
memory-Answered n = record {
  block = replicate n 7;
  pool = none;
  answer = refl;
  long = length-replicate n 7;
}

write-Appended_example :
    (b' : Buffer) × (write memory two_lines (1 ∷ 2 ∷ []) ≡ some (pos 2, b'))
    × Appended two_lines (1 ∷ 2 ∷ []) b'
write-Appended_example =
    write-Appended memory two_lines (1 ∷ 2 ∷ []) two_lines-IsValid (λ _. memory-Answered 8)
      (omega arith)

write_fails_example :
    write no_memory two_lines (1 ∷ 2 ∷ []) ≡ some (negsuc 0, record two_lines { pool = none })
unfolding new_block
write_fails_example =
    write_fails no_memory two_lines (1 ∷ 2 ∷ []) two_lines-IsValid none (omega arith) (omega arith)
      refl

eof_iff_example : (eof (some two_lines) ≡ true) ↔ (contents two_lines ≡ [])
eof_iff_example = eof_iff two_lines-IsValid

read_past_example : read (some (record half_ended { from = 4 })) true (pos 2) ≡ none
read_past_example = read_past (record half_ended { from = 4 }) 2 (omega arith) (omega arith)

read_line_ends_example :
    (b' : Buffer) × (read_line (some two_lines) true (pos 10)
      ≡ some (pos 2, 97 ∷ 98 ∷ 0 ∷ [], some b'))
    × IsValid b'
    × (contents b' ≡ 99 ∷ 100 ∷ [])
read_line_ends_example =
    read_line_ends two_lines-IsValid (97 ∷ 98 ∷ []) (omega arith) 10 (lf ∷ []) (99 ∷ 100 ∷ [])
      (inl refl) refl (omega arith)

abbrev one_line : Buffer
one_line = record two_lines { from = 3 }

-- A pool of one page of 128 bytes, and a buffer on it.
abbrev pool : Pool
pool = record {
  page_size = 128;
  page_count = 1;
  pages = record { start = 4096; last = 4168; end = 4224; failed = 0 } ∷ [];
  current = some 0;
}

abbrev pooled : Buffer
pooled = record two_lines { pool = some pool }
