-- ===== src/Buffer.antt =====
-- ebuffer.c: bytes between `pos` and `last` in a block that grows.
pub mod Contents
pub mod Write
pub mod Read
pub mod Line
pub mod Lines
pub mod Pooled
mod Tests
use libeasy.Prelude.{
  ℕ, zero, suc, ◌+◌, ◌-◌, Bool, true, false, not, Option, none, some, List, [], ◌∷◌, ◌++◌, ltb, leb,
  ◌==◌, if◌then◌else◌, length, take, drop, replicate, get_elem?,
}
use libeasy.Prelude.Fault.{◌>>=◌}
use libeasy.Prelude.Int.{ℤ, pos, negsuc, sub_ℕ, ltb_ℤ}
use libeasy.Prelude.Words.{to_int}
use libeasy.MemPool
use libeasy.MemPool.{Pool}

-- `buffer_t`: `block` holds the bytes from `start` to `end`, and `from` and `last` are the offsets
-- of `pos` and `last` in it. `type`, `file_start` and `file_end` are used by no operation.
pub record Buffer : Type 0 where
  pub pool : Option Pool
  pub block : List ℕ
  pub from : ℕ
  pub last : ℕ

-- What the allocators answer during a call: `malloc` a block with whatever stands in it, and
-- `posix_memalign` the address of a page for the pool.
pub record Answers : Type 0 where
  pub malloc : ℕ → Option (List ℕ)
  pub memalign : Option ℕ

abbrev pub cr : ℕ
cr = 13

abbrev pub lf : ℕ
lf = 10

-- `buffer_eof`; `none` is the NULL pointer.
pub eof : Option Buffer → Bool
eof none = false
eof (some b) = leb b.last b.from

-- `memcpy` of `n` bytes from offset `i` on, a fault past the end of the block.
abbrev pub slice : List ℕ → (i n : ℕ) → Option (List ℕ)
slice block i n = if leb (i + n) (length block) then some (take n (drop i block)) else none

-- What a read returns: the value, the bytes that it puts in the caller's buffer, and the buffer.
abbrev pub Reading : Type 0
Reading = ℤ × List ℕ × Buffer

abbrev pub failure : Buffer → Reading
failure b = (negsuc 0, [], b)

-- `buffer_read` of at most `n` bytes, after its tests. Where `pos` has run past `last` the count
-- is negative, which `memcpy` takes for a huge one.
pub read_bytes : Buffer → ℕ → Option Reading
read_bytes b n =
    if ltb b.last b.from
    then none
    else (let len = if ltb (b.last - b.from) n then b.last - b.from else n in
        slice b.block b.from len >>= λ bytes.
        some (pos len, bytes, record b { from = b.from + len }))

-- `buffer_read`; `has_buf` says that the caller's buffer is not NULL.
pub read : Option Buffer → (has_buf : Bool) → (buf_size : ℤ) → Option (ℤ × List ℕ × Option Buffer)
unfolding read_bytes
read none has_buf n = some (negsuc 0, [], none)
read (some b) false n = some (negsuc 0, [], some b)
read (some b) true (negsuc n) = some (negsuc 0, [], some b)
read (some b) true (pos zero) = some (negsuc 0, [], some b)
read (some b) true (pos (suc n)) =
    read_bytes b (suc n) >>= λ (r, bytes, b'). some (r, bytes, some b')

-- The end of a line: the bytes before it, a zero behind them, and `skip` bytes passed over.
abbrev pub line_end : Buffer → (at len skip : ℕ) → Option Reading
line_end b at len skip = slice b.block b.from len >>= λ line.
    some (pos len, line ++ 0 ∷ [], record b { from = at + skip })

-- The loop of `buffer_read_line`, with the rounds left until `pos` reaches `last`; `b` is the buffer
-- at the start of the line, `at` is where `pos` has come to, after `len` bytes.
pub line_loop : (rounds : ℕ) → Buffer → (buf_size at len : ℕ) → Option Reading
line_loop zero b buf_size at len = some (pos len, [], record b { from = at })
line_loop (suc k) b buf_size at len =
    if leb buf_size len
    then some (failure b)
    else (get_elem? b.block at >>= λ c.
        let rest = line_loop k b buf_size (at + 1) (len + 1) in
        if c == cr then line_end b at len 2 else if c == lf then line_end b at len 1 else rest)

-- `buffer_read_line`, whose first line reads `buffer->pos` before any test.
pub read_line :
    Option Buffer → (has_buf : Bool) → (buf_size : ℤ) → Option (ℤ × List ℕ × Option Buffer)
unfolding line_loop
read_line none has_buf n = none
read_line (some b) false n = some (negsuc 0, [], some b)
read_line (some b) true (negsuc n) = some (negsuc 0, [], some b)
read_line (some b) true (pos zero) = some (negsuc 0, [], some b)
read_line (some b) true (pos (suc n)) =
    line_loop (b.last - b.from) b (suc n) b.from 0 >>= λ (r, bytes, b'). some (r, bytes, some b')

-- The block that `buffer_enlarge` gets from its pool: `mem_pool_calloc` clears it.
abbrev pub pool_block : ℕ → Option ℕ × Pool → Option (List ℕ) × Option Pool
pool_block n (none, pool) = (none, some pool)
pool_block n (some ptr, pool) = (some (replicate n 0), some pool)

-- A block of `n` bytes for a buffer, from its pool if it has one.
pub new_block : Answers → Option Pool → ℕ → Option (List ℕ) × Option Pool
new_block a none n = (a.malloc n, none)
new_block a (some pool) n = pool_block n (MemPool.alloc a.memalign pool (pos n))

-- `memcpy(ptr, buffer->start, last - start)`, and the pointers into the new block.
abbrev pub moved : Buffer → Option (List ℕ) × Option Pool → Option (Bool × Buffer)
moved b (none, pool) = some (false, record b { pool = pool })
moved b (some fresh, pool) = slice b.block 0 b.last >>= λ old.
    some
      (true, record { pool = pool; block = old ++ drop b.last fresh; from = b.from; last = b.last })

-- `buffer_enlarge`
pub enlarge : Answers → Buffer → (dst_size : ℤ) → Option (Bool × Buffer)
unfolding new_block
enlarge a b (negsuc n) = some (false, b)
enlarge a b (pos n) =
    if leb n (length b.block) then some (false, b) else moved b (new_block a b.pool n)

-- `memcpy(buffer->last, buf, size)`, a fault past the end of the block.
pub copy_in : Buffer → List ℕ → Option (ℤ × Buffer)
copy_in b bytes =
    if leb (b.last + length bytes) (length b.block)
    then some (
      pos (length bytes),
      record b {
        block = take b.last b.block ++ (bytes ++ drop (b.last + length bytes) b.block);
        last = b.last + length bytes;
      },
    )
    else none

-- `buffer_write` of the bytes of `buf`, `size` in number.
pub write : Answers → Buffer → (buf : List ℕ) → Option (ℤ × Buffer)
unfolding enlarge copy_in
write a b buf =
    if ltb_ℤ (sub_ℕ (length b.block) b.last) (pos (length buf))
    then (enlarge a b (to_int (length b.block + length buf)) >>= λ (done, b').
        if done then copy_in b' buf else some (negsuc 0, b'))
    else copy_in b buf
