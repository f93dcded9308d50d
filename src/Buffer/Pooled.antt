-- ===== src/Buffer/Pooled.antt =====
-- ebuffer.c over emem_pool.c: a buffer that takes its blocks from a pool.
use libeasy.Prelude.{
  ℕ, ◌+◌, ◌^◌, ◌≤◌, ◌<◌, ◌≡◌, refl, ap, Option, none, some, List, arith, length, length-replicate,
  replicate,
}
use libeasy.Prelude.Int.{pos, negsuc}
use libeasy.MemPool
use libeasy.MemPool.{Pool, page_header}
use libeasy.MemPool.Alloc
use libeasy.MemPool.Requests.{alloc_refuses, alloc_too_large}
use libeasy.Buffer.{Buffer, Answers, new_block, write}
use libeasy.Buffer.Contents
use libeasy.Buffer.Contents.{contents}
use libeasy.Buffer.Write.{Answered, Appended, write-Appended, write_fails}

-- `posix_memalign` answers the page at `addr`.
abbrev pub paged : (addr : ℕ) (malloc : ℕ → Option (List ℕ)) → Answers
paged addr malloc = record { malloc = malloc; memalign = some addr }

module _ (addr : ℕ) (malloc : ℕ → Option (List ℕ)) {pool : Pool} (v : Alloc.IsValid pool) where
  -- A valid pool answers every block that fits on a page of its own.
  pool-Answered :
      (n : ℕ) → page_header + n ≤ pool.page_size → Answered (paged addr malloc) (some pool) n
  unfolding new_block
  pool-Answered n fits = from (MemPool.alloc (some addr) pool (pos n)) refl
    where
      from :
          (out : Option ℕ × Pool)
          → MemPool.alloc (some addr) pool (pos n) ≡ out
          → Answered (paged addr malloc) (some pool) n
      from (none, pool') e = absurd (omega (arith, (alloc_refuses addr n v).0 (ap (λ o. o.0) e)))
      from (some ptr, pool') e = record {
        block = replicate n 0;
        pool = some pool';
        answer = rw e;
        long = length-replicate n 0;
      }

  -- A buffer on a pool grows as far as a page reaches: a write is appended if the old block and the
  -- new bytes fit on one page together.
  pub write_on_pool :
      (b : Buffer) (buf : List ℕ)
      → Contents.IsValid b
      → b.pool ≡ some pool
      → page_header + (length b.block + length buf) ≤ pool.page_size
      → pool.page_size < 2 ^ 31
      → (b' : Buffer) × (write (paged addr malloc) b buf ≡ some (pos (length buf), b'))
        × Appended b buf b'
  write_on_pool b buf w e fits small =
      write-Appended (paged addr malloc) b buf w
        (λ _. rw e (pool-Answered (length b.block + length buf) fits)) (omega arith)

  -- Beyond that a write which needs a larger block is refused with -1, and neither the bytes nor
  -- the pool change.
  pub write_beyond_page :
      (b : Buffer) (buf : List ℕ)
      → Contents.IsValid b
      → b.pool ≡ some pool
      → pool.page_size < page_header + (length b.block + length buf)
      → length b.block < b.last + length buf
      → length b.block + length buf < 2 ^ 31
      → write (paged addr malloc) b buf ≡ some (negsuc 0, record b { pool = some pool })
  unfolding new_block
  write_beyond_page b buf w e over short small =
      write_fails (paged addr malloc) b buf w (some pool) short small
        (rw (e, alloc_too_large (some addr) (length b.block + length buf) v over))
