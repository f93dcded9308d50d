-- ===== src/MemPool.antt =====
-- emem_pool.c: blocks of memory, cut one after the other from pages of a fixed size.
pub mod Safety
pub mod Alloc
pub mod Current
pub mod Run
pub mod Requests
mod Tests
use libeasy.Prelude.{
  ℕ, zero, suc, ◌+◌, ◌-◌, ◌*◌, ◌/◌, ◌%◌, ◌^◌, Bool, true, false, not, Option, none, some, List, [],
  ◌∷◌, ◌++◌, map, ltb, leb, ◌&&◌, if◌then◌else◌,
}
use libeasy.Prelude.Int.{ℤ, pos, negsuc, pos_part, neg_part, sub_ℕ, ltb_ℤ}

-- `sizeof(mem_page_t)` and `sizeof(mem_pool_t)` where pointers have 64 bits.
abbrev pub page_header : ℕ
page_header = 40

abbrev pub pool_header : ℕ
pool_header = 32

abbrev pub max_failed_count : ℕ
max_failed_count = 4

-- Pointer arithmetic wraps at 2 ^ 64.
abbrev pub address_mod : ℕ
address_mod = 2 ^ 64

-- `mem_page_t`; `next` is the order of the pages in the pool.
pub record Page : Type 0 where
  pub start : ℕ
  pub last : ℕ
  pub end : ℕ
  pub failed : ℕ

-- `mem_pool_t`: the pages from `head` to `tail`, and the place of `current` among them, `none`
-- where the pointer is NULL.
pub record Pool : Type 0 where
  pub page_size : ℕ
  pub page_count : ℕ
  pub pages : List Page
  pub current : Option ℕ

-- `ALIGN_PTR(ptr, PLATFORM_ALIGNMENT)`
abbrev pub align : ℕ → ℕ
align ptr = (ptr + 7) % address_mod / 8 * 8

-- `ptr + size`
abbrev pub offset : ℕ → ℤ → ℕ
offset ptr size = (ptr + pos_part size + address_mod - neg_part size) % address_mod

-- A page as `posix_memalign` has just given it, with so many bytes taken at its start.
abbrev pub new_page : (addr page_size taken : ℕ) → Page
new_page addr page_size taken = record {
  start = addr;
  last = addr + taken;
  end = addr + page_size;
  failed = 0;
}

-- `mem_pool_create`; `memalign` is the answer of `posix_memalign`, `none` for a failure.
unfoldable pub create : (page_size : ℕ) (memalign : Option ℕ) → Option Pool
create page_size none = none
create page_size (some addr) = some (record {
  page_size = page_size;
  page_count = 1;
  pages = new_page addr page_size (pool_header + page_header) ∷ [];
  current = some 0;
})

-- `(char *)current->end - ptr >= size`
abbrev pub fits : Page → ℤ → Bool
fits p size = not (ltb_ℤ (sub_ℕ p.end (align p.last)) size)

-- The page behind the one at place `i`, if `ps` are the pages behind it.
abbrev pub next_place : ℕ → List Page → Option ℕ
next_place i [] = none
next_place i (p ∷ ps) = some (i + 1)

-- What the search for room leaves: the block, the pages and `mem_pool->current`.
abbrev pub Search : Type 0
Search = Option ℕ × List Page × Option ℕ

-- The `while` loop, at the page with place `i`.
pub walk : ℤ → (i : ℕ) → List Page → (current : Option ℕ) → Search
walk size i [] current = (none, [], current)
walk size i (p ∷ ps) current =
    let failed = p.failed + 1 in
    let rest =
      walk size (i + 1) ps (if leb max_failed_count failed then next_place i ps else current) in
    if fits p size
    then (some (align p.last), record p { last = offset (align p.last) size } ∷ ps, current)
    else (rest.0, record p { failed = failed } ∷ rest.1, rest.2)

-- The loop begins `skip` pages further on.
pub walk_from : ℤ → (skip i : ℕ) → List Page → (current : Option ℕ) → Search
walk_from size zero i ps current = walk size i ps current
walk_from size (suc skip) i [] current = (none, [], current)
walk_from size (suc skip) i (p ∷ ps) current =
    let rest = walk_from size skip (i + 1) ps current in (rest.0, p ∷ rest.1, rest.2)

abbrev pub search : Pool → ℤ → Search
search pool size = elim pool.current [
  | none ↦ (none, pool.pages, none)
  | some i ↦ walk_from size i 0 pool.pages (some i)
]

abbrev pub or_place : Option ℕ → ℕ → Option ℕ
or_place none i = some i
or_place (some j) i = some j

abbrev pub count : List Page → ℕ
count [] = 0
count (p ∷ ps) = suc (count ps)

-- The last part of `mem_pool_alloc`: a new page at the tail, which the block begins.
pub add_page : (memalign : Option ℕ) → Pool → List Page → Option ℕ → ℤ → Option ℕ × Pool
add_page none pool ps current size = (none, record pool { pages = ps; current = current })
add_page (some addr) pool ps current size =
    let p = new_page addr pool.page_size page_header in
    (
      some (align p.last),
      record {
        page_size = pool.page_size;
        page_count = pool.page_count + 1;
        pages = ps ++ record p { last = offset (align p.last) size } ∷ [];
        current = or_place current (count ps);
      },
    )

-- The size is more than a page can hold.
abbrev pub too_large : Pool → ℤ → Bool
too_large pool size = ltb_ℤ (sub_ℕ pool.page_size page_header) size

-- The end of `mem_pool_alloc`: it returns from the loop with the block found there, or goes on
-- behind the loop.
pub give : (memalign : Option ℕ) → Pool → ℤ → Search → Option ℕ × Pool
give memalign pool size (some ptr, ps, current) =
    (some ptr, record pool { pages = ps; current = current })
give memalign pool size (none, ps, current) = add_page memalign pool ps current size

-- `mem_pool_alloc` after the test of its pointer.
pub alloc : (memalign : Option ℕ) → Pool → ℤ → Option ℕ × Pool
unfolding give
alloc memalign pool size =
    if too_large pool size then (none, pool) else give memalign pool size (search pool size)

-- The bytes of memory.
abbrev pub Memory : Type 0
Memory = ℕ → ℕ

-- `bzero(addr, n)`
abbrev pub bzero : ℕ → ℕ → Memory → Memory
bzero addr n memory a = if leb addr a && ltb a (addr + n) then 0 else memory a

-- What `mem_pool_calloc` does with the answer of `mem_pool_alloc`. A negative size is converted to
-- a count beyond all memory, which is a fault.
clear_block : Memory → ℤ → Option ℕ × Pool → Option (Option ℕ × Pool × Memory)
clear_block memory size (none, pool) = some (none, pool, memory)
clear_block memory (pos n) (some ptr, pool) = some (some ptr, pool, bzero ptr n memory)
clear_block memory (negsuc n) (some ptr, pool) = none

-- `mem_pool_calloc`
pub calloc : (memalign : Option ℕ) → Pool → Memory → ℤ → Option (Option ℕ × Pool × Memory)
unfolding clear_block
calloc memalign pool memory size = clear_block memory size (alloc memalign pool size)

-- `mem_pool_destroy`: the addresses that are freed, in order.
pub destroy : Option Pool → List ℕ
destroy none = []
destroy (some pool) = map (λ p. p.start) pool.pages
