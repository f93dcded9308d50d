-- ===== src/MemPool/Requests.antt =====
-- emem_pool.c: which requests are served, a negative size among them, and what `mem_pool_calloc` clears.
use libeasy.Prelude.{
  ℕ, suc, ◌+◌, ◌-◌, ◌≤◌, ◌<◌, ◌≡◌, ◌≢◌, ◌↔◌, refl, ap, ◌⊎◌, inl, inr, true, false, Option, none,
  some, List, ◌∷◌, arith, Bool-cases,
}
use libeasy.Prelude.Int.{ℤ, pos, negsuc}
use libeasy.MemPool.{
  Page, Pool, Search, Memory, page_header, align, offset, fits, walk, walk_from, give, add_page,
  alloc, calloc, clear_block, bzero, too_large, search,
}
use libeasy.MemPool.Safety.{PageOk, align_bounds}
use libeasy.MemPool.Alloc.{IsValid}

give-some :
    (addr : ℕ) (pool : Pool) (size : ℤ) (out : Search) → (give (some addr) pool size out).0 ≢ none
unfolding give add_page
give-some addr pool size (some b, ps, current) e = cc
give-some addr pool size (none, ps, current) e = cc

-- While `posix_memalign` answers, a request is refused exactly if a page could not hold it beside
-- its header.
pub alloc_refuses :
    (addr n : ℕ) {pool : Pool}
    → IsValid pool
    → ((alloc (some addr) pool (pos n)).0 ≡ none) ↔ (pool.page_size < page_header + n)
unfolding alloc
alloc_refuses addr n {pool} v = elim (Bool-cases (too_large pool (pos n))) [
  | inl large ↦ rw large ((λ _. let h = v.sized in ground arith), λ _. refl)
  | inr small ↦ rw small (
    (λ e. absurd (give-some addr pool (pos n) (search pool (pos n)) e)),
    λ h. absurd (ground arith),
  )
]

-- A request that no page could hold leaves the pool as it is.
pub alloc_too_large :
    (answer : Option ℕ) (n : ℕ) {pool : Pool}
    → IsValid pool
    → pool.page_size < page_header + n
    → alloc answer pool (pos n) ≡ (none, pool)
unfolding alloc
alloc_too_large answer n {pool} v over = rw large
  where
    large : too_large pool (pos n) ≡ true
    large = let s = v.sized in ground arith

-- A pool whose first page is the current one.
abbrev pub at_first : (page_size page_count : ℕ) → Page → List Page → Pool
at_first page_size page_count p ps = record {
  page_size = page_size;
  page_count = page_count;
  pages = p ∷ ps;
  current = some 0;
}

-- A negative size is not refused: where the first page is current and has room, `mem_pool_alloc`
-- answers the next free address, and the page's free part then begins below that address, so that
-- bytes which were given before are given again.
pub alloc_negative :
    (answer : Option ℕ) (k page_size page_count : ℕ) (p : Page) (ps : List Page)
    → PageOk p
    → page_header ≤ page_size
    → k < p.last
    → align p.last ≤ p.end
    → alloc answer (at_first page_size page_count p ps) (negsuc k) ≡ (
      some (align p.last),
      at_first page_size page_count (record p { last = align p.last - suc k }) ps,
    )
unfolding alloc give walk_from walk
alloc_negative answer k page_size page_count p ps v big lt room =
    rw (small, fit)
      (ap (λ l. (some (align p.last), at_first page_size page_count (record p { last = l }) ps))
        back)
  where
    small : too_large (at_first page_size page_count p ps) (negsuc k) ≡ false
    small = ground arith

    fit : fits p (negsuc k) ≡ true
    fit = ground arith

    back : offset (align p.last) (negsuc k) ≡ align p.last - suc k
    back = let b = align_bounds p.last (omega arith) in omega arith

bzero_in : (b n a : ℕ) (memory : Memory) → b ≤ a → a < b + n → bzero b n memory a ≡ 0
bzero_in b n a memory lo hi = ground arith

bzero_out : (b n a : ℕ) (memory : Memory) → (a < b) ⊎ (b + n ≤ a) → bzero b n memory a ≡ memory a
bzero_out b n a memory h = ground arith

-- `mem_pool_calloc` gives the block and the pool that `mem_pool_alloc` gives, and clears exactly
-- the bytes of the block.
pub calloc_clears :
    (answer : Option ℕ) (n : ℕ) (pool : Pool) (memory : Memory)
    → (memory' : Memory) × (calloc answer pool memory (pos n)
        ≡ some ((alloc answer pool (pos n)).0, (alloc answer pool (pos n)).1, memory'))
      × ((b a : ℕ) → (alloc answer pool (pos n)).0 ≡ some b → b ≤ a → a < b + n → memory' a ≡ 0)
      × ((a : ℕ)
          → ((b : ℕ) → (alloc answer pool (pos n)).0 ≡ some b → (a < b) ⊎ (b + n ≤ a))
          → memory' a ≡ memory a)
unfolding calloc
calloc_clears answer n pool memory = cleared (alloc answer pool (pos n))
  where
    cleared :
        (out : Option ℕ × Pool)
        → (memory' : Memory) × (clear_block memory (pos n) out ≡ some (out.0, out.1, memory'))
          × ((b a : ℕ) → out.0 ≡ some b → b ≤ a → a < b + n → memory' a ≡ 0)
          × ((a : ℕ) → ((b : ℕ) → out.0 ≡ some b → (a < b) ⊎ (b + n ≤ a)) → memory' a ≡ memory a)
    cleared (none, pool') = (memory, refl, (λ b a e lo hi. cc), (λ a h. refl))
    cleared (some b, pool') = (
      bzero b n memory,
      refl,
      (λ b' a e lo hi. let at : b ≡ b' = cc in bzero_in b n a memory (omega arith) (omega arith)),
      (λ a h. let o = h b refl in bzero_out b n a memory o),
    )
