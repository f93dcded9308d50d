-- ===== src/MemPool/Run.antt =====
-- emem_pool.c: a pool from `mem_pool_create` on, under any sequence of calls of `mem_pool_alloc`.
use libeasy.Prelude.{
  ℕ, ◌+◌, ◌^◌, ◌≤◌, ◌<◌, ◌≡◌, refl, Option, none, some, List, [], ◌∷◌, inl, arith,
}
use libeasy.Prelude.Int.{pos}
use libeasy.MemPool.{Pool, page_header, pool_header, create, alloc}
use libeasy.MemPool.Safety.{Used, Disjoint}
use libeasy.MemPool.Alloc.{IsValid, Fresh, alloc-Served}

-- What `posix_memalign` would answer during a call, and the number of bytes asked for.
abbrev pub Request : Type 0
Request = Option ℕ × ℕ

-- What each call gives, with the number of bytes asked for.
unfoldable pub run : Pool → List Request → List (Option ℕ × ℕ)
run pool [] = []
run pool ((answer, n) ∷ rs) =
    let (found, pool') = alloc answer pool (pos n) in (found, n) ∷ run pool' rs

-- Each page that `posix_memalign` answers is apart from the pages that the pool has by then.
abbrev pub AllFresh : Pool → List Request → Type 0
AllFresh pool [] = Unit
AllFresh pool ((answer, n) ∷ rs) = Fresh pool answer × AllFresh (alloc answer pool (pos n)).1 rs

abbrev pub DisjointFrom : (a m : ℕ) → List (Option ℕ × ℕ) → Type 0
DisjointFrom a m [] = Unit
DisjointFrom a m ((none, n) ∷ bs) = DisjointFrom a m bs
DisjointFrom a m ((some b, n) ∷ bs) = Disjoint a m b n × DisjointFrom a m bs

-- No two of the blocks share a byte.
abbrev pub PairwiseDisjoint : List (Option ℕ × ℕ) → Type 0
PairwiseDisjoint [] = Unit
PairwiseDisjoint ((none, n) ∷ bs) = PairwiseDisjoint bs
PairwiseDisjoint ((some b, n) ∷ bs) = DisjointFrom b n bs × PairwiseDisjoint bs

-- `mem_pool_create` makes a valid pool with one page, whose headers count as a block.
pub create-IsValid :
    (page_size addr : ℕ)
    → pool_header + page_header ≤ page_size
    → addr + page_size < 2 ^ 63
    → (pool : Pool) × (create page_size (some addr) ≡ some pool)
      × IsValid pool
      × Used (addr + page_header) pool_header pool.pages
unfolding create
create-IsValid page_size addr big low = (
  _,
  refl,
  record { ok = (omega arith, tt); apart = (tt, tt); counted = refl; sized = big },
  inl (omega arith),
)

-- A block that was given before is apart from all that follow.
Used-DisjointFrom :
    (rs : List Request) {pool : Pool} (a m : ℕ)
    → IsValid pool
    → AllFresh pool rs
    → Used a m pool.pages
    → DisjointFrom a m (run pool rs)
unfolding run
Used-DisjointFrom [] a m v f u = tt
Used-DisjointFrom ((answer, n) ∷ rs) {pool} a m v f u =
    let (v', s, _) = alloc-Served n answer v f.0 in
    DisjointFrom-cons (alloc answer pool (pos n)).0 _ (λ b e. s.fresh b a m e u)
      (Used-DisjointFrom rs a m v' f.1 (s.kept a m u))
  where
    DisjointFrom-cons :
        (found : Option ℕ) (bs : List (Option ℕ × ℕ))
        → ((b : ℕ) → found ≡ some b → Disjoint a m b n)
        → DisjointFrom a m bs
        → DisjointFrom a m ((found, n) ∷ bs)
    DisjointFrom-cons none bs far rest = rest
    DisjointFrom-cons (some b) bs far rest = (far b refl, rest)

-- For requests of sizes that are not negative, and where `posix_memalign` each time fails or answers an
-- aligned page in user memory that is apart from those of the pool: no two blocks that a valid pool gives overlap.
pub run-PairwiseDisjoint :
    (rs : List Request) {pool : Pool}
    → IsValid pool
    → AllFresh pool rs
    → PairwiseDisjoint (run pool rs)
unfolding run
run-PairwiseDisjoint [] v f = tt
run-PairwiseDisjoint ((answer, n) ∷ rs) {pool} v f =
    let (v', s, _) = alloc-Served n answer v f.0 in
    PairwiseDisjoint-cons (alloc answer pool (pos n)).0 _
      (λ b e. Used-DisjointFrom rs b n v' f.1 (s.given b e).1) (run-PairwiseDisjoint rs v' f.1)
  where
    PairwiseDisjoint-cons :
        (found : Option ℕ) (bs : List (Option ℕ × ℕ))
        → ((b : ℕ) → found ≡ some b → DisjointFrom b n bs)
        → PairwiseDisjoint bs
        → PairwiseDisjoint ((found, n) ∷ bs)
    PairwiseDisjoint-cons none bs far rest = rest
    PairwiseDisjoint-cons (some b) bs far rest = (far b refl, rest)
