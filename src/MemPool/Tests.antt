-- ===== src/MemPool/Tests.antt =====
-- emem_pool.c: runs on small pools, and the theorems at them.
use libeasy.Prelude.{◌≡◌, refl, none, some, List, [], ◌∷◌, arith}
use libeasy.Prelude.Int.{pos}
use libeasy.MemPool.{Page, Pool, create, walk, walk_from, add_page, give, alloc, destroy}
use libeasy.MemPool.Alloc.{IsValid, Served, alloc-Served}
use libeasy.MemPool.Run.{Request, AllFresh, PairwiseDisjoint, run, run-PairwiseDisjoint}

-- The pool that `create` makes on the page at 4096, with pages of 128 bytes.
abbrev first_page : Page
first_page = record { start = 4096; last = 4168; end = 4224; failed = 0 }

abbrev pool : Pool
pool = record { page_size = 128; page_count = 1; pages = first_page ∷ []; current = some 0 }

pool-create : create 128 (some 4096) ≡ some pool
unfolding create
pool-create = refl

pool-IsValid : IsValid pool
pool-IsValid = record {
  ok = (omega arith, tt);
  apart = (tt, tt);
  counted = refl;
  sized = omega arith;
}

-- The third request opens a page, since the first has no room left; the fourth finds no memory.
abbrev requests : List Request
requests = (none, 20) ∷ (none, 9) ∷ (some 8192, 60) ∷ (none, 80) ∷ []

run-requests :
    run pool requests ≡ (some 4168, 20) ∷ (some 4192, 9) ∷ (some 8232, 60) ∷ (none, 80) ∷ []
unfolding run alloc give walk_from walk add_page
run-requests = refl

requests-AllFresh : AllFresh pool requests
unfolding alloc give walk_from walk add_page
requests-AllFresh = (tt, (tt, ((refl, omega arith, (omega arith, tt)), (tt, tt))))

run-PairwiseDisjoint_example : PairwiseDisjoint (run pool requests)
run-PairwiseDisjoint_example = run-PairwiseDisjoint requests pool-IsValid requests-AllFresh

alloc-Served_example :
    let (found, pool') = alloc none pool (pos 20) in
    IsValid pool' × Served 20 (first_page ∷ []) found pool'.pages × (pool'.page_size ≡ 128)
alloc-Served_example = alloc-Served 20 none pool-IsValid tt

-- After its fourth failure a page is passed over.
abbrev tired : Page
tired = record first_page { failed = 3 }

destroy-pool : destroy (some pool) ≡ 4096 ∷ []
unfolding destroy
destroy-pool = refl
