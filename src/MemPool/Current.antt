-- ===== src/MemPool/Current.antt =====
-- emem_pool.c: where `mem_pool->current` points, and how the counts of failures fall.
use libeasy.Prelude.{
  ℕ, zero, suc, ◌+◌, ◌≤◌, ◌<◌, ◌≡◌, refl, sym, ap, ◌∙◌, inl, inr, true, false, Option, none, some,
  List, [], ◌∷◌, ◌++◌, arith, max, ltb, leb, if◌then◌else◌, Bool-cases,
}
use libeasy.Prelude.Int.{ℤ}
use libeasy.MemPool.{
  Page, Pool, Search, max_failed_count, fits, next_place, walk, walk_from, search, or_place, count,
  add_page, give, alloc, too_large,
}

-- The place of the first page that has failed fewer than four times, counted from `i` on.
abbrev pub first_open : (i : ℕ) → List Page → Option ℕ
first_open i [] = none
first_open i (p ∷ ps) = if ltb p.failed max_failed_count then some i else first_open (i + 1) ps

-- The counts of failures do not rise from page to page, and begin at most at `b`.
abbrev pub Falling : (b : ℕ) → List Page → Type 0
Falling b [] = Unit
Falling b (p ∷ ps) = (p.failed ≤ b) × Falling p.failed ps

Falling-mono : (b c : ℕ) (ps : List Page) → b ≤ c → Falling b ps → Falling c ps
Falling-mono b c [] h f = tt
Falling-mono b c (p ∷ ps) h f = (omega arith, f.1)

walk-Falling :
    (size : ℤ) (i b : ℕ) (ps : List Page) (current : Option ℕ)
    → Falling b ps
    → Falling (b + 1) (walk size i ps current).1
unfolding walk
walk-Falling size i b [] current f = tt
walk-Falling size i b (p ∷ ps) current f = elim (Bool-cases (fits p size)) [
  | inl fit ↦ rw fit (omega arith, f.1)
  | inr miss ↦ rw miss (omega arith, walk-Falling size (i + 1) p.failed ps _ f.1)
]

-- Pages that have failed at most twice do not move `current`.
walk-keeps :
    (size : ℤ) (i : ℕ) (ps : List Page) (current : Option ℕ)
    → Falling 2 ps
    → (walk size i ps current).2 ≡ current
unfolding walk
walk-keeps size i [] current f = refl
walk-keeps size i (p ∷ ps) current f = elim (Bool-cases (fits p size)) [
  | inl fit ↦ rw fit
  | inr miss ↦ rw (miss, below) (walk-keeps size (i + 1) ps current (Falling-mono _ 2 ps f.0 f.1))
]
  where
    below : leb max_failed_count (p.failed + 1) ≡ false
    below = let h = f.0 in ground arith

next_place-first_open :
    (i : ℕ) (ps : List Page) → Falling 3 ps → next_place i ps ≡ first_open (i + 1) ps
next_place-first_open i [] f = refl
next_place-first_open i (p ∷ ps) f = let h = f.0 in ground arith

-- The loop, begun at the first open page, leaves `current` at the first page that is open then.
walk-first_open :
    (size : ℤ) (i : ℕ) (ps : List Page) (current : Option ℕ)
    → Falling 3 ps
    → current ≡ first_open i ps
    → let out = walk size i ps current in out.2 ≡ first_open i out.1
unfolding walk
walk-first_open size i [] current f e = e
walk-first_open size i (p ∷ ps) current f e =
    let le = f.0 in
    let here : current ≡ some i = ground arith in
    elim (Bool-cases (fits p size)) [
      | inl fit ↦ rw fit (ground arith)
      | inr miss ↦ elim (Bool-cases (leb max_failed_count (p.failed + 1))) [
        | inl last_time ↦
            let shut : ltb (p.failed + 1) max_failed_count ≡ false = ground arith in
            let f' = Falling-mono p.failed 3 ps f.0 f.1 in
            rw (miss, last_time, shut)
              (walk-first_open size (i + 1) ps (next_place i ps) f' (next_place-first_open i ps f'))
        | inr again ↦
            let open_still : ltb (p.failed + 1) max_failed_count ≡ true = ground arith in
            rw (miss, again, open_still)
              (walk-keeps size (i + 1) ps current (Falling-mono p.failed 2 ps (ground arith) f.1)
                ∙ here)
      ]
    ]

first_open-ge : (i j : ℕ) (ps : List Page) → first_open i ps ≡ some j → i ≤ j
first_open-ge i j [] e = absurd (cc)
first_open-ge i j (p ∷ ps) e = ground (arith, first_open-ge (i + 1) j ps)

open_head :
    (i j : ℕ) (p : Page) (ps : List Page)
    → first_open i (p ∷ ps) ≡ some j
    → j ≤ i
    → ltb p.failed max_failed_count ≡ true
open_head i j p ps e h = ground (arith, first_open-ge (i + 1) j ps)

shut_head :
    (i j : ℕ) (p : Page) (ps : List Page)
    → first_open i (p ∷ ps) ≡ some j
    → i < j
    → ltb p.failed max_failed_count ≡ false
shut_head i j p ps e h = ground arith

-- The same, where the loop begins behind pages that are passed over.
record Kept (i b : ℕ) (out : Search) : Type 0 where
  first : out.2 ≡ first_open i out.1
  falling : Falling (max b max_failed_count) out.1

walk_from-Kept :
    (size : ℤ) (skip i b : ℕ) (ps : List Page) (current : Option ℕ)
    → Falling b ps
    → current ≡ first_open i ps
    → current ≡ some (i + skip)
    → Kept i b (walk_from size skip i ps current)
unfolding walk_from
walk_from-Kept size zero i b [] current f e at = absurd (cc)
walk_from-Kept size zero i b (p ∷ ps) current f e at =
    let is_open = open_head i i p ps (sym e ∙ at ∙ ap some (omega arith)) (omega arith) in
    let f' : Falling 3 (p ∷ ps) = (ground arith, f.1) in
    record {
      first = walk-first_open size i (p ∷ ps) current f' e;
      falling = Falling-mono 4 _ _ (omega arith) (walk-Falling size i 3 (p ∷ ps) current f');
    }
walk_from-Kept size (suc skip) i b [] current f e at = absurd (cc)
walk_from-Kept size (suc skip) i b (p ∷ ps) current f e at =
    let shut : ltb p.failed max_failed_count ≡ false =
      shut_head i (i + suc skip) p ps (sym e ∙ at) (omega arith) in
    let k =
      walk_from-Kept size skip (i + 1) p.failed ps current f.1 (e ∙ rw shut)
        (at ∙ ap some (omega arith)) in
    record {
      first = rw shut k.first;
      falling = (let h = f.0 in omega arith, Falling-mono _ p.failed _ (ground arith) k.falling);
    }

first_open-snoc :
    (i : ℕ) (ps : List Page) (q : Page)
    → q.failed ≡ 0
    → first_open i (ps ++ q ∷ []) ≡ or_place (first_open i ps) (i + count ps)
first_open-snoc i [] q e = ground arith
first_open-snoc i (p ∷ ps) q e = elim (Bool-cases (ltb p.failed max_failed_count)) [
  | inl is_open ↦ rw is_open
  | inr shut ↦
      rw shut (first_open-snoc (i + 1) ps q e ∙ ap (or_place (first_open (i + 1) ps)) (omega arith))
]

Falling-snoc :
    (b : ℕ) (ps : List Page) (q : Page) → q.failed ≡ 0 → Falling b ps → Falling b (ps ++ q ∷ [])
Falling-snoc b [] q e f = (omega arith, tt)
Falling-snoc b (p ∷ ps) q e f = (f.0, Falling-snoc p.failed ps q e f.1)

-- `current` points to the first page that failed fewer than four times, and the counts of failures
-- do not rise along the pages.
pub record IsOrdered (pool : Pool) : Type 0 where
  pub bound : ℕ
  pub falling : Falling bound pool.pages
  pub first : pool.current ≡ first_open 0 pool.pages

-- What a search leaves, in the same terms.
record Settled (out : Search) : Type 0 where
  bound : ℕ
  falling : Falling bound out.1
  first : out.2 ≡ first_open 0 out.1

search-Settled : (size : ℤ) (pool : Pool) → IsOrdered pool → Settled (search pool size)
search-Settled size pool v = from pool.current v.first
  where
    from :
        (c : Option ℕ)
        → c ≡ first_open 0 pool.pages
        → Settled (search (record pool { current = c }) size)
    from none e = record { bound = v.bound; falling = v.falling; first = e }
    from (some i) e =
        let k =
          walk_from-Kept size i 0 v.bound pool.pages (some i) v.falling e (ap some (omega arith)) in
        record { bound = max v.bound max_failed_count; falling = k.falling; first = k.first }

give-IsOrdered :
    (answer : Option ℕ) (size : ℤ) (pool : Pool) (out : Search)
    → Settled out
    → IsOrdered (give answer pool size out).1
unfolding give add_page
give-IsOrdered answer size pool (some b, ps, current) k = record {
  bound = k.bound;
  falling = k.falling;
  first = k.first;
}
give-IsOrdered none size pool (none, ps, current) k = record {
  bound = k.bound;
  falling = k.falling;
  first = k.first;
}
give-IsOrdered (some addr) size pool (none, ps, current) k = record {
  bound = k.bound;
  falling = Falling-snoc k.bound ps _ refl k.falling;
  first =
      ap (λ c. or_place c (count ps)) k.first
      ∙ sym (first_open-snoc 0 ps _ refl ∙ ap (or_place (first_open 0 ps)) (omega arith));
}

-- A call of `mem_pool_alloc`, whatever its size and the answer of `posix_memalign`, leaves
-- `current` at the first page that has failed fewer than four times, and the counts of failures
-- falling along the pages: no page is tried again after its fourth failure.
pub alloc-IsOrdered :
    (answer : Option ℕ) (size : ℤ) {pool : Pool}
    → IsOrdered pool
    → IsOrdered (alloc answer pool size).1
unfolding alloc
alloc-IsOrdered answer size {pool} v = elim (Bool-cases (too_large pool size)) [
  | inl large ↦ rw large v
  | inr small ↦
      rw small (give-IsOrdered answer size pool (search pool size) (search-Settled size pool v))
]
