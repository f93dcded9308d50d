-- ===== src/MemPool/Alloc.antt =====
-- emem_pool.c: what a call of `mem_pool_alloc` keeps and gives, a new page included.
use libeasy.Prelude.{
  ℕ, zero, suc, ◌+◌, ◌%◌, ◌^◌, ◌≤◌, ◌<◌, ◌≡◌, refl, sym, ap, ◌∙◌, ◌⊎◌, inl, inr, false, Option,
  none, some, List, [], ◌∷◌, ◌++◌, arith, Bool-cases,
}
use libeasy.Prelude.Int.{ℤ, pos}
use libeasy.MemPool.{
  Page, Pool, page_header, pool_header, align, offset, new_page, count, add_page, give, alloc,
  too_large, search, Search, fits, walk, walk_from,
}
use libeasy.MemPool.Safety.{
  PageOk, AllOk, Used, ApartFrom, ApartFrom-same, Cut-none, Apart, Disjoint, Cut, search-Cut,
  align_bounds, used_apart, Disjoint-sym,
}

-- The answer of `posix_memalign`: an aligned page in user memory, apart from the pool's pages.
abbrev pub Fresh : Pool → Option ℕ → Type 0
Fresh pool none = Unit
Fresh pool (some addr) =
    (addr % 8 ≡ 0)
    × (addr + pool.page_size < 2 ^ 63)
    × ApartFrom (new_page addr pool.page_size page_header) pool.pages

pub record IsValid (pool : Pool) : Type 0 where
  pub ok : AllOk pool.pages
  pub apart : Apart pool.pages
  pub counted : pool.page_count ≡ count pool.pages
  pub sized : pool_header + page_header ≤ pool.page_size

AllOk-snoc : (ps : List Page) (q : Page) → AllOk ps → PageOk q → AllOk (ps ++ q ∷ [])
AllOk-snoc [] q ok v = (v, tt)
AllOk-snoc (p ∷ ps) q ok v = (ok.0, AllOk-snoc ps q ok.1 v)

ApartFrom-snoc :
    (p : Page) (ps : List Page) (q : Page)
    → ApartFrom p ps
    → (p.end ≤ q.start) ⊎ (q.end ≤ p.start)
    → ApartFrom p (ps ++ q ∷ [])
ApartFrom-snoc p [] q far h = (h, tt)
ApartFrom-snoc p (r ∷ ps) q far h = (far.0, ApartFrom-snoc p ps q far.1 h)

Apart-snoc : (ps : List Page) (q : Page) → Apart ps → ApartFrom q ps → Apart (ps ++ q ∷ [])
Apart-snoc [] q apart far = (tt, tt)
Apart-snoc (p ∷ ps) q apart far = (
  ApartFrom-snoc p ps q apart.0 (elim far.0 [ inl h ↦ inr h | inr h ↦ inl h ]),
  Apart-snoc ps q apart.1 far.1,
)

Used-snoc_left : (ps : List Page) (q : Page) (a m : ℕ) → Used a m ps → Used a m (ps ++ q ∷ [])
Used-snoc_left [] q a m u = absurd u
Used-snoc_left (p ∷ ps) q a m (inl here) = inl here
Used-snoc_left (p ∷ ps) q a m (inr later) = inr (Used-snoc_left ps q a m later)

Used-snoc_right :
    (ps : List Page) (q : Page) (a m : ℕ)
    → q.start + page_header ≤ a
    → a + m ≤ q.last
    → Used a m (ps ++ q ∷ [])
Used-snoc_right [] q a m lo hi = inl (lo, hi)
Used-snoc_right (p ∷ ps) q a m lo hi = inr (Used-snoc_right ps q a m lo hi)

count-snoc : (ps : List Page) (q : Page) → count (ps ++ q ∷ []) ≡ count ps + 1
count-snoc [] q = refl
count-snoc (p ∷ ps) q = omega (arith, count-snoc ps q)

count-walk :
    (size : ℤ) (i : ℕ) (ps : List Page) (current : Option ℕ)
    → count (walk size i ps current).1 ≡ count ps
unfolding walk
count-walk size i [] current = refl
count-walk size i (p ∷ ps) current = elim (Bool-cases (fits p size)) [
  | inl fit ↦ rw fit
  | inr miss ↦ rw miss (ap suc (count-walk size (i + 1) ps _))
]

count-walk_from :
    (size : ℤ) (skip i : ℕ) (ps : List Page) (current : Option ℕ)
    → count (walk_from size skip i ps current).1 ≡ count ps
unfolding walk_from
count-walk_from size zero i ps current = count-walk size i ps current
count-walk_from size (suc skip) i [] current = refl
count-walk_from size (suc skip) i (p ∷ ps) current =
    ap suc (count-walk_from size skip (i + 1) ps current)

pub count-search : (size : ℤ) (pool : Pool) → count (search pool size).1 ≡ count pool.pages
count-search size pool = from pool.current
  where
    from : (c : Option ℕ) → count (search (record pool { current = c }) size).1 ≡ count pool.pages
    from none = refl
    from (some i) = count-walk_from size i 0 pool.pages (some i)

-- What a call for `n` bytes gives the owner of a pool with the pages `ps`: the old blocks are still
-- marked, and the block, if there is one, is aligned, marked, and apart from every old block.
pub record Served (n : ℕ) (ps : List Page) (found : Option ℕ) (qs : List Page) : Type 0 where
  pub kept : (a m : ℕ) → Used a m ps → Used a m qs
  pub given : (b : ℕ) → found ≡ some b → (b % 8 ≡ 0) × Used b n qs
  pub fresh : (b a m : ℕ) → found ≡ some b → Used a m ps → Disjoint a m b n

Cut-Served :
    {n : ℕ} {ps qs : List Page} {found : Option ℕ} → Cut n ps found qs → Served n ps found qs
Cut-Served c = record { kept = c.kept; given = c.given; fresh = c.fresh }

-- A block at the start of a page that is apart from the pages before.
Served-snoc :
    (n : ℕ) {ps qs : List Page} (q : Page) (b : ℕ)
    → Cut n ps none qs
    → ApartFrom q ps
    → PageOk q
    → q.start + page_header ≤ b
    → b + n ≡ q.last
    → b % 8 ≡ 0
    → Served n ps (some b) (qs ++ q ∷ [])
Served-snoc n {ps} {qs} q b c far v lo hi al = record {
  kept = λ a m u. Used-snoc_left qs q a m (c.kept a m u);
  given = λ b' e.
      let at : b ≡ b' = cc in (omega arith, Used-snoc_right qs q b' n (omega arith) (omega arith));
  fresh = λ b' a m e u.
      let at : b ≡ b' = cc in
      Disjoint-sym b' n a m
        (used_apart q qs b' n a m (c.far q far) c.ok (omega arith) (omega arith) (c.kept a m u));
}

module _ (n : ℕ) (pool : Pool) (v : IsValid pool) (small : too_large pool (pos n) ≡ false) where
  fits_page : page_header + n ≤ pool.page_size
  fits_page = let h = v.sized in ground arith

  add_page-lem :
      (answer : Option ℕ) {qs : List Page} (current : Option ℕ)
      → Fresh pool answer
      → Cut n pool.pages none qs
      → count qs ≡ count pool.pages
      → let (found, pool') = add_page answer pool qs current (pos n) in
        IsValid pool' × Served n pool.pages found pool'.pages × (pool'.page_size ≡ pool.page_size)
  unfolding add_page
  add_page-lem none {qs} current f c same = (
    record { ok = c.ok; apart = c.apart; counted = v.counted ∙ sym same; sized = v.sized },
    Cut-Served c,
    refl,
  )
  add_page-lem (some addr) {qs} current f c same =
      let q : Page = new_page addr pool.page_size page_header in
      let room = fits_page in
      let al = align_bounds q.last (omega arith) in
      let at : align q.last ≡ q.last = omega arith in
      let e : offset (align q.last) (pos n) ≡ q.last + n = omega arith in
      let q' : Page = record q { last = offset (align q.last) (pos n) } in
      let far = ApartFrom-same q q' pool.pages refl refl f.2 in
      let ok : PageOk q' = record { header = omega arith; room = omega arith; low = omega arith } in
      (
        record {
          ok = AllOk-snoc qs q' c.ok ok;
          apart = Apart-snoc qs q' c.apart (c.far q' far);
          counted = omega (arith, v.counted, count-snoc qs q');
          sized = v.sized;
        },
        Served-snoc n q' (align q.last) c far ok (omega arith) (omega arith) al.2,
        refl,
      )

-- For a size that is not negative, and where `posix_memalign` fails or answers an aligned page in user
-- memory that is apart from those of the pool, `mem_pool_alloc` keeps the pool valid. A block that it gives is aligned, lies
-- in the used part of a page, and shares no byte with a block given before; those stay where they are.
pub alloc-Served :
    (n : ℕ) (answer : Option ℕ) {pool : Pool}
    → IsValid pool
    → Fresh pool answer
    → let (found, pool') = alloc answer pool (pos n) in
      IsValid pool' × Served n pool.pages found pool'.pages × (pool'.page_size ≡ pool.page_size)
unfolding alloc
alloc-Served n answer {pool} v f = elim (Bool-cases (too_large pool (pos n))) [
  | inl large ↦ rw large (v, Cut-Served (Cut-none n v.ok v.apart), refl)
  | inr small ↦ rw small (
      served (search pool (pos n)) (search-Cut n pool v.ok v.apart) (count-search (pos n) pool)
        small)
]
  where
    served :
        (out : Search)
        → Cut n pool.pages out.0 out.1
        → count out.1 ≡ count pool.pages
        → too_large pool (pos n) ≡ false
        → let (found, pool') = give answer pool (pos n) out in
          IsValid pool' × Served n pool.pages found pool'.pages × (pool'.page_size ≡ pool.page_size)
    served (none, qs, current) c same small = add_page-lem n pool v small answer current f c same
    served (some b, qs, current) c same small = (
      record { ok = c.ok; apart = c.apart; counted = v.counted ∙ sym same; sized = v.sized },
      Cut-Served c,
      refl,
    )
