-- ===== src/MemPool/Safety.antt =====
-- emem_pool.c: every block lies inside its page, is aligned, and overlaps no block given before.
use libeasy.Prelude.{
  ℕ, zero, suc, ◌+◌, ◌%◌, ◌^◌, ◌≤◌, ◌<◌, ◌≡◌, refl, ◌⊎◌, inl, inr, true, Option, none, some, List,
  [], ◌∷◌, arith, Bool-cases,
}
use libeasy.Prelude.Int.{pos}
use libeasy.MemPool.{Page, Pool, page_header, align, offset, fits, walk, walk_from, search}

-- A page in user memory, with its header below what is handed out.
pub record PageOk (p : Page) : Type 0 where
  pub header : p.start + page_header ≤ p.last
  pub room : p.last ≤ p.end
  pub low : p.end < 2 ^ 63

abbrev pub AllOk : List Page → Type 0
AllOk [] = Unit
AllOk (p ∷ ps) = PageOk p × AllOk ps

-- The bytes from `a` on, `n` of them, were handed out of one of the pages.
abbrev pub Used : (a n : ℕ) → List Page → Type 0
Used a n [] = ⊥
Used a n (p ∷ ps) = (p.start + page_header ≤ a) × (a + n ≤ p.last) ⊎ Used a n ps

abbrev pub ApartFrom : Page → List Page → Type 0
ApartFrom p [] = Unit
ApartFrom p (q ∷ qs) = ((p.end ≤ q.start) ⊎ (q.end ≤ p.start)) × ApartFrom p qs

-- No two pages overlap.
abbrev pub Apart : List Page → Type 0
Apart [] = Unit
Apart (p ∷ ps) = ApartFrom p ps × Apart ps

-- Two blocks without a common byte.
abbrev pub Disjoint : (a m b n : ℕ) → Type 0
Disjoint a m b n = (a + m ≤ b) ⊎ (b + n ≤ a)

pub align_bounds : (a : ℕ) → a < 2 ^ 63 → (a ≤ align a) × (align a < a + 8) × (align a % 8 ≡ 0)
align_bounds a h = omega arith

-- The test of the loop, for a size that is not negative.
pub fits_iff : {p : Page} (n : ℕ) → PageOk p → fits p (pos n) ≡ true → align p.last + n ≤ p.end
fits_iff {p} n v h = ground arith

pub offset_pos : (a n : ℕ) → a + n < 2 ^ 63 → offset a (pos n) ≡ a + n
offset_pos a n h = omega arith

-- A block of the page `p` and one of pages that are apart from it.
pub used_apart :
    (p : Page) (qs : List Page) (a m b n : ℕ)
    → ApartFrom p qs
    → AllOk qs
    → p.start ≤ a
    → a + m ≤ p.end
    → Used b n qs
    → Disjoint a m b n
used_apart p [] a m b n far ok lo hi u = absurd u
used_apart p (q ∷ qs) a m b n far ok lo hi (inl here) = omega arith
used_apart p (q ∷ qs) a m b n far ok lo hi (inr later) =
    used_apart p qs a m b n far.1 ok.1 lo hi later

pub Disjoint-sym : (a m b n : ℕ) → Disjoint a m b n → Disjoint b n a m
Disjoint-sym a m b n (inl h) = inr h
Disjoint-sym a m b n (inr h) = inl h

pub ApartFrom-same :
    (p q : Page) (rs : List Page)
    → q.start ≡ p.start
    → q.end ≡ p.end
    → ApartFrom p rs
    → ApartFrom q rs
ApartFrom-same p q [] es ee h = tt
ApartFrom-same p q (r ∷ rs) es ee h = (omega arith, ApartFrom-same p q rs es ee h.1)

-- What a search leaves: pages at the same places, on which the old blocks are still marked, and a
-- block, if it found one, that is aligned, marked, and apart from every old block.
pub record Cut (n : ℕ) (ps : List Page) (found : Option ℕ) (qs : List Page) : Type 0 where
  pub ok : AllOk qs
  pub apart : Apart qs
  pub far : (p : Page) → ApartFrom p ps → ApartFrom p qs
  pub kept : (a m : ℕ) → Used a m ps → Used a m qs
  pub given : (b : ℕ) → found ≡ some b → (b % 8 ≡ 0) × Used b n qs
  pub fresh : (b a m : ℕ) → found ≡ some b → Used a m ps → Disjoint a m b n

-- The search goes on behind a page whose extent it leaves alone.
Cut-cons :
    {n : ℕ} {p q : Page} {ps qs : List Page} {found : Option ℕ}
    → PageOk p
    → ApartFrom p ps
    → q.start ≡ p.start
    → q.last ≡ p.last
    → q.end ≡ p.end
    → Cut n ps found qs
    → Cut n (p ∷ ps) found (q ∷ qs)
Cut-cons {n} {p} {q} {ps} {qs} v far es el ee c = record {
  ok = (omega arith, c.ok);
  apart = (ApartFrom-same p q qs es ee (c.far p far), c.apart);
  far = λ r h. (omega arith, c.far r h.1);
  kept = λ a m u. elim u [ inl here ↦ inl (omega arith) | inr later ↦ inr (c.kept a m later) ];
  given = λ b e. ((c.given b e).0, inr (c.given b e).1);
  fresh = λ b a m e u. elim u [
    | inl here ↦
        used_apart p qs a m b n (c.far p far) c.ok (omega arith) (omega arith) (c.given b e).1
    | inr later ↦ c.fresh b a m e later
  ];
}

-- The block, `n` bytes from `ptr` on, is cut from the first page.
Cut-here :
    (n ptr : ℕ) (p q : Page) (ps : List Page)
    → PageOk p
    → AllOk ps
    → ApartFrom p ps
    → Apart ps
    → q.start ≡ p.start
    → q.last ≡ ptr + n
    → q.end ≡ p.end
    → p.last ≤ ptr
    → ptr + n ≤ p.end
    → ptr % 8 ≡ 0
    → Cut n (p ∷ ps) (some ptr) (q ∷ ps)
Cut-here n ptr p q ps v ok far apart es el ee lo hi al = record {
  ok = (omega arith, ok);
  apart = (ApartFrom-same p q ps es ee far, apart);
  far = λ r h. (omega arith, h.1);
  kept = λ a m u. elim u [ inl here ↦ inl (omega arith) | inr later ↦ inr later ];
  given = λ b e. let at : ptr ≡ b = cc in (omega arith, inl (omega arith));
  fresh = λ b a m e u.
      let at : ptr ≡ b = cc in
      elim u [
        | inl here ↦ omega arith
        | inr later ↦
            Disjoint-sym b n a m (used_apart p ps b n a m far ok (omega arith) (omega arith) later)
      ];
}

Cut-first :
    (n : ℕ) (p : Page) (ps : List Page)
    → AllOk (p ∷ ps)
    → Apart (p ∷ ps)
    → fits p (pos n) ≡ true
    → Cut n (p ∷ ps) (some (align p.last)) (record p { last = offset (align p.last) (pos n) } ∷ ps)
Cut-first n p ps ok apart fit =
    let v = ok.0 in
    let inside = fits_iff n v fit in
    let b = align_bounds p.last (omega arith) in
    Cut-here n (align p.last) p (record p { last = offset (align p.last) (pos n) }) ps v ok.1
      apart.0 apart.1 refl (offset_pos (align p.last) n (omega arith)) refl b.0 inside b.2

-- Nothing was found, and nothing changed.
pub Cut-none : (n : ℕ) {ps : List Page} → AllOk ps → Apart ps → Cut n ps none ps
Cut-none n ok apart = record {
  ok = ok;
  apart = apart;
  far = λ p h. h;
  kept = λ a m u. u;
  given = λ b e. cc;
  fresh = λ b a m e u. cc;
}

pub walk-Cut :
    (n i : ℕ) (ps : List Page) (current : Option ℕ)
    → AllOk ps
    → Apart ps
    → let out = walk (pos n) i ps current in Cut n ps out.0 out.1
unfolding walk
walk-Cut n i [] current ok apart = Cut-none n ok apart
walk-Cut n i (p ∷ ps) current ok apart = elim (Bool-cases (fits p (pos n))) [
  | inl fit ↦ rw fit (Cut-first n p ps ok apart fit)
  | inr miss ↦ rw miss (Cut-cons ok.0 apart.0 refl refl refl (walk-Cut n (i + 1) ps _ ok.1 apart.1))
]

pub walk_from-Cut :
    (n skip i : ℕ) (ps : List Page) (current : Option ℕ)
    → AllOk ps
    → Apart ps
    → let out = walk_from (pos n) skip i ps current in Cut n ps out.0 out.1
unfolding walk_from
walk_from-Cut n zero i ps current ok apart = walk-Cut n i ps current ok apart
walk_from-Cut n (suc skip) i [] current ok apart = Cut-none n ok apart
walk_from-Cut n (suc skip) i (p ∷ ps) current ok apart =
    Cut-cons ok.0 apart.0 refl refl refl (walk_from-Cut n skip (i + 1) ps current ok.1 apart.1)

-- What the search of a pool leaves.
pub search-Cut :
    (n : ℕ) (pool : Pool)
    → AllOk pool.pages
    → Apart pool.pages
    → let out = search pool (pos n) in Cut n pool.pages out.0 out.1
search-Cut n pool ok apart = from pool.current
  where
    from :
        (c : Option ℕ)
        → let out = search (record pool { current = c }) (pos n) in Cut n pool.pages out.0 out.1
    from none = Cut-none n ok apart
    from (some i) = walk_from-Cut n i 0 pool.pages (some i) ok apart
