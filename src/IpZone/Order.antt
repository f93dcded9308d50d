-- ===== src/IpZone/Order.antt =====
-- ip_zone/ip_zone.c: the search in the tree finds what a search of all zones in order finds.
use libeasy.Prelude.{
  ℕ, ◌≤◌, ◌<◌, ◌≡◌, refl, sym, ap, ◌∙◌, Bool, ◌&&◌, Option, none, some, List, [], ◌∷◌, ◌++◌, arith,
  if◌then◌else◌, ltb, leb, Bool-cases, inl, inr,
}
use libeasy.IpZone.{Zone, Tree, leaf, node, rbtree_search, in_order}

abbrev pub contains : ℕ → Zone → Bool
contains ip z = leb z.start ip && ltb ip z.end

-- The first zone with the address.
abbrev pub find_zone : ℕ → List Zone → Option Zone
find_zone ip [] = none
find_zone ip (z ∷ zs) = if contains ip z then some z else find_zone ip zs

-- Ranges that are not empty, one behind the other between two addresses.
abbrev pub Chain : (lo hi : ℕ) → List Zone → Type 0
Chain lo hi [] = lo ≤ hi
Chain lo hi (z ∷ zs) = (lo ≤ z.start) × (z.start < z.end) × Chain z.end hi zs

pub Chain-split :
    (lo hi : ℕ) (xs ys : List Zone) (z : Zone)
    → Chain lo hi (xs ++ z ∷ ys)
    → Chain lo z.start xs × (z.start < z.end) × Chain z.end hi ys
Chain-split lo hi [] ys z c = c
Chain-split lo hi (x ∷ xs) ys z c =
    let more = Chain-split x.end hi xs ys z (c.2) in ((c.0, c.1, more.0), more.1, more.2)

pub Chain_bounds : (lo hi : ℕ) (zs : List Zone) → Chain lo hi zs → lo ≤ hi
Chain_bounds lo hi [] c = c
Chain_bounds lo hi (z ∷ zs) c = let more = Chain_bounds z.end hi zs (c.2) in omega (arith, c.0, c.1)

-- An address outside of the bounds is in no zone.
pub find_zone_below :
    (ip lo hi : ℕ) (zs : List Zone) → Chain lo hi zs → ip < lo → find_zone ip zs ≡ none
find_zone_below ip lo hi [] c h = refl
find_zone_below ip lo hi (z ∷ zs) c h =
    ground (arith, c.0, c.1, find_zone_below ip z.end hi zs (c.2))

pub find_zone_above :
    (ip lo hi : ℕ) (zs : List Zone) → Chain lo hi zs → hi ≤ ip → find_zone ip zs ≡ none
find_zone_above ip lo hi [] c h = refl
find_zone_above ip lo hi (z ∷ zs) c h =
    let b = Chain_bounds z.end hi zs (c.2) in ground (arith, find_zone_above ip z.end hi zs (c.2) h)

pub find_zone_left :
    (ip : ℕ) (xs ys : List Zone)
    → find_zone ip ys ≡ none
    → find_zone ip (xs ++ ys) ≡ find_zone ip xs
find_zone_left ip [] ys h = h
find_zone_left ip (x ∷ xs) ys h = ground (arith, find_zone_left ip xs ys h)

none-some : (x : Zone) → none ≡ some x → ⊥
none-some x e = absurd (cc)

pub find_zone_right :
    (ip : ℕ) (xs ys : List Zone)
    → find_zone ip xs ≡ none
    → find_zone ip (xs ++ ys) ≡ find_zone ip ys
find_zone_right ip [] ys h = refl
find_zone_right ip (x ∷ xs) ys h = elim (Bool-cases (contains ip x)) [
  | inl hit ↦ absurd (none-some x (sym h ∙ ap (λ b. if b then some x else find_zone ip xs) hit))
  | inr miss ↦
      let either : (zs : List Zone) → find_zone ip (x ∷ zs) ≡ find_zone ip zs =
        λ zs. ap (λ b. if b then some x else find_zone ip zs) miss in
      either (xs ++ ys) ∙ find_zone_right ip xs ys (sym (either xs) ∙ h)
]

-- In a tree whose ranges are in order and apart the search finds the zone that has the address, and
-- none where there is none.
pub rbtree_search-find_zone :
    (ip lo hi : ℕ) (t : Tree)
    → Chain lo hi (in_order t)
    → rbtree_search ip t ≡ find_zone ip (in_order t)
unfolding rbtree_search in_order
rbtree_search-find_zone ip lo hi leaf c = refl
rbtree_search-find_zone ip lo hi (node l z r) c =
    let parts = Chain-split lo hi (in_order l) (in_order r) z c in
    let left = rbtree_search-find_zone ip lo z.start l (parts.0) in
    let right = rbtree_search-find_zone ip z.end hi r (parts.2) in
    let rest : List Zone = z ∷ in_order r in
    elim (Bool-cases (ltb ip z.start)) [
      | inl low ↦
          let none_right =
            find_zone_below ip z.start hi rest (omega arith, parts.1, parts.2) (ground arith) in
          rw (low) (left ∙ sym (find_zone_left ip (in_order l) rest none_right))
      | inr not_low ↦
          let none_left = find_zone_above ip lo z.start (in_order l) (parts.0) (ground arith) in
          let skip = find_zone_right ip (in_order l) rest none_left in
          rw (not_low, skip)
            (elim (Bool-cases (leb z.end ip)) [
              | inl high ↦ rw (high) (right ∙ ground arith)
              | inr not_high ↦ rw (not_high) (ground arith)
            ])
    ]
