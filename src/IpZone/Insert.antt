-- ===== src/IpZone/Insert.antt =====
-- ip_zone/ip_zone.c: inserting a range that overlaps no other.
use libeasy.Prelude.{
  ℕ, ◌≤◌, ◌<◌, ◌≡◌, refl, sym, ap, subst, ◌∙◌, ◌⊎◌, true, false, Option, none, some, List, [], ◌∷◌,
  ◌++◌, arith, if◌then◌else◌, ltb, leb, ltb→lt, Bool-cases, inl, inr,
}
use libeasy.Prelude.Fault.{Returns, Returns-bind}
use libeasy.IpZone.{
  Zone, Tree, leaf, node, rbtree_search, in_order, in_left, in_right, place, rbtree_insert,
}
use libeasy.IpZone.Order.{
  contains, find_zone, Chain, Chain-split, Chain_bounds, rbtree_search-find_zone,
}

-- A list of zones with one more, before the first that starts behind it.
abbrev pub with_zone : Zone → List Zone → List Zone
with_zone d [] = d ∷ []
with_zone d (z ∷ zs) = if ltb d.start z.start then d ∷ z ∷ zs else z ∷ with_zone d zs

-- The zone overlaps none of the others.
abbrev pub ApartFrom : Zone → List Zone → Type 0
ApartFrom d [] = Unit
ApartFrom d (z ∷ zs) = ((d.end ≤ z.start) ⊎ (z.end ≤ d.start)) × ApartFrom d zs

ApartFrom-split :
    (d : Zone) (xs ys : List Zone) → ApartFrom d (xs ++ ys) → ApartFrom d xs × ApartFrom d ys
ApartFrom-split d [] ys a = (tt, a)
ApartFrom-split d (x ∷ xs) ys a =
    let more = ApartFrom-split d xs ys (a.1) in ((a.0, more.0), more.1)

with_zone-left :
    (d z : Zone) (xs ys : List Zone)
    → d.start < z.start
    → with_zone d (xs ++ z ∷ ys) ≡ with_zone d xs ++ z ∷ ys
with_zone-left d z [] ys h = ground arith
with_zone-left d z (x ∷ xs) ys h = ground (arith, with_zone-left d z xs ys h)

with_zone-right :
    (d z : Zone) (lo : ℕ) (xs ys : List Zone)
    → Chain lo z.start xs
    → z.start ≤ d.start
    → with_zone d (xs ++ z ∷ ys) ≡ xs ++ z ∷ with_zone d ys
with_zone-right d z lo [] ys c h = ground arith
with_zone-right d z lo (x ∷ xs) ys c h =
    let b = Chain_bounds x.end z.start xs (c.2) in
    ground (arith, with_zone-right d z x.end xs ys (c.2) h, c.1)

in_left-in_order :
    (z : Zone) (r : Tree) (m : Option Tree) (xs : List Zone)
    → Returns m (λ u. in_order u ≡ xs)
    → Returns (in_left z r m) (λ u. in_order u ≡ xs ++ z ∷ in_order r)
unfolding in_order
in_left-in_order z r none xs k = k
in_left-in_order z r (some u) xs k = ap (λ ys. ys ++ z ∷ in_order r) k

in_right-in_order :
    (l : Tree) (z : Zone) (m : Option Tree) (xs : List Zone)
    → Returns m (λ u. in_order u ≡ xs)
    → Returns (in_right l z m) (λ u. in_order u ≡ in_order l ++ z ∷ xs)
unfolding in_order
in_right-in_order l z none xs k = k
in_right-in_order l z (some u) xs k = ap (λ ys. in_order l ++ z ∷ ys) k

module _ (d : Zone) (some_address : d.start < d.end) where
  pub place-in_order :
      (lo hi : ℕ) (t : Tree)
      → Chain lo hi (in_order t)
      → ApartFrom d (in_order t)
      → Returns (place d t) (λ u. in_order u ≡ with_zone d (in_order t))
  unfolding place in_order
  place-in_order lo hi leaf c a = refl
  place-in_order lo hi (node l z r) c a =
      let parts = Chain-split lo hi (in_order l) (in_order r) z c in
      let apart = ApartFrom-split d (in_order l) (z ∷ in_order r) a in
      elim (Bool-cases (ltb d.start z.start)) [
        | inl low ↦
            let moved = with_zone-left d z (in_order l) (in_order r) (ground arith) in
            rw (low, moved)
              (in_left-in_order z r (place d l) (with_zone d (in_order l))
                (place-in_order lo z.start l (parts.0) (apart.0)))
        | inr not_low ↦
            let moved = with_zone-right d z lo (in_order l) (in_order r) (parts.0) (ground arith) in
            let behind : leb z.end d.end ≡ true = elim (apart.1.0) [
              | inl k ↦ absurd (ground arith)
              | inr k ↦ ground arith
            ] in
            rw (not_low, behind, moved)
              (in_right-in_order l z (place d r) (with_zone d (in_order r))
                (place-in_order z.end hi r (parts.2) (apart.1.1)))
      ]

  -- The ranges are in order again.
  pub with_zone-Chain :
      (lo hi : ℕ) (zs : List Zone)
      → Chain lo hi zs
      → ApartFrom d zs
      → lo ≤ d.start
      → d.end ≤ hi
      → Chain lo hi (with_zone d zs)
  with_zone-Chain lo hi [] c a l h = (l, some_address, h)
  with_zone-Chain lo hi (z ∷ zs) c a l h = elim (Bool-cases (ltb d.start z.start)) [
    | inl low ↦ rw (low) (
      l,
      some_address,
      (
        elim (a.0) [ inl k ↦ k | inr k ↦ absurd (omega (arith, c.1, ltb→lt d.start z.start low)) ],
        c.1,
        c.2,
      ),
    )
    | inr not_low ↦ rw (not_low) (
      c.0,
      c.1,
      with_zone-Chain z.end hi zs (c.2) (a.1)
          (elim (a.0) [ inl k ↦ absurd (ground arith) | inr k ↦ k ]) h,
    )
  ]

  pub with_zone-find_zone :
      (ip lo hi : ℕ) (zs : List Zone)
      → Chain lo hi zs
      → ApartFrom d zs
      → find_zone ip (with_zone d zs) ≡ (if contains ip d then some d else find_zone ip zs)
  with_zone-find_zone ip lo hi [] c a = refl
  with_zone-find_zone ip lo hi (z ∷ zs) c a = elim (Bool-cases (ltb d.start z.start)) [
    | inl low ↦ rw (low) refl
    | inr not_low ↦ rw (not_low) (
        let more = with_zone-find_zone ip z.end hi zs (c.2) (a.1) in
        rw (more) (elim (Bool-cases (contains ip d)) [
          | inl hit ↦
              let other : contains ip z ≡ false = elim (a.0) [
                | inl k ↦ ground arith
                | inr k ↦ ground arith
              ] in
              rw (hit, other) refl
          | inr miss ↦ rw (miss) refl
        ]))
  ]

  -- Inserting a range that overlaps no other makes every address of it lead to it, and leaves what the
  -- other addresses lead to. What is relied on of the tree's library is that it keeps the order.
  pub rbtree_insert-rbtree_search :
      (rebalance : Tree → Tree) (ip lo hi : ℕ) (t : Tree)
      → ((u : Tree) → in_order (rebalance u) ≡ in_order u)
      → Chain lo hi (in_order t)
      → ApartFrom d (in_order t)
      → lo ≤ d.start
      → d.end ≤ hi
      → Returns (rbtree_insert rebalance d t) (λ u.
        Chain lo hi (in_order u)
        × (rbtree_search ip u ≡ (if contains ip d then some d else rbtree_search ip t)))
  unfolding rbtree_insert
  rbtree_insert-rbtree_search rebalance ip lo hi t keeps c a l h =
      Returns-bind (place d t) (λ u. some (rebalance u))
        (λ u. in_order u ≡ with_zone d (in_order t))
        (λ u.
          Chain lo hi (in_order u)
          × (rbtree_search ip u ≡ (if contains ip d then some d else rbtree_search ip t)))
        (place-in_order lo hi t c a)
        (λ u e.
          let now = keeps u ∙ e in
          let chain = subst (Chain lo hi) (sym now) (with_zone-Chain lo hi (in_order t) c a l h) in
          (
            chain,
            rbtree_search-find_zone ip lo hi (rebalance u) chain
                ∙ ap (find_zone ip) now
                ∙ with_zone-find_zone ip lo hi (in_order t) c a
                ∙ ap (λ o. if contains ip d then some d else o)
                    (sym (rbtree_search-find_zone ip lo hi t c)),
          ))
