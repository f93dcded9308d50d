-- ===== src/IpZone/Lines.antt =====
-- ip_zone/ip_zone.c: a line makes the addresses of its network lead to its zone.
use native.Mathlib.Nat.{mod-eq_of_lt}
use libeasy.Prelude.{
  ℕ, ◌+◌, ◌-◌, ◌/◌, ◌%◌, ◌^◌, ◌≤◌, ◌<◌, ◌≡◌, refl, sym, ap, ap₂, subst, ◌∙◌, Bool, true, false,
  Option, none, some, List, [], ◌∷◌, ◌++◌, arith, if◌then◌else◌, ltb, ◌==◌, length, take,
}
use libeasy.Prelude.Fault.{Returns, ◌>>=◌}
use libeasy.Prelude.Maps.{has}
use libeasy.IpZone.{
  Zone, Zones, Tree, Host, find_mark, find_slash, cut_name, atoi, range, max_subnet_size,
  max_zone_name_size, or_same, insert_zone, add_range, add_network, add_marked, ip_zones_add,
  ip_zones_find, name_of, rbtree_search, rbtree_insert, in_order,
}
use libeasy.IpZone.Order.{contains, Chain}
use libeasy.IpZone.Insert.{ApartFrom, rbtree_insert-rbtree_search}
use libeasy.IpZone.Range.{size, range_small, same_quotient, power_positive}

find_mark-mark :
    (subnet name : List ℕ)
    → has b';' subnet ≡ false
    → find_mark (subnet ++ b';' ∷ b'|' ∷ name) ≡ some (subnet, name)
unfolding find_mark
find_mark-mark [] name h = refl
find_mark-mark (c ∷ []) name h = ground arith
find_mark-mark (c ∷ d ∷ cs) name h =
    let more = find_mark-mark (d ∷ cs) name (ground arith) in
    let no : (c == b';') ≡ false = ground arith in simp (no, more) refl

find_slash-slash :
    (ip mask : List ℕ) → has b'/' ip ≡ false → find_slash (ip ++ b'/' ∷ mask) ≡ some (ip, mask)
unfolding find_slash
find_slash-slash [] mask h = refl
find_slash-slash (c ∷ cs) mask h =
    let more = find_slash-slash cs mask (ground arith) in
    let no : (c == b'/') ≡ false = ground arith in simp (no, more) refl

or_same-Returns : (P : Tree → Type 0) (t : Tree) (m : Option Tree) → Returns m P → P (or_same t m)
or_same-Returns P t none r = absurd r
or_same-Returns P t (some u) r = r

name_of-if :
    (b : Bool) (z : Zone) (o : Option Zone)
    → name_of (if b then some z else o) ≡ (if b then some z.zone_name else name_of o)
name_of-if true z o = refl
name_of-if false z o = refl

module _ (h : Host) (ip mask name : List ℕ) (n : ℕ) (zs : Zones) where
  abbrev pub subnet : List ℕ
  subnet = ip ++ b'/' ∷ mask

  abbrev pub line : List ℕ
  line = subnet ++ b';' ∷ b'|' ∷ name

  abbrev pub network_zone : Zone
  network_zone = record {
    start = h.address ip;
    end = h.address ip + size n;
    netmask = n;
    subnet = subnet;
    zone_name = take (max_zone_name_size - 1) name;
  }

  -- The line is the address and the mask of a network below the last one, which overlaps no zone read
  -- before, and a name without a space.
  pub record IsLine : Type 0 where
    pub no_mark : has b';' subnet ≡ false
    pub no_slash : has b'/' ip ≡ false
    pub short : length subnet ≤ max_subnet_size
    pub named : cut_name name ≡ name
    pub mask_is : atoi mask ≡ some n
    pub low : 2 ≤ n
    pub high : n ≤ 32
    pub aligned : h.address ip % size n ≡ 0
    pub below : h.address ip + size n < 2 ^ 32
    pub apart : ApartFrom network_zone (in_order zs.tree)

  added : IsLine → ip_zones_add h true line zs ≡ some (true, insert_zone h network_zone zs)
  unfolding ip_zones_add
  added i =
      let fits : ltb max_subnet_size (length subnet) ≡ false = ground (arith, i.short) in
      ap (add_marked h zs) (find_mark-mark subnet name i.no_mark)
      ∙ ap (λ b. if b then none else add_network h subnet (cut_name name) zs (find_slash subnet))
          fits
      ∙ ap₂ (λ c o. add_network h subnet c zs o) i.named (find_slash-slash ip mask i.no_slash)
      ∙ ap (λ o. o >>= λ m. range m (h.address ip) >>= add_range h subnet name m zs) i.mask_is
      ∙ ap (λ o. o >>= add_range h subnet name n zs)
          (range_small n (h.address ip) i.low i.high
            ∙ ap (λ e. some (h.address ip, e)) (mod-eq_of_lt i.below))

  find_insert :
      IsLine
      → ((u : Tree) → in_order (h.rebalance u) ≡ in_order u)
      → Chain 0 (2 ^ 32) (in_order zs.tree)
      → (q : List ℕ)
      → Chain 0 (2 ^ 32) (in_order (insert_zone h network_zone zs).tree)
        × (ip_zones_find h (insert_zone h network_zone zs) q ≡ (
            if h.address q / size n == h.address ip / size n
            then some (take (max_zone_name_size - 1) name)
            else ip_zones_find h zs q))
  unfolding ip_zones_find
  find_insert i keeps c q =
      let goal : Tree → Type 0 = λ u.
        Chain 0 (2 ^ 32) (in_order u)
        × (rbtree_search (h.address q) u ≡ (
            if contains (h.address q) network_zone
            then some network_zone
            else rbtree_search (h.address q) zs.tree)) in
      let r = or_same-Returns goal zs.tree (rbtree_insert h.rebalance network_zone zs.tree) (
        rbtree_insert-rbtree_search network_zone (omega (arith, power_positive (32 - n)))
          h.rebalance (h.address q) 0 (2 ^ 32) zs.tree keeps c i.apart (omega arith)
          (omega (arith, i.below))) in
      (
        r.0,
        ap name_of (r.1)
            ∙ name_of-if (contains (h.address q) network_zone) network_zone
                (rbtree_search (h.address q) zs.tree)
            ∙ ap
                (λ b. if b then some (take (max_zone_name_size - 1) name) else ip_zones_find h zs q)
                (same_quotient (size n) (h.address ip) (h.address q) (power_positive (32 - n))
                  i.aligned),
      )

  -- All addresses of the network lead to the first 63 bytes of the name, and the others to what they
  -- led to before.
  pub record Learned (q : List ℕ) (r : Bool × Zones) : Type 0 where
    pub answer : r.0 ≡ true
    pub in_chain : Chain 0 (2 ^ 32) (in_order (r.1).tree)
    pub found : ip_zones_find h (r.1) q ≡ (
        if h.address q / size n == h.address ip / size n
        then some (take (max_zone_name_size - 1) name)
        else ip_zones_find h zs q)

  -- A line that is the address and the mask of a network below the last one, which overlaps no zone
  -- read before, and a name makes all addresses of the network lead to the first 63 bytes of the name,
  -- and leaves what the other addresses lead to. The tree's library is to keep the order.
  pub ip_zones_add-ip_zones_find :
      (q : List ℕ)
      → IsLine
      → ((u : Tree) → in_order (h.rebalance u) ≡ in_order u)
      → Chain 0 (2 ^ 32) (in_order zs.tree)
      → Returns (ip_zones_add h true line zs) (Learned q)
  ip_zones_add-ip_zones_find q i keeps c =
      let k = find_insert i keeps c q in
      subst (λ o. Returns o (Learned q)) (sym (added i))
        (record { answer = refl; in_chain = k.0; found = k.1 })
