-- ===== src/IpZone/Range.antt =====
-- ip_zone/ip_zone.c: the range of a network is its addresses, but for the last network, which wraps.
use native.Mathlib.Nat.{le-div_iff_mul-le, div-lt_iff_lt-mul, mod-add-div', mod-eq_of_lt, pow-suc}
use libeasy.Prelude.{
  ℕ, zero, suc, ◌+◌, ◌-◌, ◌*◌, ◌/◌, ◌%◌, ◌^◌, ◌≤◌, ◌<◌, ◌≡◌, refl, sym, ap, ap₂, subst, ◌∙◌, Bool,
  if◌then◌else◌, true, false, ◌&&◌, ◌||◌, some, arith, ltb, leb, ◌==◌, ◌↔◌, Bool-cases, inl, inr,
}
use libeasy.Prelude.Fault.{Returns}
use libeasy.IpZone.{Zone, Tree, node, range, rbtree_search}

abbrev pub in_range : ℕ → ℕ × ℕ → Bool
in_range ip (start, end) = leb start ip && ltb ip end

-- The number of addresses of a network.
abbrev pub size : (netmask : ℕ) → ℕ
size netmask = 2 ^ (32 - netmask)

leb_iff : (a b c d : ℕ) → (a ≤ b ↔ c ≤ d) → leb c d ≡ leb a b
leb_iff a b c d h = elim (Bool-cases (leb c d)) [
  | inl k ↦ let l : a ≤ b = h.1 (ground arith) in ground arith
  | inr k ↦ elim (Bool-cases (leb a b)) [
    | inl l ↦ let m : c ≤ d = h.0 (ground arith) in absurd (ground arith)
    | inr l ↦ ground arith
  ]
]

ltb-suc : (a b : ℕ) → ltb a b ≡ leb (suc a) b
ltb-suc a b = ground arith

between : (q k : ℕ) → (leb q k && leb (suc k) (suc q)) ≡ (k == q)
between q k = ground arith

-- The addresses from a multiple of `m` on, `m` of them, are those with its quotient.
pub same_quotient :
    (m address ip : ℕ)
    → 0 < m
    → address % m ≡ 0
    → in_range ip (address, address + m) ≡ (ip / m == address / m)
same_quotient m address ip h aligned =
    let q = address / m in
    let is : q * m ≡ address = omega (arith, mod-add-div' address m) in
    let next : suc q * m ≡ address + m = omega (arith, is) in
    let low : leb (q * m) ip ≡ leb q (ip / m) =
      leb_iff q (ip / m) (q * m) ip (le-div_iff_mul-le h) in
    let high : leb (suc ip) (suc q * m) ≡ leb (suc (ip / m)) (suc q) =
      leb_iff (suc (ip / m)) (suc q) (suc ip) (suc q * m) (div-lt_iff_lt-mul h) in
    ap₂ (λ a b. leb a ip && ltb ip b) (sym is) (sym next)
    ∙ ap₂ (λ b c. b && c) low (ltb-suc ip (suc q * m) ∙ high)
    ∙ between q (ip / m)

pub power_positive : (n : ℕ) → 0 < 2 ^ n
power_positive zero = omega arith
power_positive (suc n) = omega (arith, power_positive n, pow-suc 2 n)

pub range_small :
    (netmask address : ℕ)
    → 2 ≤ netmask
    → netmask ≤ 32
    → range netmask address ≡ some (address, (address + size netmask) % 2 ^ 32)
unfolding range
range_small netmask address low high =
    let one : (netmask == 0) ≡ false = ground arith in
    let two : (ltb netmask 2 || ltb 32 netmask) ≡ false = ground arith in simp (one, two) refl

module _ (netmask address : ℕ) (low : 2 ≤ netmask) (high : netmask ≤ 32)
    (aligned : address % size netmask ≡ 0) where
  -- The range of an aligned network below the last one holds the addresses with the same leading bits,
  -- and no others.
  pub range_network :
      (ip : ℕ)
      → address + size netmask < 2 ^ 32
      → Returns
          (range netmask address)
          (λ r. in_range ip r ≡ (ip / size netmask == address / size netmask))
  range_network ip below =
      subst (λ o. Returns o (λ r. in_range ip r ≡ (ip / size netmask == address / size netmask)))
        (sym (range_small netmask address low high))
        (ap (λ e. in_range ip (address, e)) (mod-eq_of_lt below)
          ∙ same_quotient (size netmask) address ip (power_positive (32 - netmask)) aligned)

  -- The last network of a mask of 2 to 32 bits: the end of its range wraps to zero, and wherever a zone
  -- of that range stands in a tree, the search goes on to its left or right and never answers it.
  pub range_wrapped :
      (ip : ℕ)
      → address + size netmask ≡ 2 ^ 32
      → Returns (range netmask address) (λ r.
        (r ≡ (address, 0))
        × ((z : Zone) (left right : Tree)
            → z.start ≡ r.0
            → z.end ≡ r.1
            → rbtree_search ip (node left z right)
              ≡ (if ltb ip address then rbtree_search ip left else rbtree_search ip right)))
  unfolding rbtree_search
  range_wrapped ip top =
      let wraps : range netmask address ≡ some (address, 0) =
        range_small netmask address low high ∙ ap (λ e. some (address, e % 2 ^ 32)) top in
      rw wraps (
        refl,
        λ z left right start end.
            let low : leb 0 ip ≡ true = ground arith in rw (start, end, low) refl,
      )
