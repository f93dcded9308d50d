-- ===== src/Queue/Growth.antt =====
-- equeue.c: the items of a ring, and the copy that keeps them when the ring doubles.
use native.Mathlib.Nat.{mod-eq_of_lt, add-zero}
use libeasy.Prelude.{
  ℕ, zero, suc, ◌+◌, ◌-◌, ◌*◌, ◌%◌, ◌≤◌, ◌<◌, ◌≡◌, refl, ap₂, ap, ◌∙◌, some, List, [], ◌∷◌, ◌++◌,
  arith, length, length-append, dec_lt, get_or, set, length-set, ℕ_discrete, Bool-cases, inl, inr,
  ltb,
}
use libeasy.Prelude.Fault.{store-set, get_elem?-eq-get_or, get_or-set_self, get_or-set_ne}
use libeasy.Queue.{Queue, move, tidy}

-- The `n` items from position `p` on; positions are counted round the ring.
abbrev pub items : List ℕ → (size p n : ℕ) → List ℕ
items q size p zero = []
items q size p (suc n) = get_or q (p % size) 0 ∷ items q size (p + 1) n

pub length-items : (q : List ℕ) (size p n : ℕ) → length (items q size p n) ≡ n
length-items q size p zero = refl
length-items q size p (suc n) = ap suc (length-items q size (p + 1) n)

pub add_one_left : (p k : ℕ) → p + 1 + k ≡ p + suc k
add_one_left p k = omega arith

-- Two rings that agree position by position hold the same items.
pub items_ext :
    (q q' : List ℕ) (size size' p p' n : ℕ)
    → ((k : ℕ) → k < n → get_or q ((p + k) % size) 0 ≡ get_or q' ((p' + k) % size') 0)
    → items q size p n ≡ items q' size' p' n
items_ext q q' size size' p p' zero same = refl
items_ext q q' size size' p p' (suc n) same = ap₂ ◌∷◌ (simp add-zero at (same 0 (omega arith))) (
    items_ext q q' size size' (p + 1) (p' + 1) n
      λ k h. rw (add_one_left p k, add_one_left p' k) (same (suc k) (omega arith)))

-- One more item at the far end.
pub items-suc :
    (q : List ℕ) (size p n : ℕ)
    → items q size p (suc n) ≡ items q size p n ++ get_or q ((p + n) % size) 0 ∷ []
items-suc q size p zero = rw add-zero
items-suc q size p (suc n) =
    ap (λ xs. get_or q (p % size) 0 ∷ xs) (items-suc q size (p + 1) n ∙ rw (add_one_left p n))

pub get_or-append_lt :
    (xs ys : List ℕ) (i d : ℕ) → i < length xs → get_or (xs ++ ys) i d ≡ get_or xs i d
get_or-append_lt [] ys i d h = absurd (omega arith)
get_or-append_lt (x ∷ xs) ys zero d h = refl
get_or-append_lt (x ∷ xs) ys (suc i) d h = get_or-append_lt xs ys i d (omega arith)

-- The loop never leaves the block, keeps its length, fills `org_size + i` from `i` on, and
-- changes nothing below `org_size`.
pub record Moved (rounds i org_size : ℕ) (q q' : List ℕ) : Type 0 where
  pub same_length : length q' ≡ length q
  pub kept : (j : ℕ) → j < org_size + i → get_or q' j 0 ≡ get_or q j 0
  pub copied : (j : ℕ) → i ≤ j → j < i + rounds → get_or q' (org_size + j) 0 ≡ get_or q j 0

pub move-Moved :
    (rounds i org_size : ℕ) (q : List ℕ)
    → i + rounds ≤ org_size
    → org_size + i + rounds ≤ length q
    → (q' : List ℕ) × (move rounds i org_size q ≡ some q') × Moved rounds i org_size q q'
unfolding move
move-Moved zero i org_size q h room = (
  q,
  refl,
  record { same_length = refl; kept = λ j h. refl; copied = λ j lo hi. absurd (omega arith) },
)
move-Moved (suc k) i org_size q h room =
    let v : ℕ = get_or q i 0 in
    let q1 : List ℕ = set q (org_size + i) v in
    let (q', e, m) =
      move-Moved k (i + 1) org_size q1 (omega arith)
        (omega (arith, length-set q (org_size + i) v)) in
    (
      q',
      rw (get_elem?-eq-get_or q i 0 (omega arith), store-set q (org_size + i) v (omega arith)) e,
      record {
        same_length = m.same_length ∙ length-set q (org_size + i) v;
        kept = λ j lt. m.kept j (omega arith) ∙ get_or-set_ne q (org_size + i) j v 0 (omega arith);
        copied = λ j lo hi. elim (ℕ_discrete i j) [
          | yes e ↦ rw (← e) (
              m.kept (org_size + i) (omega arith)
              ∙ get_or-set_self q (org_size + i) v 0 (omega arith))
          | no ne ↦
              m.copied j (omega arith) (omega arith)
              ∙ get_or-set_ne q (org_size + i) j v 0 (omega arith)
        ];
      },
    )

-- The number of items, where they do not go round the end and where they do.
pub count_straight :
    (size front rear : ℕ) → front ≤ rear → rear < size → (rear + size - front) % size ≡ rear - front
count_straight size front rear h hr = grind arith

pub count_wrapped :
    (size front rear : ℕ)
    → rear < front
    → front < size
    → (rear + size - front) % size ≡ rear + size - front
count_wrapped size front rear h hf = mod-eq_of_lt (omega arith)

-- A block of twice the size holds the same items, if the old slots are kept and those that the
-- items need beyond them are copies of the first ones.
items_doubled :
    (q q' : List ℕ) (size front n : ℕ)
    → front + n < size * 2
    → ((j : ℕ) → j < size → get_or q' j 0 ≡ get_or q j 0)
    → ((j : ℕ) → size + j < front + 1 + n → get_or q' (size + j) 0 ≡ get_or q j 0)
    → items q' (size * 2) (front + 1) n ≡ items q size (front + 1) n
items_doubled q q' size front n small kept copied =
    items_ext q' q (size * 2) size (front + 1) (front + 1) n λ k h.
      elim (dec_lt (front + 1 + k) size) [
        | yes lt ↦
            rw (mod-eq_of_lt {n = front + 1 + k} {m = size * 2} (omega arith), mod-eq_of_lt lt)
              (kept (front + 1 + k) lt)
        | no ge ↦
            let j : ℕ = front + 1 + k - size in
            let split : front + 1 + k ≡ size + j = omega arith in
            let low : (front + 1 + k) % size ≡ j = grind arith in
            rw (mod-eq_of_lt {n = front + 1 + k} {m = size * 2} (omega arith), low)
              (ap (λ t. get_or q' t 0) split ∙ copied j (omega arith))
      ]

-- What doubling leaves: a block of twice the size with the items in place.
pub record Doubled (s : Queue) (q : List ℕ) (n : ℕ) (q' : List ℕ) (rear : ℕ) : Type 0 where
  pub long : length q' ≡ s.size * 2
  pub last : rear ≡ s.front + n
  pub same : items q' (s.size * 2) (s.front + 1) n ≡ items q s.size (s.front + 1) n

abbrev pub doubled : Queue → List ℕ → ℕ → Queue
doubled s q' rear = record { q = some q'; front = s.front; rear = rear; size = s.size * 2 }

module _ (s : Queue) (q extra : List ℕ) (n : ℕ) (lq : length q ≡ s.size)
    (le : length extra ≡ s.size) (hf : s.front < s.size) (hr : s.rear < s.size)
    (hn : n ≡ (s.rear + s.size - s.front) % s.size) where
  kept_slots : (j : ℕ) → j < s.size → get_or (q ++ extra) j 0 ≡ get_or q j 0
  kept_slots j h = get_or-append_lt q extra j 0 (omega arith)

  straight-Doubled : s.front ≤ s.rear → Doubled s q n (q ++ extra) s.rear
  straight-Doubled h =
      let e = hn ∙ count_straight s.size s.front s.rear h hr in
      record {
        long = omega (arith, length-append q extra);
        last = omega arith;
        same =
            items_doubled q (q ++ extra) s.size s.front n (omega arith) kept_slots
              (λ j lt. absurd (omega arith));
      }

  wrapped-Doubled :
      (q' : List ℕ)
      → s.rear < s.front
      → Moved (s.rear + 1) 0 s.size (q ++ extra) q'
      → Doubled s q n q' (s.size + s.rear)
  wrapped-Doubled q' h m =
      let e = hn ∙ count_wrapped s.size s.front s.rear h hf in
      record {
        long = omega (arith, m.same_length, length-append q extra);
        last = omega arith;
        same =
            items_doubled q q' s.size s.front n (omega arith)
              (λ j lt. m.kept j (omega arith) ∙ kept_slots j lt)
              (λ j lt. m.copied j (omega arith) (omega arith) ∙ kept_slots j (omega arith));
      }

  -- Whatever `realloc` puts behind the old slots, the items stay.
  pub tidy-Doubled :
      (q' : List ℕ) × (rear : ℕ) × (tidy s (q ++ extra) ≡ some (doubled s q' rear))
      × Doubled s q n q' rear
  unfolding tidy
  tidy-Doubled = elim (Bool-cases (ltb s.rear s.front)) [
    | inl lt ↦
        let (q', e, m) =
          move-Moved (s.rear + 1) 0 s.size (q ++ extra) (omega arith)
            (omega (arith, length-append q extra)) in
        (q', s.size + s.rear, rw (lt, e), wrapped-Doubled q' (ground arith) m)
    | inr ge ↦ (q ++ extra, s.rear, rw ge, straight-Doubled (ground arith))
  ]
