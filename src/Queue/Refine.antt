-- ===== src/Queue/Refine.antt =====
-- equeue.c: a valid ring behaves as the unbounded queue of the items that it holds.
use native.Mathlib.Nat.{mod-lt}
use libeasy.Prelude.{
  ℕ, suc, ◌+◌, ◌-◌, ◌*◌, ◌%◌, ◌^◌, ◌≤◌, ◌<◌, ◌≡◌, refl, sym, subst, ◌≢◌, ap₂, ap, ◌∙◌, true, false,
  if◌then◌else◌, some, List, [], ◌∷◌, ◌++◌, ◌==◌, arith, length, get_or, set, length-set,
  Bool-cases, inl, inr, leb,
}
use libeasy.Prelude.Fault.{store-set, get_elem?-eq-get_or, get_or-set_self, get_or-set_ne}
use libeasy.Queue.{Queue, Alloc, full, grow, tidy, append, push, pop}
use libeasy.Queue.Growth.{items, items_ext, items-suc, length-items, Doubled, doubled, tidy-Doubled}
use libeasy.Queue.Index.{
  rear-push, count_bound, count-push, count-pop, count_full, room_doubled, count_doubled, apart,
  step_reduced,
}

pub lt→leb : (n : ℕ) → n < 2 ^ 30 → leb (2 ^ 30) n ≡ false
lt→leb n h = ground arith

abbrev pub count : Queue → ℕ
count s = (s.rear + s.size - s.front) % s.size

-- The ring `s` stands in the block `q`.
pub record Held (s : Queue) (q : List ℕ) : Type 0 where
  pub block : s.q ≡ some q
  pub long : length q ≡ s.size
  pub two : 2 ≤ s.size
  pub front_in : s.front < s.size
  pub rear_in : s.rear < s.size

-- The ring `s` holds the items `xs`, oldest first.
pub record Holds (s : Queue) (xs : List ℕ) : Type 0 where
  pub block : List ℕ
  pub held : Held s block
  pub listed : xs ≡ items block s.size (s.front + 1) (count s)

pub count-eq-length : {s : Queue} {xs : List ℕ} → Holds s xs → count s ≡ length xs
count-eq-length {s} h =
    sym (ap length h.listed ∙ length-items h.block s.size (s.front + 1) (count s))

module _ {s : Queue} {q : List ℕ} (v : Held s q) where
  not_full : full s ≡ false → (s.rear + 1) % s.size ≢ s.front
  not_full h = ground arith

  index_lt : (s.rear + 1) % s.size < s.size
  index_lt = mod-lt (s.rear + 1) (omega arith)

  -- Storing behind the rear adds the item at the far end.
  items-set :
      (x : ℕ)
      → full s ≡ false
      → items (set q ((s.rear + 1) % s.size) x) s.size (s.front + 1) (suc (count s))
        ≡ items q s.size (s.front + 1) (count s) ++ x ∷ []
  items-set x room =
      let rear : ℕ = (s.rear + 1) % s.size in
      let n : ℕ = count s in
      let far = rear-push s.size s.front s.rear v.front_in v.rear_in in
      let fits = count_bound s.size s.front s.rear v.front_in v.rear_in (not_full room) in
      items-suc (set q rear x) s.size (s.front + 1) n
      ∙ ap₂ (λ xs y. xs ++ y ∷ [])
          (items_ext (set q rear x) q s.size s.size (s.front + 1) (s.front + 1) n λ k h.
            get_or-set_ne q rear ((s.front + 1 + k) % s.size) x 0
              λ e. apart s.size (s.front + 1) k n (omega arith) h (omega arith) (sym e ∙ far))
          (rw (← far) (get_or-set_self q rear x 0 (rw v.long index_lt)))

  append-Holds :
      (x : ℕ)
      → full s ≡ false
      → (s' : Queue) × (append s x ≡ some (true, s'))
        × Holds s' (items q s.size (s.front + 1) (count s) ++ x ∷ [])
        × (s'.size ≡ s.size)
  unfolding append
  append-Holds x room =
      let rear : ℕ = (s.rear + 1) % s.size in
      let lt : rear < s.size = index_lt in
      (
        record s { q = some (set q rear x); rear = rear },
        rw (v.block, store-set q rear x (omega arith)),
        record {
          block = set q rear x;
          held = record {
            block = refl;
            long = length-set q rear x ∙ v.long;
            two = v.two;
            front_in = v.front_in;
            rear_in = lt;
          };
          listed =
              rw (count-push s.size s.front s.rear v.front_in v.rear_in (not_full room))
                (sym (items-set x room));
        },
        refl,
      )

-- A `realloc` that finds room answers as many slots as were asked for.
abbrev pub Grants : Alloc → Type 0
Grants realloc = (n : ℕ) → (extra : List ℕ) × (realloc n ≡ some extra) × (length extra ≡ n)

-- The doubled ring is valid, has room, and holds the same items.
doubled-Held :
    {s : Queue} {q q' : List ℕ} {rear : ℕ}
    → Held s q
    → Doubled s q (count s) q' rear
    → Held (doubled s q' rear) q'
      × (full (doubled s q' rear) ≡ false)
      × (count (doubled s q' rear) ≡ count s)
doubled-Held {s} v d =
    let lt : count s < s.size = mod-lt (s.rear + s.size - s.front) (omega arith) in
    let room = room_doubled s.size s.front (count s) v.front_in lt in
    let same = count_doubled s.size s.front (count s) v.front_in lt in
    (
      record {
        block = refl;
        long = d.long;
        two = omega arith;
        front_in = omega arith;
        rear_in = omega (arith, d.last);
      },
      rw d.last (ground arith),
      rw d.last same,
    )

grow-granted :
    (realloc : Alloc) (s s' : Queue) (q extra : List ℕ)
    → s.size < 2 ^ 30
    → s.q ≡ some q
    → realloc s.size ≡ some extra
    → tidy s (q ++ extra) ≡ some s'
    → grow realloc s ≡ some (true, s')
unfolding grow
grow-granted realloc s s' q extra small b e t = rw (lt→leb s.size small, e, b, t)

grow-Held :
    {s : Queue} {q : List ℕ} {realloc : Alloc}
    → Grants realloc
    → Held s q
    → s.size < 2 ^ 30
    → (q' : List ℕ) × (rear : ℕ) × (grow realloc s ≡ some (true, doubled s q' rear))
      × Doubled s q (count s) q' rear
grow-Held {s} {q} {realloc} g v small =
    let (extra, e, le) = g s.size in
    let (q', rear, t, d) = tidy-Doubled s q extra (count s) v.long le v.front_in v.rear_in refl in
    (q', rear, grow-granted realloc s (doubled s q' rear) q extra small v.block e t, d)

push-Held :
    {s : Queue} {q : List ℕ} {realloc : Alloc} (x : ℕ)
    → Grants realloc
    → Held s q
    → count s + 1 < 2 ^ 30
    → (s' : Queue) × (push realloc s x ≡ some (true, s'))
      × Holds s' (items q s.size (s.front + 1) (count s) ++ x ∷ [])
      × (s'.size ≡ (if full s then s.size * 2 else s.size))
unfolding push
push-Held {s} {q} x g v small = elim (Bool-cases (full s)) [
  | inl is_full ↦
      let (q', rear, e, d) =
        grow-Held g v
          (omega (arith, count_full s.size s.front s.rear v.front_in v.rear_in (ground arith))) in
      let (v', room, same) = doubled-Held v d in
      let (s', e', h, size) = append-Holds v' x room in
      (
        s',
        rw (is_full, e) e',
        subst (λ xs. Holds s' (xs ++ x ∷ []))
            (ap (items q' (s.size * 2) (s.front + 1)) same ∙ d.same) h,
        rw is_full size,
      )
  | inr room ↦ let (s', e, h, size) = append-Holds v x room in (s', rw room e, h, rw room size)
]

-- On a valid ring of fewer than 2 ^ 30 - 1 items, and where `realloc` finds room: `queue_push`
-- succeeds, leaves a valid ring with the item last, and doubles its slots just where it was full.
pub push-Holds :
    {s : Queue} {xs : List ℕ} {realloc : Alloc} (x : ℕ)
    → Grants realloc
    → Holds s xs
    → length xs + 1 < 2 ^ 30
    → (s' : Queue) × (push realloc s x ≡ some (true, s'))
      × Holds s' (xs ++ x ∷ [])
      × (s'.size ≡ (if full s then s.size * 2 else s.size))
push-Holds {s} x g h small =
    let (s', e, h', size) = push-Held x g h.held (omega (arith, count-eq-length h)) in
    (s', e, subst (λ ys. Holds s' (ys ++ x ∷ [])) (sym h.listed) h', size)

-- The ring without its first item.
pub pop-Held :
    {s : Queue} {q : List ℕ}
    → Held s q
    → s.front ≢ s.rear
    → let front = (s.front + 1) % s.size in
      (pop s ≡ some (get_or q front 0, record s { front = front }))
      × (items q s.size (s.front + 1) (count s)
          ≡ get_or q front 0 ∷ items q s.size (front + 1) (count (record s { front = front })))
      × Held (record s { front = front }) q
unfolding pop
pop-Held {s} {q} v ne =
    let front : ℕ = (s.front + 1) % s.size in
    let lt : front < s.size = mod-lt (s.front + 1) (omega arith) in
    let some_left : (s.front == s.rear) ≡ false = ground arith in
    (
      rw (some_left, v.block, get_elem?-eq-get_or q front 0 (rw v.long lt)),
      rw (count-pop s.size s.front s.rear v.front_in v.rear_in ne) (
          ap (λ ys. get_or q front 0 ∷ ys)
            (items_ext q q s.size s.size (s.front + 1 + 1) (front + 1)
              (count (record s { front = front }))
              λ k h. ap (λ i. get_or q i 0) (step_reduced s.size (s.front + 1) k))),
      record { block = v.block; long = v.long; two = v.two; front_in = lt; rear_in = v.rear_in },
    )
