-- ===== src/Queue/Failure.antt =====
-- equeue.c: creation, and what the calls do where the allocator or the caller fails.
use native.Mathlib.Nat.{mod-eq_of_lt}
use libeasy.Prelude.{
  ℕ, ◌*◌, ◌^◌, ◌≤◌, ◌<◌, ◌≡◌, refl, Bool, true, false, none, some, List, [], ◌==◌, ◌||◌,
  if◌then◌else◌, arith, ◌⊎◌, inl, inr, get_or,
}
use libeasy.Prelude.Fault.{get_elem?-eq-get_or}
use libeasy.Prelude.Int.{ℤ, pos, negsuc, ◌≤ℤ◌}
use libeasy.Queue.{
  Queue, Alloc, null, full, init_queue_size, create, create_sized, push, grow, pop, head, capacity,
}
use libeasy.Queue.Index.{count_zero, count_full}
use libeasy.Queue.Refine.{Holds, Grants, lt→leb}

-- The capacity that a request stands for.
abbrev pub requested : ℕ → ℕ
requested n = if n == 0 || n == 1 then init_queue_size else n

create_sized-Holds :
    {alloc : Alloc} (n : ℕ)
    → Grants alloc
    → 2 ≤ n
    → (s : Queue) × (create_sized true alloc n ≡ some s) × Holds s [] × (s.size ≡ n)
unfolding create_sized
create_sized-Holds n g h =
    let (q, e, l) = g n in
    (
      record { q = some q; front = 0; rear = 0; size = n },
      rw e,
      record {
        block = q;
        held = record {
          block = refl;
          long = l;
          two = h;
          front_in = omega arith;
          rear_in = omega arith;
        };
        listed = rw (count_zero n 0 0 (omega arith) (omega arith) refl);
      },
      refl,
    )

-- `queue_create` makes an empty ring of the size asked for, 1024 where that is 0 or 1.
pub create-Holds :
    {alloc : Alloc} (n : ℕ)
    → Grants alloc
    → (s : Queue) × (create true alloc (pos n) ≡ some s) × Holds s [] × (capacity s ≡ requested n)
unfolding create capacity
create-Holds n g = create_sized-Holds (requested n) g (ground arith)

-- `queue_create` gives NULL for a negative size, and where either `malloc` finds no room.
pub create_fails :
    (header : Bool) (alloc : Alloc) (size : ℤ)
    → ((m : ℕ) → alloc m ≡ none) ⊎ (header ≡ false) ⊎ (size ≤ℤ negsuc 0)
    → create header alloc size ≡ none
unfolding create create_sized
create_fails header alloc (negsuc n) h = refl
create_fails false alloc (pos n) h = refl
create_fails true alloc (pos n) h = elim h [
  | inl no_room ↦ rw (no_room (requested n))
  | inr (inl no_header) ↦ cc
  | inr (inr negative) ↦ absurd (omega arith)
]

-- Where `realloc` fails for a full ring, `queue_push` says so, but the block of the ring is lost:
-- the next `queue_pop` or `queue_head` reads through NULL.
pub push_failed :
    {s : Queue} {xs : List ℕ} (realloc : Alloc) (x : ℕ)
    → Holds s xs
    → full s ≡ true
    → s.size < 2 ^ 30
    → realloc s.size ≡ none
    → (s' : Queue) × (push realloc s x ≡ some (false, s'))
      × (s'.size ≡ s.size * 2)
      × (pop s' ≡ none)
      × (head s' ≡ none)
unfolding push grow pop head
push_failed {s} realloc x h is_full small no_room = (
  record s { q = none; size = s.size * 2 },
  rw (is_full, lt→leb s.size small, no_room),
  refl,
  rw still_there,
  refl,
)
  where
    still_there : (s.front == s.rear) ≡ false
    still_there = ground (
      arith,
      count_zero s.size s.front s.rear h.held.front_in h.held.rear_in,
      count_full s.size s.front s.rear h.held.front_in h.held.rear_in,
    )

-- `queue_head` makes no test for an empty ring: on the ring that `queue_create` has just made it
-- gives whatever `malloc` left in the slot behind the first.
pub head_stale :
    (alloc : Alloc) (n : ℕ)
    → Grants alloc
    → (s : Queue) × (block : List ℕ) × (create true alloc (pos n) ≡ some s)
      × (alloc (requested n) ≡ some block)
      × (head s ≡ some (get_or block 1 0))
      × (pop s ≡ some (null, s))
unfolding head create create_sized pop
head_stale alloc n g =
    let m : ℕ = requested n in
    let (q, e, l) = g m in
    let two : 2 ≤ m = ground arith in
    (
      record { q = some q; front = 0; rear = 0; size = m },
      q,
      rw e,
      e,
      rw (mod-eq_of_lt {n = 1} {m = m} (omega arith)) (get_elem?-eq-get_or q 1 0 (omega arith)),
      refl,
    )
