-- ===== src/Queue/Run.antt =====
-- equeue.c: any sequence of calls, against the unbounded queue.
use libeasy.Prelude.{
  ℕ, ◌+◌, ◌-◌, ◌*◌, ◌%◌, ◌^◌, ◌<◌, ◌≡◌, ◌≢◌, ◌≤◌, refl, ap, ◌∙◌, false, leb, if◌then◌else◌, Option,
  some, Bool-cases, inl, inr, List, [], ◌∷◌, arith, length, length-append, ℕ_discrete, get_or,
}
use libeasy.Prelude.Fault.{◌>>=◌, get_elem?-eq-get_or}
use libeasy.Queue.{Queue, Alloc, null, full, push, pop, head, is_empty, element_count}
use libeasy.Queue.Fifo
use libeasy.Queue.Fifo.{Call, Reply, pushed, popped, emptiness, counted, is_nil}
use libeasy.Queue.Index.{count_zero, count_pos, count_full}
use libeasy.Queue.Refine.{Holds, count-eq-length, Grants, push-Holds, pop-Held}

-- One call of a client; `realloc` is what the allocator would answer during it.
unfoldable pub step : Queue → Alloc → Call → Option (Reply × Queue)
step s realloc (Call.push x) = push realloc s x >>= λ (done, s'). some (pushed done, s')
step s realloc Call.pop = pop s >>= λ (x, s'). some (popped x, s')
step s realloc Call.is_empty = some (emptiness (is_empty s), s)
step s realloc Call.element_count = element_count s >>= λ n. some (counted n, s)

unfoldable pub run : Queue → List (Alloc × Call) → Option (List Reply)
run s [] = some []
run s ((realloc, c) ∷ cs) = step s realloc c >>= λ (r, s'). run s' cs >>= λ rs. some (r ∷ rs)

-- Every answer of the allocator on the way finds room.
abbrev pub AllGrant : List (Alloc × Call) → Type 0
AllGrant [] = Unit
AllGrant ((realloc, c) ∷ cs) = Grants realloc × AllGrant cs

abbrev pub calls : List (Alloc × Call) → List Call
calls [] = []
calls ((realloc, c) ∷ cs) = c ∷ calls cs

module _ {s : Queue} where
  front_of_nil : Holds s [] → s.front ≡ s.rear
  front_of_nil h = elim (ℕ_discrete s.front s.rear) [
    | yes e ↦ e
    | no ne ↦ absurd (
        omega (
          arith,
          count-eq-length h,
          count_pos s.size s.front s.rear h.held.front_in h.held.rear_in ne,
        ))
  ]

  front_of_cons : {x : ℕ} {xs : List ℕ} → Holds s (x ∷ xs) → s.front ≢ s.rear
  front_of_cons h e =
      omega (
        arith,
        count-eq-length h,
        count_zero s.size s.front s.rear h.held.front_in h.held.rear_in e,
      )

  pop-nil : Holds s [] → pop s ≡ some (null, s)
  unfolding pop
  pop-nil h = ground (arith, front_of_nil h)

  -- `queue_pop` returns the first item, as `queue_head` does, and leaves the others.
  pub pop-cons :
      {x : ℕ} {xs : List ℕ}
      → Holds s (x ∷ xs)
      → (s' : Queue) × (pop s ≡ some (x, s')) × Holds s' xs × (s'.size ≡ s.size) × (head s ≡ some x)
  unfolding head
  pop-cons {x} {xs} h =
      let (e, split, v) = pop-Held h.held (front_of_cons h) in
      let f : ℕ = (s.front + 1) % s.size in
      let both = h.listed ∙ split in
      let first : get_or h.block f 0 ≡ x = cc both in
      (
        record s { front = f },
        e ∙ ap (λ y. some (y, record s { front = f })) first,
        record { block = h.block; held = v; listed = cc both },
        refl,
        rw h.held.block
            (get_elem?-eq-get_or h.block f 0 (rw h.held.long v.front_in) ∙ ap some first),
      )

  is_empty-is_nil : {xs : List ℕ} → Holds s xs → is_empty s ≡ is_nil xs
  unfolding is_empty
  is_empty-is_nil {xs = []} h = ground (arith, front_of_nil h)
  is_empty-is_nil {xs = x ∷ xs} h = ground (arith, front_of_cons h)

  element_count-length :
      {xs : List ℕ} → Holds s xs → s.size ≤ 2 ^ 30 → element_count s ≡ some (length xs)
  unfolding element_count
  element_count-length h small =
      let fits : leb (2 ^ 31) (s.rear + s.size - s.front) ≡ false =
        ground (arith, h.held.front_in, h.held.rear_in) in
      rw fits (ap some (count-eq-length h))

  -- A push of one of fewer than 2 ^ 29 items leaves room for the sum of `queue_element_count`.
  pushed_size :
      {xs : List ℕ} (s' : Queue)
      → Holds s xs
      → s.size ≤ 2 ^ 30
      → length xs + 1 < 2 ^ 29
      → s'.size ≡ (if full s then s.size * 2 else s.size)
      → s'.size ≤ 2 ^ 30
  pushed_size s' h small few e = elim (Bool-cases (full s)) [
    | inl is_full ↦
        let grown : s'.size ≡ s.size * 2 = e ∙ ap (λ b. if b then s.size * 2 else s.size) is_full in
        omega (
          arith,
          grown,
          count-eq-length h,
          count_full s.size s.front s.rear h.held.front_in h.held.rear_in (ground arith),
        )
    | inr room ↦
        let same : s'.size ≡ s.size = e ∙ ap (λ b. if b then s.size * 2 else s.size) room in
        omega (arith, same)
  ]

-- One call keeps to the queue of the items.
step-Holds :
    {s : Queue} {xs : List ℕ} (realloc : Alloc) (c : Call)
    → Grants realloc
    → Holds s xs
    → s.size ≤ 2 ^ 30
    → length xs + 1 < 2 ^ 29
    → let (r, ys) = Fifo.step xs c in
      (s' : Queue) × (step s realloc c ≡ some (r, s'))
      × Holds s' ys
      × (s'.size ≤ 2 ^ 30)
      × (length ys ≤ length xs + 1)
unfolding step Fifo.step
step-Holds {s} {xs} realloc (Call.push x) g h size small =
    let (s', e, h', grown) = push-Holds x g h (omega arith) in
    (s', rw e, h', pushed_size s' h size small grown, omega (arith, length-append xs (x ∷ [])))
step-Holds {s} {xs = []} realloc Call.pop g h size small = (s, rw (pop-nil h), h, size, omega arith)
step-Holds {s} {xs = x ∷ xs} realloc Call.pop g h size small =
    let (s', e, h', same, _) = pop-cons h in (s', rw e, h', rw same size, omega arith)
step-Holds {s} {xs} realloc Call.is_empty g h size small =
    (s, rw (is_empty-is_nil h), h, size, omega arith)
step-Holds {s} {xs} realloc Call.element_count g h size small =
    (s, rw (element_count-length h size), h, size, omega arith)

-- For a valid ring of at most 2 ^ 30 slots, calls that are together with the items in it fewer
-- than 2 ^ 29, and where every `realloc` on the way finds room: nothing faults, and every reply is
-- the one of the unbounded queue of the items.
pub run_refines :
    (cs : List (Alloc × Call)) {s : Queue} {xs : List ℕ}
    → AllGrant cs
    → Holds s xs
    → s.size ≤ 2 ^ 30
    → length xs + length cs < 2 ^ 29
    → run s cs ≡ some (Fifo.run xs (calls cs))
unfolding run Fifo.run
run_refines [] g h size small = refl
run_refines ((realloc, c) ∷ cs) {s} {xs} g h size small =
    let (s', e, h', size', le) = step-Holds realloc c g.0 h size (omega arith) in
    rw (e, run_refines cs g.1 h' size' (omega arith))
