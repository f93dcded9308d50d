-- ===== src/Queue.antt =====
-- equeue.c: a ring of pointers that doubles when it is full.
mod Index
mod Growth
pub mod Fifo
pub mod Refine
pub mod Run
pub mod Failure
mod Tests
use libeasy.Prelude.{
  ℕ, zero, suc, ◌+◌, ◌-◌, ◌*◌, ◌%◌, ◌^◌, Bool, true, false, Option, none, some, List, [], ◌∷◌, ◌++◌,
  ltb, leb, ◌==◌, ◌||◌, if◌then◌else◌, get_elem?,
}
use libeasy.Prelude.Fault.{◌>>=◌, store}
use libeasy.Prelude.Int.{ℤ, pos, negsuc}

-- `queue_t`. A node is a `void *`, of which only the value counts, and `null` is 0.
-- `q` is `none` where the pointer is NULL. The lock makes each operation one step.
pub record Queue : Type 0 where
  pub q : Option (List ℕ)
  pub front : ℕ
  pub rear : ℕ
  pub size : ℕ

abbrev pub null : ℕ
null = 0

abbrev pub init_queue_size : ℕ
init_queue_size = 1024

-- What `malloc` or `realloc` answers when so many new slots are asked for: `none` for NULL, or the
-- slots with whatever stands in them.
abbrev pub Alloc : Type 0
Alloc = ℕ → Option (List ℕ)

-- `queue_create`; `header` says whether `malloc` found room for the `queue_t` itself.
create_sized : (header : Bool) (alloc : Alloc) (size : ℕ) → Option Queue
create_sized false alloc size = none
create_sized true alloc size =
    alloc size >>= λ block. some (record { q = some block; front = 0; rear = 0; size = size })

pub create : (header : Bool) (alloc : Alloc) (size : ℤ) → Option Queue
unfolding create_sized
create header alloc (negsuc n) = none
create header alloc (pos n) =
    create_sized header alloc (if n == 0 || n == 1 then init_queue_size else n)

-- `queue_full`
abbrev pub full : Queue → Bool
full s = (s.rear + 1) % s.size == s.front

-- The loop that copies `q[i]` to `q[org_size + i]`, with the rounds that are left.
pub move : (rounds i org_size : ℕ) → List ℕ → Option (List ℕ)
move zero i org_size q = some q
move (suc k) i org_size q =
    get_elem? q i >>= λ v. store q (org_size + i) v >>= λ q'. move k (i + 1) org_size q'

-- The slots that `realloc` keeps.
abbrev pub old_slots : Option (List ℕ) → List ℕ
old_slots none = []
old_slots (some xs) = xs

-- The tidying after `realloc` has answered `block`.
pub tidy : Queue → List ℕ → Option Queue
unfolding move
tidy s block =
    if ltb s.rear s.front
    then (move (s.rear + 1) 0 s.size block >>= λ block'.
        some
          (record { q = some block'; front = s.front; rear = s.size + s.rear; size = s.size * 2 }))
    else some (record s { q = some block; size = s.size * 2 })

-- The branch of `queue_push` for a full queue: whether it succeeds, and the queue it leaves.
-- `queue->size * 2` overflows an `int` from 2 ^ 30 on, which is a fault.
pub grow : Alloc → Queue → Option (Bool × Queue)
unfolding tidy
grow realloc s = if leb (2 ^ 30) s.size then none else elim (realloc s.size) [
  | none ↦ some (false, record s { q = none; size = s.size * 2 })
  | some extra ↦ tidy s (old_slots s.q ++ extra) >>= λ s'. some (true, s')
]

-- The last lines of `queue_push`.
pub append : Queue → ℕ → Option (Bool × Queue)
append s item = s.q >>= λ q.
    let rear = (s.rear + 1) % s.size in
    store q rear item >>= λ q'. some (true, record s { q = some q'; rear = rear })

-- `queue_push`
pub push : Alloc → Queue → ℕ → Option (Bool × Queue)
unfolding grow append
push realloc s item =
    if full s
    then (grow realloc s >>= λ (grown, s'). if grown then append s' item else some (false, s'))
    else append s item

-- `queue_pop`
pub pop : Queue → Option (ℕ × Queue)
pop s =
    if s.front == s.rear
    then some (null, s)
    else (let front = (s.front + 1) % s.size in
        s.q >>= λ q. get_elem? q front >>= λ item. some (item, record s { front = front }))

-- `queue_head`
pub head : Queue → Option ℕ
head s = s.q >>= λ q. get_elem? q ((s.front + 1) % s.size)

-- `queue_empty`
pub is_empty : Queue → Bool
is_empty s = s.front == s.rear

-- `queue_element_count`. The sum is not negative, since `front` is below `size`; one that does
-- not fit in an `int` is a fault.
pub element_count : Queue → Option ℕ
element_count s =
    let sum = s.rear + s.size - s.front in if leb (2 ^ 31) sum then none else some (sum % s.size)

-- `queue_size`
pub capacity : Queue → ℕ
capacity s = s.size

-- `queue_destroy` frees the block, then the header; `none` is
-- the NULL pointer.
pub destroy : Option Queue → Option Queue
destroy none = none
destroy (some s) = none
