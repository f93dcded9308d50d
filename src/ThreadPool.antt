-- ===== src/ThreadPool.antt =====
-- ethread_pool.c: threads that take their work from a queue.
pub mod Life
pub mod Session
mod Tests
use libeasy.Prelude.{
  ℕ, zero, suc, ◌-◌, Bool, true, false, Option, none, some, List, [], ◌∷◌, if◌then◌else◌,
}
use libeasy.Prelude.Fault.{◌>>=◌}
use libeasy.Prelude.Int.{ℤ, pos, negsuc}
use libeasy.Queue
use libeasy.Queue.{Queue, Alloc, push}

-- A field that holds a pointer: what `malloc` left there, NULL, or a valid pointer.
pub data Pointer (A : Type 0) : Type 0 where
  unset : Pointer A
  null : Pointer A
  to : A → Pointer A

-- `thread_context_t`; `thread` says that `pthread_create` has set the field of this name.
pub record Context : Type 0 where
  pub id : ℕ
  pub thread : Bool
  pub work_continue : Bool

-- `thread_pool_t`
pub record ThreadPool : Type 0 where
  pub threads : Pointer (List Context)
  pub thread_num : ℕ
  pub queue : Pointer Queue
  pub data_of : ℕ

-- What the system answers to `thread_pool_create`: `malloc` for the pool, for the threads, for the
-- header and for the block of the queue, and `pthread_create` for the i-th thread.
pub record Setup : Type 0 where
  pub pool_room : Bool
  pub threads_room : Bool
  pub queue_header : Bool
  pub queue_alloc : Alloc
  pub pthread_create : ℕ → Bool

-- The contexts after `bzero`.
abbrev pub blank : ℕ → List Context
blank zero = []
blank (suc n) = record { id = 0; thread = false; work_continue = false } ∷ blank n

-- The loop of `thread_pool_destroy` that tells the threads to stop.
abbrev pub stop_all : List Context → List Context
stop_all [] = []
stop_all (c ∷ cs) = record c { work_continue = false } ∷ stop_all cs

-- The loop of `pthread_join`: the threads that were joined. One that was never created is none.
unfoldable pub join_all : List Context → Option (List ℕ)
join_all [] = some []
join_all (c ∷ cs) = if c.thread then (join_all cs >>= λ ids. some (c.id ∷ ids)) else none

abbrev pub join_threads : Pointer (List Context) → Option (List ℕ)
join_threads unset = none
join_threads null = some []
join_threads (to cs) = join_all (stop_all cs)

-- `queue_destroy` of the field `queue`.
abbrev pub destroy_queue : Pointer Queue → List ℕ → Option (List ℕ)
destroy_queue unset ids = none
destroy_queue null ids = some ids
destroy_queue (to q) ids = some ids

-- `thread_pool_destroy`: the threads that it joined; `none` of Option is undefined behaviour.
unfoldable pub thread_pool_destroy : Option ThreadPool → Option (List ℕ)
thread_pool_destroy none = some []
thread_pool_destroy (some p) = join_threads p.threads >>= destroy_queue p.queue

-- A failure: the pool is destroyed, and NULL is returned.
abbrev pub give_up : ThreadPool → Option (Option ThreadPool)
give_up p = thread_pool_destroy (some p) >>= λ ids. some none

-- The loop over the threads: whether all were created, and their contexts.
unfoldable pub start : (pthread_create : ℕ → Bool) → (i : ℕ) → List Context → Bool × List Context
start created i [] = (true, [])
start created i (c ∷ cs) =
    let more = start created (suc i) cs in
    if created i
    then (more.0, record { id = i; thread = true; work_continue = true } ∷ more.1)
    else (false, record { id = i; thread = c.thread; work_continue = true } ∷ cs)

abbrev pub started : ThreadPool → Bool × List Context → Option (Option ThreadPool)
started p (ok, cs) = let q = record p { threads = to cs } in if ok then some (some q) else give_up q

abbrev pub with_queue : Setup → (size data_of : ℕ) → Option Queue → Option (Option ThreadPool)
with_queue a size data_of none =
    give_up (record { threads = to (blank size); thread_num = size; queue = null; data_of = 0 })
with_queue a size data_of (some q) =
    started
      (record { threads = to (blank size); thread_num = size; queue = to q; data_of = data_of })
      (start a.pthread_create 0 (blank size))

abbrev pub create_sized : Setup → (size data_of : ℕ) → Option (Option ThreadPool)
create_sized a size data_of =
    if a.pool_room
    then (if a.threads_room
        then with_queue a size data_of (Queue.create a.queue_header a.queue_alloc (pos 1024))
        else give_up (record { threads = null; thread_num = 0; queue = unset; data_of = 0 }))
    else some none

-- `thread_pool_create`
unfoldable pub thread_pool_create : Setup → (size : ℤ) (data_of : ℕ) → Option (Option ThreadPool)
thread_pool_create a (negsuc n) data_of = some none
thread_pool_create a (pos zero) data_of = some none
thread_pool_create a (pos (suc n)) data_of = create_sized a (suc n) data_of

abbrev pub pushed : ThreadPool → Bool × Queue → Bool × ThreadPool
pushed p (ok, q) = (ok, record p { queue = to q })

abbrev pub push_to : Alloc → ThreadPool → ℕ → Pointer Queue → Option (Bool × ThreadPool)
push_to realloc p task unset = none
push_to realloc p task null = none
push_to realloc p task (to q) = push realloc q task >>= λ r. some (pushed p r)

-- `thread_pool_push_task` on a pool that is not NULL.
unfoldable pub thread_pool_push_task : Alloc → ThreadPool → ℕ → Option (Bool × ThreadPool)
thread_pool_push_task realloc p task = push_to realloc p task p.queue
