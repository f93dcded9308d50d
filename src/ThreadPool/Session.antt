-- ===== src/ThreadPool/Session.antt =====
-- ethread_pool.c: a pool that is created, given tasks and destroyed.
use libeasy.Prelude.{
  ℕ, suc, ◌+◌, ◌^◌, ◌<◌, ◌≡◌, refl, sym, subst, ap, ◌∙◌, Bool, true, false, Option, none, some,
  List, [], ◌∷◌, ◌++◌, arith, length, length-append, append_assoc, append-nil,
}
use libeasy.Prelude.Fault.{◌>>=◌}
use libeasy.Prelude.Int.{pos}
use libeasy.Prelude.Maps.{upto}
use libeasy.Queue.{Alloc}
use libeasy.Queue.Refine.{Grants}
use libeasy.ThreadPool.{
  ThreadPool, Setup, thread_pool_create, thread_pool_push_task, thread_pool_destroy,
}
use libeasy.ThreadPool.Life.{
  IsPool, thread_pool_create-IsPool, push_task-IsPool, thread_pool_destroy-joins,
}

-- A caller that pushes one task after the other, and gives up where a push fails.
abbrev pub go_on : (ThreadPool → Option ThreadPool) → Bool × ThreadPool → Option ThreadPool
go_on more (false, p) = none
go_on more (true, p) = more p

unfoldable pub push_all : Alloc → (tasks : List ℕ) → ThreadPool → Option ThreadPool
push_all realloc [] p = some p
push_all realloc (task ∷ tasks) p =
    thread_pool_push_task realloc p task >>= go_on (λ q. push_all realloc tasks q)

push_all-IsPool :
    (realloc : Alloc) (tasks : List ℕ) (p : ThreadPool) (n : ℕ) (xs : List ℕ)
    → Grants realloc
    → IsPool p n xs
    → length xs + length tasks < 2 ^ 30
    → (q : ThreadPool) × (push_all realloc tasks p ≡ some q) × IsPool q n (xs ++ tasks)
unfolding push_all
push_all-IsPool realloc [] p n xs g i small = (p, refl, subst (IsPool p n) (sym (append-nil xs)) i)
push_all-IsPool realloc (task ∷ tasks) p n xs g i small =
    let (p', e, i') = push_task-IsPool p n xs realloc task g i (omega arith) in
    let (q, f, j) =
      push_all-IsPool realloc tasks p' n (xs ++ task ∷ []) g i'
        (omega (arith, length-append xs (task ∷ []))) in
    (
      q,
      ap (λ m. m >>= go_on (λ q. push_all realloc tasks q)) e ∙ f,
      subst (IsPool q n) (append_assoc xs (task ∷ []) tasks) j,
    )

-- For a number of threads that is positive, where there is memory for the pool, its threads and its
-- queue, where every realloc succeeds and every thread is created, for fewer than 2 ^ 30 tasks of which
-- no thread takes one before the end: `thread_pool_create` makes a pool, every push succeeds, the
-- queue then has the tasks in their order and all the threads are there, and `thread_pool_destroy`
-- joins each thread once, in order.
pub create-push_all-destroy :
    (a : Setup) (realloc : Alloc) (n data_of : ℕ) (tasks : List ℕ)
    → a.pool_room ≡ true
    → a.threads_room ≡ true
    → a.queue_header ≡ true
    → Grants a.queue_alloc
    → Grants realloc
    → ((j : ℕ) → j < suc n → a.pthread_create j ≡ true)
    → length tasks < 2 ^ 30
    → (p q : ThreadPool) × (thread_pool_create a (pos (suc n)) data_of ≡ some (some p))
      × (push_all realloc tasks p ≡ some q)
      × IsPool q (suc n) tasks
      × (thread_pool_destroy (some q) ≡ some (upto 0 (suc n)))
create-push_all-destroy a realloc n data_of tasks room threads header g r all small =
    let (p, e, i) = thread_pool_create-IsPool a n data_of room threads header g all in
    let (q, f, j) = push_all-IsPool realloc tasks p (suc n) [] r i (omega arith) in
    (p, q, e, f, j, thread_pool_destroy-joins q (suc n) tasks j)
