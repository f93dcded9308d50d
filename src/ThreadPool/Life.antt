-- ===== src/ThreadPool/Life.antt =====
-- ethread_pool.c: a pool from its creation to its end.
use libeasy.Prelude.{
  ℕ, zero, suc, ◌+◌, ◌^◌, ◌≤◌, ◌<◌, ◌≡◌, ◌≢◌, Bool-cases, inl, inr, refl, ap, subst, ◌∙◌, Bool,
  true, false, none, some, List, [], ◌∷◌, ◌++◌, arith, length,
}
use libeasy.Prelude.Fault.{◌>>=◌}
use libeasy.Prelude.Int.{pos}
use libeasy.Prelude.Maps.{upto}
use libeasy.Queue.{Queue, Alloc}
use libeasy.Queue.Refine.{Holds, Grants, push-Holds}
use libeasy.Queue.Failure.{create-Holds}
use libeasy.ThreadPool.{
  to, Context, ThreadPool, Setup, blank, stop_all, join_all, join_threads, destroy_queue,
  thread_pool_destroy, start, started, with_queue, thread_pool_create, pushed, push_to,
  thread_pool_push_task,
}

-- The threads from `i` on, each created and told to go on.
abbrev pub Started : (i : ℕ) → List Context → Type 0
Started i [] = Unit
Started i (c ∷ cs) = (c.id ≡ i) × (c.thread ≡ true) × (c.work_continue ≡ true) × Started (suc i) cs

-- A pool of `n` threads with the tasks `xs` in its queue.
pub record IsPool (p : ThreadPool) (n : ℕ) (xs : List ℕ) : Type 0 where
  pub contexts : List Context
  pub threads_is : p.threads ≡ to contexts
  pub number : length contexts ≡ n
  pub started_is : Started 0 contexts
  pub tasks : Queue
  pub queue_is : p.queue ≡ to tasks
  pub holds : Holds tasks xs

start-Started :
    (created : ℕ → Bool) (i n : ℕ)
    → ((j : ℕ) → j < i + n → created j ≡ true)
    → ((start created i (blank n)).0 ≡ true)
      × Started i ((start created i (blank n)).1)
      × (length ((start created i (blank n)).1) ≡ n)
unfolding start
start-Started created i zero all = (refl, tt, refl)
start-Started created i (suc n) all =
    let more = start-Started created (suc i) n (λ j h. all j (omega arith)) in
    rw (all i (omega arith)) (more.0, (refl, refl, refl, more.1), ap suc (more.2))

join_all-upto :
    (i : ℕ) (cs : List Context) → Started i cs → join_all (stop_all cs) ≡ some (upto i (length cs))
unfolding join_all
join_all-upto i [] s = refl
join_all-upto i (c ∷ cs) s =
    simp (s.1, join_all-upto (suc i) cs (s.3)) (ap (λ k. some (k ∷ upto (suc i) (length cs))) (s.0))

-- Where the system has room and creates every thread, `thread_pool_create` makes a pool of the threads
-- asked for, with an empty queue.
pub thread_pool_create-IsPool :
    (a : Setup) (n data_of : ℕ)
    → a.pool_room ≡ true
    → a.threads_room ≡ true
    → a.queue_header ≡ true
    → Grants a.queue_alloc
    → ((j : ℕ) → j < suc n → a.pthread_create j ≡ true)
    → (p : ThreadPool) × (thread_pool_create a (pos (suc n)) data_of ≡ some (some p))
      × IsPool p (suc n) []
unfolding thread_pool_create
thread_pool_create-IsPool a n data_of room threads header g all =
    let (q, e, h, size) = create-Holds 1024 g in
    let s = start-Started a.pthread_create 0 (suc n) (λ j l. all j (omega arith)) in
    let cs = start a.pthread_create 0 (blank (suc n)) in
    let p : ThreadPool = record {
      threads = to (cs.1);
      thread_num = suc n;
      queue = to q;
      data_of = data_of;
    } in
    (
      p,
      simp (room, threads, header)
          (ap (with_queue a (suc n) data_of) e
            ∙ ap
                (λ b.
                  started
                    (record {
                      threads = to (blank (suc n));
                      thread_num = suc n;
                      queue = to q;
                      data_of = data_of;
                    })
                    (b, cs.1))
                (s.0)),
      record {
        contexts = cs.1;
        threads_is = refl;
        number = s.2;
        started_is = s.1;
        tasks = q;
        queue_is = refl;
        holds = h;
      },
    )

-- A task goes to the end of the queue, which grows where it is full.
pub push_task-IsPool :
    (p : ThreadPool) (n : ℕ) (xs : List ℕ) (realloc : Alloc) (task : ℕ)
    → Grants realloc
    → IsPool p n xs
    → length xs + 1 < 2 ^ 30
    → (p' : ThreadPool) × (thread_pool_push_task realloc p task ≡ some (true, p'))
      × IsPool p' n (xs ++ task ∷ [])
unfolding thread_pool_push_task
push_task-IsPool p n xs realloc task g i small =
    let (q, e, h, _) = push-Holds task g i.holds small in
    (
      record p { queue = to q },
      ap (push_to realloc p task) i.queue_is ∙ ap (λ m. m >>= λ r. some (pushed p r)) e,
      record {
        contexts = i.contexts;
        threads_is = i.threads_is;
        number = i.number;
        started_is = i.started_is;
        tasks = q;
        queue_is = refl;
        holds = h;
      },
    )

-- `thread_pool_destroy` joins every thread once, in order.
pub thread_pool_destroy-joins :
    (p : ThreadPool) (n : ℕ) (xs : List ℕ)
    → IsPool p n xs
    → thread_pool_destroy (some p) ≡ some (upto 0 n)
unfolding thread_pool_destroy
thread_pool_destroy-joins p n xs i =
    ap (λ t. join_threads t >>= destroy_queue p.queue) i.threads_is
    ∙ ap (λ m. m >>= destroy_queue p.queue) (join_all-upto 0 i.contexts i.started_is)
    ∙ ap (λ q. destroy_queue q (upto 0 (length i.contexts))) i.queue_is
    ∙ ap (λ m. some (upto 0 m)) i.number

yes_no : (b : Bool) → b ≡ true → b ≡ false → ⊥
yes_no b h k = absurd (cc)

next_le : (i j : ℕ) → i ≤ j → i ≢ j → suc i ≤ j
next_le i j h k = ground arith

start_failed :
    (created : ℕ → Bool) (i n j : ℕ)
    → i ≤ j
    → j < i + n
    → ((k : ℕ) → k < j → created k ≡ true)
    → created j ≡ false
    → ((start created i (blank n)).0 ≡ false)
      × (join_all (stop_all ((start created i (blank n)).1)) ≡ none)
unfolding start join_all
start_failed created i zero j low high before fails = absurd (omega arith)
start_failed created i (suc n) j low high before fails = elim (Bool-cases (created i)) [
  | inl ok ↦
      let other : i ≢ j =
        λ e. absurd (yes_no (created j) (subst (λ k. created k ≡ true) e ok) fails) in
      let more =
        start_failed created (suc i) n j (next_le i j low other) (omega arith) before fails in
      rw (ok) (more.0, rw (more.1) refl)
  | inr not_ok ↦ rw (not_ok) (refl, refl)
]

-- Where a thread is not created, the pool is destroyed and a thread that does not exist is joined.
pub thread_pool_create_failed :
    (a : Setup) (n data_of j : ℕ)
    → a.pool_room ≡ true
    → a.threads_room ≡ true
    → a.queue_header ≡ true
    → Grants a.queue_alloc
    → j < suc n
    → ((k : ℕ) → k < j → a.pthread_create k ≡ true)
    → a.pthread_create j ≡ false
    → thread_pool_create a (pos (suc n)) data_of ≡ none
unfolding thread_pool_create thread_pool_destroy
thread_pool_create_failed a n data_of j room threads header g small before fails =
    let (q, e, h, size) = create-Holds 1024 g in
    let s = start_failed a.pthread_create 0 (suc n) j (omega arith) (omega arith) before fails in
    let cs = start a.pthread_create 0 (blank (suc n)) in
    simp (room, threads, header)
      (ap (with_queue a (suc n) data_of) e
        ∙ ap
            (λ b.
              started
                (record {
                  threads = to (blank (suc n));
                  thread_num = suc n;
                  queue = to q;
                  data_of = data_of;
                })
                (b, cs.1))
            (s.0)
        ∙ ap (λ m. (m >>= destroy_queue (to q)) >>= λ ids. some none) (s.1))

-- Where there is no room for the threads, the field `queue` is read that nothing has set.
pub thread_pool_create_unset :
    (a : Setup) (n data_of : ℕ)
    → a.pool_room ≡ true
    → a.threads_room ≡ false
    → thread_pool_create a (pos (suc n)) data_of ≡ none
unfolding thread_pool_create thread_pool_destroy
thread_pool_create_unset a n data_of room no_threads = simp (room, no_threads) refl
