-- ===== src/ThreadPool/Tests.antt =====
-- ethread_pool.c: the theorems at concrete inputs.
use libeasy.Prelude.{◌≡◌, refl, true, some, [], ◌∷◌, arith, replicate, length-replicate}
use libeasy.Prelude.Int.{pos}
use libeasy.Queue.{Alloc}
use libeasy.Queue.Refine.{Grants}
use libeasy.ThreadPool.{ThreadPool, Setup, thread_pool_create, thread_pool_destroy}
use libeasy.ThreadPool.Life.{IsPool}
use libeasy.ThreadPool.Session.{push_all, create-push_all-destroy}

abbrev ample : Alloc
ample = λ n. some (replicate n 7)

ample-Grants : Grants ample
ample-Grants n = (replicate n 7, refl, length-replicate n 7)

abbrev setup : Setup
setup = record {
  pool_room = true;
  threads_room = true;
  queue_header = true;
  queue_alloc = ample;
  pthread_create = λ i. true;
}

create-push_all-destroy_example :
    (p q : ThreadPool) × (thread_pool_create setup (pos 2) 5 ≡ some (some p))
    × (push_all ample (9 ∷ 8 ∷ []) p ≡ some q)
    × IsPool q 2 (9 ∷ 8 ∷ [])
    × (thread_pool_destroy (some q) ≡ some (0 ∷ 1 ∷ []))
create-push_all-destroy_example =
    create-push_all-destroy setup ample 1 5 (9 ∷ 8 ∷ []) refl refl refl ample-Grants ample-Grants
      (λ j h. refl) (omega arith)
