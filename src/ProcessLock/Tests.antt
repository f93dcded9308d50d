-- ===== src/ProcessLock/Tests.antt =====
-- eprocess_lock.c: the theorem at a kernel with one semaphore, and runs.
use libeasy.Prelude.{ℕ, zero, suc, ◌≤◌, ◌≡◌, refl, true, some, ◌==◌, if◌then◌else◌, length}
use libeasy.Prelude.Int.{pos, negsuc}
use libeasy.ProcessLock.{Lock, Kernel, done, again, blocked, process_try_lock}
use libeasy.ProcessLock.Exclusion.{
  IsSemaphore, World, tries, here, then_step, initial, locked, exclusion,
}

abbrev one_semaphore : Kernel ℕ
one_semaphore = record {
  semop = λ id delta nowait k. elim delta [
    | pos n ↦ (done, suc k)
    | negsuc n ↦ elim k [ zero ↦ (if nowait then again else blocked, zero) | suc m ↦ (done, m) ]
  ];
  setval = λ id value k. (true, 1);
  rmid = λ id k. (true, k);
}

one_semaphore-IsSemaphore : IsSemaphore one_semaphore (pos 7) (λ k. k)
one_semaphore-IsSemaphore = record {
  set = λ k. refl;
  take = λ k n nowait e. rw (e) (refl, refl);
  empty_try = λ k e. rw (e) refl;
  empty_wait = λ k e. rw (e) refl;
  give = λ k. (refl, refl);
}

abbrev lock : Lock
lock = record { key = pos 1; id = pos 7 }

-- Two processes try, and the first gets the lock.
abbrev first_try : World one_semaphore lock
first_try =
    locked one_semaphore lock 1 (initial one_semaphore lock 9)
      (process_try_lock one_semaphore lock (initial one_semaphore lock 9).state)

exclusion_example :
    let w =
      locked one_semaphore lock 2 first_try (process_try_lock one_semaphore lock first_try.state) in
    (length w.holders ≤ 1)
    × ((process_try_lock one_semaphore lock w.state).0
        ≡ (if length w.holders == 0 then some (pos 1) else some (pos 0)))
exclusion_example =
    let w =
      locked one_semaphore lock 2 first_try (process_try_lock one_semaphore lock first_try.state) in
    exclusion one_semaphore lock (λ k. k) one_semaphore-IsSemaphore 9 w
      (then_step (initial one_semaphore lock 9) first_try w
        (then_step (initial one_semaphore lock 9) (initial one_semaphore lock 9) first_try
          (here (initial one_semaphore lock 9)) (tries 1 (initial one_semaphore lock 9)))
        (tries 2 first_try))
