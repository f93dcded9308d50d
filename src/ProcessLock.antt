-- ===== src/ProcessLock.antt =====
-- eprocess_lock.c: a lock between processes on a semaphore of the kernel.
pub mod Exclusion
mod Tests
use libeasy.Prelude.{ℕ, Bool, true, false, Option, none, some, if◌then◌else◌}
use libeasy.Prelude.Int.{ℤ, pos, negsuc}

-- `process_lock_t`
pub record Lock : Type 0 where
  pub key : ℤ
  pub id : ℤ

-- What `ftok` and `semget` answer: `none` for -1.
pub record Setup : Type 0 where
  pub malloc : Bool
  pub ftok : Option ℤ
  pub semget : ℤ → Option ℤ

-- A result, and whether the memory of the lock was freed.
abbrev pub get_id : Setup → ℤ → Option ℤ → Option Lock × Bool
get_id a key none = (none, true)
get_id a key (some id) = (some (record { key = key; id = id }), false)

abbrev pub get_key : Setup → Option ℤ → Option Lock × Bool
get_key a none = (none, true)
get_key a (some key) = get_id a key (a.semget key)

-- `process_lock_create`
unfoldable pub process_lock_create : Setup → Option Lock × Bool
process_lock_create a = if a.malloc then get_key a a.ftok else (none, false)

-- What `semop` answers: success, EAGAIN, another error; or it does not return.
pub data Answer : Type 0 where
  done : Answer
  again : Answer
  failed : Answer
  blocked : Answer

-- The kernel's semaphores: `semop` on the first semaphore of a set, with or without IPC_NOWAIT, and
-- `semctl` with SETVAL and with IPC_RMID.
pub record Kernel (K : Type 0) : Type 0 where
  pub semop : (id delta : ℤ) (nowait : Bool) → K → Answer × K
  pub setval : (id value : ℤ) → K → Bool × K
  pub rmid : (id : ℤ) → K → Bool × K

-- What `process_try_lock` makes of the answer of `semop`.
abbrev pub try_result : {K : Type 0} → Answer × K → Option ℤ × K
try_result (done, k) = (some (pos 1), k)
try_result (again, k) = (some (pos 0), k)
try_result (failed, k) = (some (negsuc 0), k)
try_result (blocked, k) = (none, k)

-- What `process_lock` and `process_unlock` make of it; `none` while the call does not return.
abbrev pub wait_result : {K : Type 0} → Answer × K → Option ℤ × K
wait_result (done, k) = (some (pos 1), k)
wait_result (again, k) = (some (pos 0), k)
wait_result (failed, k) = (some (pos 0), k)
wait_result (blocked, k) = (none, k)

module _ {K : Type 0} (kernel : Kernel K) where
  -- `process_lock_init`
  unfoldable pub process_lock_init : Lock → K → Bool × K
  process_lock_init lock k = kernel.setval lock.id (pos 1) k

  -- `process_try_lock`
  unfoldable pub process_try_lock : Lock → K → Option ℤ × K
  process_try_lock lock k = try_result (kernel.semop lock.id (negsuc 0) true k)

  -- `process_lock`; `none` while it does not return.
  unfoldable pub process_lock : Lock → K → Option ℤ × K
  process_lock lock k = wait_result (kernel.semop lock.id (negsuc 0) false k)

  -- `process_unlock`
  unfoldable pub process_unlock : Lock → K → Option ℤ × K
  process_unlock lock k = wait_result (kernel.semop lock.id (pos 1) false k)

  -- `process_lock_delete`
  unfoldable pub process_lock_delete : Lock → K → Bool × K
  process_lock_delete lock k = kernel.rmid lock.id k

-- `process_lock_release` frees the lock and sets the pointer to NULL.
unfoldable pub process_lock_release : Option Lock → Bool × Option Lock
process_lock_release none = (true, none)
process_lock_release (some lock) = (true, none)
