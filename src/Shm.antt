-- ===== src/Shm.antt =====
-- eshm.c: a segment of shared memory, from its creation to its end.
pub mod Frees
pub mod Once
mod Tests
use libeasy.Prelude.{
  ℕ, Bool, true, false, not, Option, none, some, List, [], ◌∷◌, ◌++◌, ◌==◌, if◌then◌else◌,
}
use libeasy.Prelude.Int.{ℤ, pos}

-- The field `base`: NULL, -1 where `shmat` failed, or an address.
pub data Base : Type 0 where
  null : Base
  bad : Base
  at : ℕ → Base

-- `shm_t`
pub record Shm : Type 0 where
  pub key : ℤ
  pub id : ℤ
  pub base : Base
  pub size : ℕ
  pub is_new : Bool
  pub detached : Bool
  pub deleted : Bool

-- What the functions call outside: `shmdt`, `shmctl` with IPC_RMID, `free`.
pub data Call : Type 0 where
  shmdt : Base → Call
  rmid : ℤ → Call
  free : Call

-- What `shmget` with IPC_EXCL answers: a segment, EEXIST, or another error.
pub data Exclusive : Type 0 where
  got : ℤ → Exclusive
  exists : Exclusive
  refused : Exclusive

-- What the system answers to `shm_create`; `shmdt` is for its error path.
pub record Setup : Type 0 where
  pub malloc : Bool
  pub ftok : Option ℤ
  pub shmget_new : Exclusive
  pub shmget_old : Option ℤ
  pub shmat : Option ℕ
  pub shmdt : Bool

-- `shm_detach` on a segment that is not detached; `shmdt` says whether the call succeeds.
abbrev pub detach_base : (shmdt : Bool) → Shm → Base → Bool × Shm × List Call
detach_base ok p null = (true, record p { base = null; detached = true }, [])
detach_base ok p b =
    (if ok
      then (true, record p { base = null; detached = true }, shmdt b ∷ [])
      else (false, p, shmdt b ∷ []))

unfoldable pub shm_detach : (shmdt : Bool) → Shm → Bool × Shm × List Call
shm_detach ok p = if p.detached then (true, p, []) else detach_base ok p p.base

abbrev pub destroy_base : (shmdt : Bool) → Shm → Base → List Call
destroy_base ok p null = free ∷ []
destroy_base ok p b = (shm_detach ok p).2 ++ free ∷ []

-- `shm_destroy`, which always returns 1 and sets the pointer to NULL.
unfoldable pub shm_destroy : (shmdt : Bool) → Option Shm → Bool × Option Shm × List Call
shm_destroy ok none = (true, none, [])
shm_destroy ok (some p) = (true, none, destroy_base ok p p.base)

-- The part of `shm_delete` behind the detaching; `ctl` says whether `shmctl` succeeds.
abbrev pub remove : (shmdt ctl : Bool) → Shm → List Call → Bool × Option Shm × List Call
remove ok ctl p calls =
    if ctl
    then (let r = shm_destroy ok (some (record p { deleted = true })) in
        (true, r.1, calls ++ rmid p.id ∷ r.2))
    else (false, some p, calls ++ rmid p.id ∷ [])

-- `shm_delete`, on the fields `deleted` and `detached`.
abbrev pub delete_from : (shmdt ctl deleted detached : Bool) → Shm → Bool × Option Shm × List Call
delete_from ok ctl true detached p = (true, some p, [])
delete_from ok ctl false true p = remove ok ctl p []
delete_from ok ctl false false p =
    let r = shm_detach ok p in remove ok ctl (record (r.1) { detached = true }) (r.2)

unfoldable pub shm_delete : (shmdt ctl : Bool) → Option Shm → Bool × Option Shm × List Call
shm_delete ok ctl none = (true, none, [])
shm_delete ok ctl (some p) = delete_from ok ctl p.deleted p.detached p

-- The label `error`.
abbrev pub give_up : Setup → Shm → Option Shm × List Call
give_up a p = (none, (shm_destroy a.shmdt (some p)).2)

abbrev pub attach : Setup → Shm → Option ℕ → Option Shm × List Call
attach a p none = give_up a (record p { deleted = false; base = bad })
attach a p (some addr) = (some (record p { deleted = false; base = at addr; detached = false }), [])

abbrev pub open_old : Setup → Shm → Option ℤ → Option Shm × List Call
open_old a p none = give_up a (record p { is_new = false })
open_old a p (some id) = attach a (record p { is_new = false; id = id }) a.shmat

abbrev pub open_new : Setup → Shm → Exclusive → Option Shm × List Call
open_new a p (got id) = attach a (record p { id = id }) a.shmat
open_new a p exists = open_old a p a.shmget_old
open_new a p refused = give_up a p

abbrev pub zeroed : Shm
zeroed = record {
  key = pos 0;
  id = pos 0;
  base = null;
  size = 0;
  is_new = false;
  detached = false;
  deleted = false;
}

abbrev pub with_key : Setup → (size : ℕ) → Option ℤ → Option Shm × List Call
with_key a size none = give_up a zeroed
with_key a size (some key) =
    open_new a (record zeroed { key = key; size = size; is_new = true }) a.shmget_new

-- `shm_create`
unfoldable pub shm_create : Setup → (size : ℕ) → Option Shm × List Call
shm_create a size =
    if size == 0 then (none, []) else if a.malloc then with_key a size a.ftok else (none, [])
