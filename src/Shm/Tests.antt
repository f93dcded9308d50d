-- ===== src/Shm/Tests.antt =====
-- eshm.c: runs, and the theorem at a segment that was created.
use libeasy.Prelude.{◌+◌, ◌≡◌, refl, true, false, none, some, List, [], ◌∷◌}
use libeasy.Prelude.Int.{pos}
use libeasy.Shm.{
  Shm, Setup, shmdt, rmid, free, exists, at, bad, shm_create, shm_delete, shm_destroy, shm_detach,
}
use libeasy.Shm.Frees.{Request, detach, delete, destroy, serve_all, frees, owned}
use libeasy.Shm.Once.{detaches, attached, serve_all_once}

-- The segment exists already.
abbrev setup : Setup
setup = record {
  malloc = true;
  ftok = some (pos 5);
  shmget_new = exists;
  shmget_old = some (pos 3);
  shmat = some 4096;
  shmdt = true;
}

abbrev segment : Shm
segment = record {
  key = pos 5;
  id = pos 3;
  base = at 4096;
  size = 100;
  is_new = false;
  detached = false;
  deleted = false;
}

create_test : shm_create setup 100 ≡ (some segment, [])
unfolding shm_create
create_test = refl

-- A failed `shmat` makes the error path detach the address -1.
failed_attach_test : shm_create (record setup { shmat = none }) 100 ≡ (none, shmdt bad ∷ free ∷ [])
unfolding shm_create shm_destroy shm_detach
failed_attach_test = refl

-- `shm_delete` goes on after a failed `shmdt`, and nothing detaches the segment any more.
failed_detach_test :
    shm_delete false true (some segment) ≡ (true, none, shmdt (at 4096) ∷ rmid (pos 3) ∷ free ∷ [])
unfolding shm_delete shm_destroy shm_detach
failed_detach_test = refl

-- A first deletion fails, a second succeeds.
abbrev requests : List Request
requests = detach true ∷ delete true false ∷ delete true true ∷ destroy true ∷ []

serve_all_once_example :
    (frees ((serve_all requests (some segment)).1) + owned ((serve_all requests (some segment)).0)
      ≡ 1)
    × (detaches ((serve_all requests (some segment)).1)
          + attached ((serve_all requests (some segment)).0)
        ≡ 1)
serve_all_once_example = serve_all_once requests (some segment) (refl, (refl, (refl, (refl, tt))))
