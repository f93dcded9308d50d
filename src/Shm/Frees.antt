-- ===== src/Shm/Frees.antt =====
-- eshm.c: what is allocated is freed once.
use libeasy.Prelude.{
  ℕ, suc, ◌+◌, ◌≡◌, refl, ap, ◌∙◌, Bool-cases, inl, inr, Bool, true, false, Option, none, some,
  List, [], ◌∷◌, ◌++◌, arith,
}
use libeasy.Shm.{
  Base, null, bad, at, Shm, Call, shmdt, rmid, free, shm_detach, detach_base, shm_destroy,
  destroy_base, shm_delete, delete_from, remove,
}

-- A call of the caller's, with what the system answers.
pub data Request : Type 0 where
  detach : (shmdt : Bool) → Request
  delete : (shmdt ctl : Bool) → Request
  destroy : (shmdt : Bool) → Request

abbrev pub detach_some : Bool → Option Shm → Option Shm × List Call
detach_some ok none = (none, [])
detach_some ok (some p) = let r = shm_detach ok p in (some (r.1), r.2)

abbrev pub serve : Request → Option Shm → Option Shm × List Call
serve (detach ok) p = detach_some ok p
serve (delete ok ctl) p = let r = shm_delete ok ctl p in (r.1, r.2)
serve (destroy ok) p = let r = shm_destroy ok p in (r.1, r.2)

-- The calls outside that a sequence of requests makes, and the pointer at its end.
unfoldable pub serve_all : List Request → Option Shm → Option Shm × List Call
serve_all [] p = (p, [])
serve_all (r ∷ rs) p =
    let first = serve r p in let more = serve_all rs (first.0) in (more.0, first.1 ++ more.1)

abbrev pub frees : List Call → ℕ
frees [] = 0
frees (free ∷ cs) = suc (frees cs)
frees (shmdt b ∷ cs) = frees cs
frees (rmid i ∷ cs) = frees cs

-- One for a pointer that is not NULL.
abbrev pub owned : Option Shm → ℕ
owned none = 0
owned (some p) = 1

pub frees-append : (xs ys : List Call) → frees (xs ++ ys) ≡ frees xs + frees ys
frees-append [] ys = omega arith
frees-append (free ∷ cs) ys = omega (arith, frees-append cs ys)
frees-append (shmdt b ∷ cs) ys = frees-append cs ys
frees-append (rmid i ∷ cs) ys = frees-append cs ys

detach_base-frees : (ok : Bool) (p : Shm) (b : Base) → frees ((detach_base ok p b).2) ≡ 0
detach_base-frees ok p null = refl
detach_base-frees true p bad = refl
detach_base-frees false p bad = refl
detach_base-frees true p (at a) = refl
detach_base-frees false p (at a) = refl

shm_detach-frees : (ok : Bool) (p : Shm) → frees ((shm_detach ok p).2) ≡ 0
unfolding shm_detach
shm_detach-frees ok p = elim (Bool-cases p.detached) [
  | inl h ↦ simp (h) refl
  | inr h ↦ simp (h) (detach_base-frees ok p p.base)
]

destroy_base-frees : (ok : Bool) (p : Shm) (b : Base) → frees (destroy_base ok p b) ≡ 1
destroy_base-frees ok p null = refl
destroy_base-frees ok p bad =
    frees-append ((shm_detach ok p).2) (free ∷ []) ∙ ap (λ n. n + 1) (shm_detach-frees ok p)
destroy_base-frees ok p (at a) =
    frees-append ((shm_detach ok p).2) (free ∷ []) ∙ ap (λ n. n + 1) (shm_detach-frees ok p)

remove-frees :
    (ok ctl : Bool) (p : Shm) (calls : List Call)
    → frees calls ≡ 0
    → frees ((remove ok ctl p calls).2) + owned ((remove ok ctl p calls).1) ≡ 1
unfolding shm_destroy
remove-frees ok true p calls h =
    let q = record p { deleted = true } in
    omega (
      arith,
      frees-append calls (rmid p.id ∷ destroy_base ok q p.base),
      destroy_base-frees ok q p.base,
      h,
    )
remove-frees ok false p calls h = omega (arith, frees-append calls (rmid p.id ∷ []), h)

delete_from-frees :
    (ok ctl deleted detached : Bool) (p : Shm)
    → frees ((delete_from ok ctl deleted detached p).2)
        + owned ((delete_from ok ctl deleted detached p).1)
      ≡ 1
delete_from-frees ok ctl true detached p = omega arith
delete_from-frees ok ctl false true p = remove-frees ok ctl p [] refl
delete_from-frees ok ctl false false p =
    remove-frees ok ctl (record ((shm_detach ok p).1) { detached = true }) ((shm_detach ok p).2)
      (shm_detach-frees ok p)

pub serve-frees :
    (r : Request) (p : Option Shm) → frees ((serve r p).1) + owned ((serve r p).0) ≡ owned p
unfolding shm_destroy shm_delete
serve-frees (detach ok) none = omega arith
serve-frees (detach ok) (some p) = omega (arith, shm_detach-frees ok p)
serve-frees (delete ok ctl) none = omega arith
serve-frees (delete ok ctl) (some p) = delete_from-frees ok ctl p.deleted p.detached p
serve-frees (destroy ok) none = omega arith
serve-frees (destroy ok) (some p) = omega (arith, destroy_base-frees ok p p.base)

-- Whatever the caller asks for, in whatever order, and whatever the system answers, the memory of a
-- segment is freed once if the pointer is NULL at the end, and never otherwise.
pub serve_all-frees :
    (rs : List Request) (p : Option Shm)
    → frees ((serve_all rs p).1) + owned ((serve_all rs p).0) ≡ owned p
unfolding serve_all
serve_all-frees [] p = omega arith
serve_all-frees (r ∷ rs) p =
    let first = serve r p in
    let more = serve_all rs (first.0) in
    omega (arith, serve-frees r p, serve_all-frees rs (first.0), frees-append (first.1) (more.1))
