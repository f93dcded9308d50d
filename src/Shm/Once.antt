-- ===== src/Shm/Once.antt =====
-- eshm.c: what is attached is detached once, and what is allocated is freed once.
use libeasy.Prelude.{
  ℕ, suc, ◌+◌, ◌≡◌, refl, sym, ap, subst, ◌∙◌, Bool-cases, inl, inr, Bool, true, false, Option,
  none, some, List, [], ◌∷◌, ◌++◌, arith,
}
use libeasy.Shm.{
  Base, null, bad, at, Shm, Call, shmdt, rmid, free, shm_detach, detach_base, shm_destroy,
  destroy_base, shm_delete, delete_from, remove,
}
use libeasy.Shm.Frees.{
  Request, detach, delete, destroy, serve, serve_all, frees, owned, serve_all-frees,
}

-- The calls of `shmdt`.
abbrev pub detaches : List Call → ℕ
detaches [] = 0
detaches (free ∷ cs) = detaches cs
detaches (shmdt b ∷ cs) = suc (detaches cs)
detaches (rmid i ∷ cs) = detaches cs

detaches-append : (xs ys : List Call) → detaches (xs ++ ys) ≡ detaches xs + detaches ys
detaches-append [] ys = omega arith
detaches-append (free ∷ cs) ys = detaches-append cs ys
detaches-append (shmdt b ∷ cs) ys = omega (arith, detaches-append cs ys)
detaches-append (rmid i ∷ cs) ys = detaches-append cs ys

-- One for a segment that is not detached.
abbrev pub held : (detached : Bool) → Base → ℕ
held true b = 0
held false null = 0
held false bad = 1
held false (at a) = 1

abbrev pub attached : Option Shm → ℕ
attached none = 0
attached (some p) = held p.detached p.base

-- A request where `shmdt` succeeds.
abbrev pub Succeeds : Request → Type 0
Succeeds (detach ok) = ok ≡ true
Succeeds (delete ok ctl) = ok ≡ true
Succeeds (destroy ok) = ok ≡ true

abbrev pub AllSucceed : List Request → Type 0
AllSucceed [] = Unit
AllSucceed (r ∷ rs) = Succeeds r × AllSucceed rs

held_null : (d : Bool) → 0 ≡ held d null
held_null true = refl
held_null false = refl

detach_base-detaches :
    (p : Shm) (b : Base)
    → (detaches ((detach_base true p b).2) ≡ held false b)
      × ((detach_base true p b).1.detached ≡ true)
detach_base-detaches p null = (refl, refl)
detach_base-detaches p bad = (refl, refl)
detach_base-detaches p (at a) = (refl, refl)

shm_detach-detaches :
    (p : Shm)
    → (detaches ((shm_detach true p).2) ≡ held p.detached p.base)
      × ((shm_detach true p).1.detached ≡ true)
unfolding shm_detach
shm_detach-detaches p = elim (Bool-cases p.detached) [
  | inl h ↦ (simp (h) refl, simp (h) refl)
  | inr h ↦ let k = detach_base-detaches p p.base in (simp (h) (k.0), simp (h) (k.1))
]

destroy_base-detaches :
    (p : Shm) (b : Base) → p.base ≡ b → detaches (destroy_base true p b) ≡ held p.detached b
destroy_base-detaches p null e = held_null p.detached
destroy_base-detaches p bad e =
    detaches-append ((shm_detach true p).2) (free ∷ [])
    ∙ omega (arith, (shm_detach-detaches p).0)
    ∙ ap (held p.detached) e
destroy_base-detaches p (at a) e =
    detaches-append ((shm_detach true p).2) (free ∷ [])
    ∙ omega (arith, (shm_detach-detaches p).0)
    ∙ ap (held p.detached) e

remove-detaches :
    (ctl : Bool) (p : Shm) (calls : List Call)
    → p.detached ≡ true
    → detaches ((remove true ctl p calls).2) + attached ((remove true ctl p calls).1)
      ≡ detaches calls
unfolding shm_destroy
remove-detaches true p calls h =
    let q = record p { deleted = true } in
    let none_left : held p.detached p.base ≡ 0 = ap (λ d. held d p.base) h in
    omega (
      arith,
      detaches-append calls (rmid p.id ∷ destroy_base true q p.base),
      destroy_base-detaches q p.base refl,
      none_left,
    )
remove-detaches false p calls h =
    let none_left : held p.detached p.base ≡ 0 = ap (λ d. held d p.base) h in
    omega (arith, detaches-append calls (rmid p.id ∷ []), none_left)

delete_from-detaches :
    (ctl deleted detached : Bool) (p : Shm)
    → p.detached ≡ detached
    → detaches ((delete_from true ctl deleted detached p).2)
        + attached ((delete_from true ctl deleted detached p).1)
      ≡ held p.detached p.base
delete_from-detaches ctl true detached p e = omega arith
delete_from-detaches ctl false true p e =
    remove-detaches ctl p [] e ∙ sym (ap (λ d. held d p.base) e)
delete_from-detaches ctl false false p e =
    remove-detaches ctl (record ((shm_detach true p).1) { detached = true }) ((shm_detach true p).2)
      refl
    ∙ (shm_detach-detaches p).0

serve-detaches :
    (r : Request) (p : Option Shm)
    → Succeeds r
    → detaches ((serve r p).1) + attached ((serve r p).0) ≡ attached p
unfolding shm_destroy shm_delete
serve-detaches (detach ok) none s = omega arith
serve-detaches (detach ok) (some p) s =
    let k = shm_detach-detaches p in
    let none_left : held ((shm_detach true p).1).detached ((shm_detach true p).1).base ≡ 0 =
      ap (λ d. held d ((shm_detach true p).1).base) (k.1) in
    subst
      (λ b.
        detaches ((shm_detach b p).2) + held ((shm_detach b p).1).detached ((shm_detach b p).1).base
        ≡ held p.detached p.base)
      (sym s) (omega (arith, k.0, none_left))
serve-detaches (delete ok ctl) none s = omega arith
serve-detaches (delete ok ctl) (some p) s =
    subst
      (λ b.
        detaches ((delete_from b ctl p.deleted p.detached p).2)
          + attached ((delete_from b ctl p.deleted p.detached p).1)
        ≡ held p.detached p.base)
      (sym s) (delete_from-detaches ctl p.deleted p.detached p refl)
serve-detaches (destroy ok) none s = omega arith
serve-detaches (destroy ok) (some p) s =
    subst (λ b. detaches (destroy_base b p p.base) + 0 ≡ held p.detached p.base) (sym s)
      (omega (arith, destroy_base-detaches p p.base refl))

-- Whatever the caller asks for, in whatever order, and where every `shmdt` succeeds: the memory of a
-- segment is freed once if the pointer is NULL at the end and never otherwise, and an attached segment
-- is detached once, by the time it is freed at the latest.
pub serve_all_once :
    (rs : List Request) (p : Option Shm)
    → AllSucceed rs
    → (frees ((serve_all rs p).1) + owned ((serve_all rs p).0) ≡ owned p)
      × (detaches ((serve_all rs p).1) + attached ((serve_all rs p).0) ≡ attached p)
unfolding serve_all
serve_all_once [] p s = (omega arith, omega arith)
serve_all_once (r ∷ rs) p s =
    let first = serve r p in
    let more = serve_all rs (first.0) in
    let later = serve_all_once rs (first.0) (s.1) in
    (
      serve_all-frees (r ∷ rs) p,
      omega (arith, serve-detaches r p (s.0), later.1, detaches-append (first.1) (more.1)),
    )
