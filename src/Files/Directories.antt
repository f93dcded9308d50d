-- ===== src/Files/Directories.antt =====
-- eother.c: `create_dir` makes a directory and all those above it.
use libeasy.Prelude.{
  ℕ, ◌≤◌, ◌≡◌, refl, sym, ap, subst, ◌∙◌, Bool, true, false, List, [], ◌∷◌, ◌++◌, ◌==◌,
  if◌then◌else◌, length, Bool-cases, inl, inr,
}
use libeasy.Prelude.Slices.{take_all}
use libeasy.Files.{System, max_path, make, and_then, make_parents, make_last, create_dir}

-- What is relied on of the system: what was made exists, and what exists stays.
pub record IsSystem {F : Type 0} (system : System F) : Type 0 where
  pub made :
      (path : List ℕ) (f : F)
      → (system.mkdir path f).0 ≡ true
      → system.exists path ((system.mkdir path f).1) ≡ true
  pub stays :
      (path other : List ℕ) (f : F)
      → system.exists other f ≡ true
      → system.exists other ((system.mkdir path f).1) ≡ true

yes_no : (b : Bool) → b ≡ true → b ≡ false → ⊥
yes_no b h k = absurd (cc)

module _ {F : Type 0} (system : System F) (is : IsSystem system) where
  -- The paths in front of the slashes of what follows `path` exist, but for a slash in front.
  abbrev pub Parents : (path : List ℕ) → List ℕ → F → Type 0
  Parents path [] f = Unit
  Parents [] (c ∷ cs) f = Parents (c ∷ []) cs f
  Parents (p ∷ ps) (c ∷ cs) f =
      (c == b'/' ≡ true → system.exists (p ∷ ps) f ≡ true) × Parents (p ∷ ps ++ c ∷ []) cs f

  make_there :
      (path : List ℕ) (f : F) → system.exists path f ≡ true → make system path f ≡ (true, f)
  make_there path f h = ap (λ b. if b then (true, f) else system.mkdir path f) h

  make_absent :
      (path : List ℕ) (f : F)
      → system.exists path f ≡ false
      → make system path f ≡ system.mkdir path f
  make_absent path f h = ap (λ b. if b then (true, f) else system.mkdir path f) h

  make-exists :
      (path : List ℕ) (f : F)
      → (make system path f).0 ≡ true
      → system.exists path ((make system path f).1) ≡ true
  make-exists path f ok = elim (Bool-cases (system.exists path f)) [
    | inl there ↦ subst (λ r. system.exists path (r.1) ≡ true) (sym (make_there path f there)) there
    | inr absent ↦
        let e = make_absent path f absent in
        subst (λ r. system.exists path (r.1) ≡ true) (sym e)
          (is.made path f (sym (ap (λ r. r.0) e) ∙ ok))
  ]

  make_stays :
      (path other : List ℕ) (f : F)
      → system.exists other f ≡ true
      → system.exists other ((make system path f).1) ≡ true
  make_stays path other f e = elim (Bool-cases (system.exists path f)) [
    | inl there ↦ subst (λ r. system.exists other (r.1) ≡ true) (sym (make_there path f there)) e
    | inr absent ↦
        subst (λ r. system.exists other (r.1) ≡ true) (sym (make_absent path f absent))
          (is.stays path other f e)
  ]

  and_then_first :
      (r : Bool × F) (more : F → Bool × F)
      → (and_then system r more).0 ≡ true
      → (r.0 ≡ true) × (and_then system r more ≡ more (r.1))
  and_then_first (true, f) more ok = (refl, refl)
  and_then_first (false, f) more ok = absurd (cc)

  -- A step of the loop of `create_dir`.
  step : (p : ℕ) (ps : List ℕ) (c : ℕ) (more : F → Bool × F) → F → Bool × F
  step p ps c more f = if c == b'/' then and_then system (make system (p ∷ ps) f) more else more f

  step_ok :
      (p : ℕ) (ps : List ℕ) (c : ℕ) (more : F → Bool × F) (f : F)
      → (step p ps c more f).0 ≡ true
      → (g : F) × (step p ps c more f ≡ more g)
        × ((c == b'/') ≡ true → system.exists (p ∷ ps) g ≡ true)
        × ((other : List ℕ) → system.exists other f ≡ true → system.exists other g ≡ true)
  unfolding step
  step_ok p ps c more f ok = elim (Bool-cases (c == b'/')) [
    | inl slash ↦
        let r = make system (p ∷ ps) f in
        let is_step : step p ps c more f ≡ and_then system r more =
          ap (λ b. if b then and_then system r more else more f) slash in
        let first = and_then_first r more (ap (λ o. o.0) (sym is_step) ∙ ok) in
        (
          r.1,
          is_step ∙ first.1,
          λ h. make-exists (p ∷ ps) f (first.0),
          λ other e. make_stays (p ∷ ps) other f e,
        )
    | inr none_here ↦ (
      f,
      ap (λ b. if b then and_then system (make system (p ∷ ps) f) more else more f) none_here,
      λ h. absurd (yes_no (c == b'/') h none_here),
      λ other e. e,
    )
  ]

  make_parents-Parents :
      (path cs : List ℕ) (f : F)
      → (make_parents system path cs f).0 ≡ true
      → Parents path cs ((make_parents system path cs f).1)
        × ((other : List ℕ)
            → system.exists other f ≡ true
            → system.exists other ((make_parents system path cs f).1) ≡ true)
  unfolding make_parents step
  make_parents-Parents path [] f ok = (tt, λ other e. e)
  make_parents-Parents [] (c ∷ cs) f ok = make_parents-Parents (c ∷ []) cs f ok
  make_parents-Parents (p ∷ ps) (c ∷ cs) f ok =
      let more : F → Bool × F = λ g. make_parents system (p ∷ ps ++ c ∷ []) cs g in
      let (g, e, here, stays) = step_ok p ps c more f ok in
      let rest = make_parents-Parents (p ∷ ps ++ c ∷ []) cs g (ap (λ o. o.0) (sym e) ∙ ok) in
      subst
        (λ r.
          Parents (p ∷ ps) (c ∷ cs) (r.1)
          × ((other : List ℕ) → system.exists other f ≡ true → system.exists other (r.1) ≡ true))
        (sym e) ((λ h. rest.1 (p ∷ ps) (here h), rest.0), λ other k. rest.1 other (stays other k))

  Parents-frame :
      (path cs : List ℕ) (f g : F)
      → ((other : List ℕ) → system.exists other f ≡ true → system.exists other g ≡ true)
      → Parents path cs f
      → Parents path cs g
  Parents-frame path [] f g stays parents = tt
  Parents-frame [] (c ∷ cs) f g stays parents = Parents-frame (c ∷ []) cs f g stays parents
  Parents-frame (p ∷ ps) (c ∷ cs) f g stays parents =
      (λ h. stays (p ∷ ps) (parents.0 h), Parents-frame (p ∷ ps ++ c ∷ []) cs f g stays (parents.1))

  create_path : List ℕ → F → Bool × F
  create_path path f =
      and_then system (make_parents system [] path f) (λ g. make_last system path g)

  create_path-exists :
      (c : ℕ) (cs : List ℕ) (f : F)
      → (create_path (c ∷ cs) f).0 ≡ true
      → Parents [] (c ∷ cs) ((create_path (c ∷ cs) f).1)
        × (system.exists (c ∷ cs) ((create_path (c ∷ cs) f).1) ≡ true)
  unfolding create_path
  create_path-exists c cs f ok =
      let r = make_parents system [] (c ∷ cs) f in
      let last : F → Bool × F = λ g. make system (c ∷ cs) g in
      let first = and_then_first r last ok in
      let parents = (make_parents-Parents [] (c ∷ cs) f (first.0)).0 in
      subst (λ o. Parents [] (c ∷ cs) (o.1) × (system.exists (c ∷ cs) (o.1) ≡ true)) (sym (first.1))
        (
          Parents-frame [] (c ∷ cs) (r.1) ((last (r.1)).1)
              (λ other e. make_stays (c ∷ cs) other (r.1) e) parents,
          make-exists (c ∷ cs) (r.1) (ap (λ o. o.0) (sym (first.1)) ∙ ok),
        )

  -- Where `create_dir` returns 1 for a path of 1 to 1023 bytes, the path exists, and so does all that
  -- stands in front of one of its slashes, but for one at its start.
  pub create_dir-exists :
      (c : ℕ) (cs : List ℕ) (f : F)
      → length (c ∷ cs) ≤ max_path
      → (create_dir system (c ∷ cs) f).0 ≡ true
      → Parents [] (c ∷ cs) ((create_dir system (c ∷ cs) f).1)
        × (system.exists (c ∷ cs) ((create_dir system (c ∷ cs) f).1) ≡ true)
  unfolding create_dir create_path
  create_dir-exists c cs f short ok =
      let whole : create_dir system (c ∷ cs) f ≡ create_path (c ∷ cs) f =
        ap (λ path. create_path path f) (take_all max_path (c ∷ cs) short) in
      subst (λ o. Parents [] (c ∷ cs) (o.1) × (system.exists (c ∷ cs) (o.1) ≡ true)) (sym whole)
        (create_path-exists c cs f (ap (λ o. o.0) (sym whole) ∙ ok))
