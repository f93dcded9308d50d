-- ===== src/Log/Levels.antt =====
-- elog.c: names of levels, and `log_set_level`.
use libeasy.Prelude.{
  ℕ, zero, suc, ◌≤◌, ◌<◌, ◌≡◌, refl, sym, ap, ap₂, ◌∙◌, true, false, some, List, [], ◌∷◌, arith,
  ◌==◌, get_elem?, Bool-cases, inl, inr, map, ◌↔◌, ==_iff,
}
use libeasy.Prelude.Int.{ℤ, pos, negsuc, ltb_ℤ}
use libeasy.Prelude.Text.{codes}
use libeasy.Log.{
  Log, Call, log_level_map, log_level_str, log_level_int, same_text, lower_case, log_set_level,
  log_error, log_by_level,
}

same_text-map : (xs ys : List ℕ) → same_text xs ys ≡ true → map lower_case xs ≡ map lower_case ys
same_text-map [] [] h = refl
same_text-map [] (y ∷ ys) h = absurd (cc)
same_text-map (x ∷ xs) [] h = absurd (cc)
same_text-map (x ∷ xs) (y ∷ ys) h = elim (Bool-cases (lower_case x == lower_case y)) [
  | inl same ↦
      let rest : same_text xs ys ≡ true = rw (same) at h in
      ap₂ (λ a rest. a ∷ rest) ((==_iff (lower_case x) (lower_case y)).0 same)
        (same_text-map xs ys rest)
  | inr other ↦ let no : false ≡ true = rw (other) at h in absurd (cc)
]

same_text_self : (xs ys : List ℕ) → map lower_case xs ≡ map lower_case ys → same_text xs ys ≡ true
same_text_self [] [] h = refl
same_text_self [] (y ∷ ys) h = absurd (cc)
same_text_self (x ∷ xs) [] h = absurd (cc)
same_text_self (x ∷ xs) (y ∷ ys) h =
    let e : lower_case x ∷ map lower_case xs ≡ lower_case y ∷ map lower_case ys = h in
    let first : lower_case x ≡ lower_case y = cc in
    let same : (lower_case x == lower_case y) ≡ true =
      (==_iff (lower_case x) (lower_case y)).1 first in
    rw (same) (same_text_self xs ys (cc))

-- The name that `log_level_str` gives for a level is read back by `log_level_int` as that level.
pub log_level_int-log_level_str :
    (c : Call) (l : Log) (n : ℕ)
    → n ≤ 3
    → (name : List ℕ) × ((log_level_str c l (pos n) ≡ some (some name, []))
        × (log_level_int name ≡ pos n))
unfolding log_level_str log_level_int
log_level_int-log_level_str c l zero h = (codes "DEBUG", (refl, refl))
log_level_int-log_level_str c l (suc zero) h = (codes "INFO", (refl, refl))
log_level_int-log_level_str c l (suc (suc zero)) h = (codes "WARN", (refl, refl))
log_level_int-log_level_str c l (suc (suc (suc zero))) h = (codes "ERROR", (refl, refl))
log_level_int-log_level_str c l (suc (suc (suc (suc n)))) h = absurd (omega arith)

log_set_level_within :
    (l : Log) (n : ℕ) (w : ℤ) → l.level ≡ pos n → n ≤ 3 → log_set_level l w ≡ record l { level = w }
unfolding log_set_level
log_set_level_within l n w e h =
    let above : ltb_ℤ (pos n) (pos 0) ≡ false = ground arith in
    let below : ltb_ℤ (pos 3) (pos n) ≡ false = ground arith in rw (e, above, below) refl

log_set_level_above :
    (l : Log) (n : ℕ) (w : ℤ)
    → l.level ≡ pos n
    → 3 < n
    → log_set_level l w ≡ record l { level = pos 3 }
unfolding log_set_level
log_set_level_above l n w e h =
    let above : ltb_ℤ (pos n) (pos 0) ≡ false = ground arith in
    let below : ltb_ℤ (pos 3) (pos n) ≡ true = ground arith in rw (e, above, below) refl

log_error_above :
    (c : Call) (l : Log) (v : ℕ) (fmt : List ℕ)
    → l.level ≡ pos v
    → 3 < v
    → log_error c l fmt ≡ some (1, [])
unfolding log_error log_by_level
log_error_above c l v fmt e h =
    let below : ltb_ℤ (pos 3) (pos v) ≡ true = ground arith in rw (e, below) refl

-- Where the level is one of 0 to 3, a level above them is taken as it is: then `log_error` writes
-- nothing, and the next `log_set_level` sets 3, whatever it is given.
pub log_set_level_twice :
    (c : Call) (l : Log) (n v : ℕ) (w : ℤ) (fmt : List ℕ)
    → l.level ≡ pos n
    → n ≤ 3
    → 3 < v
    → (log_error c (log_set_level l (pos v)) fmt ≡ some (1, []))
      × ((log_set_level (log_set_level l (pos v)) w).level ≡ pos 3)
log_set_level_twice c l n v w fmt e h k =
    let l' = log_set_level l (pos v) in
    let set : l'.level ≡ pos v = ap (λ l. l.level) (log_set_level_within l n (pos v) e h) in
    (log_error_above c l' v fmt set k, ap (λ l. l.level) (log_set_level_above l' v w set k))

same_text-cong :
    (xs xs' ys : List ℕ)
    → map lower_case xs ≡ map lower_case xs'
    → same_text xs ys ≡ same_text xs' ys
same_text-cong xs xs' ys e = elim (Bool-cases (same_text xs ys)) [
  | inl is_so ↦ is_so ∙ sym (same_text_self xs' ys (sym e ∙ same_text-map xs ys is_so))
  | inr is_not ↦ elim (Bool-cases (same_text xs' ys)) [
    | inl is_so ↦
        let y : same_text xs ys ≡ true = same_text_self xs ys (e ∙ same_text-map xs' ys is_so) in
        absurd (cc)
    | inr is_not' ↦ is_not ∙ sym is_not'
  ]
]

log_level_int-cong :
    (xs xs' : List ℕ)
    → map lower_case xs ≡ map lower_case xs'
    → log_level_int xs ≡ log_level_int xs'
unfolding log_level_int
log_level_int-cong xs xs' e =
    rw
      (
        same_text-cong xs xs' (codes "debug") e,
        same_text-cong xs xs' (codes "info") e,
        same_text-cong xs xs' (codes "warn") e,
        same_text-cong xs xs' (codes "error") e,
      )
      refl

log_level_int-name :
    (n : ℕ) (name : List ℕ) → get_elem? log_level_map n ≡ some name → log_level_int name ≡ pos n
unfolding log_level_int
log_level_int-name zero name e = let n : codes "DEBUG" ≡ name = cc in ap log_level_int (sym n)
log_level_int-name (suc zero) name e = let n : codes "INFO" ≡ name = cc in ap log_level_int (sym n)
log_level_int-name (suc (suc zero)) name e =
    let n : codes "WARN" ≡ name = cc in ap log_level_int (sym n)
log_level_int-name (suc (suc (suc zero))) name e =
    let n : codes "ERROR" ≡ name = cc in ap log_level_int (sym n)
log_level_int-name (suc (suc (suc (suc n)))) name e = absurd (cc)

name_at :
    (text name : List ℕ) (k n : ℕ)
    → pos k ≡ pos n
    → get_elem? log_level_map k ≡ some name
    → map lower_case text ≡ map lower_case name
    → (name : List ℕ) × ((get_elem? log_level_map n ≡ some name)
        × (map lower_case text ≡ map lower_case name))
name_at text name k n h e m =
    let same : n ≡ k = cc in (name, (ap (λ i. get_elem? log_level_map i) same ∙ e, m))

-- The name of the level that a text was read as.
named_by :
    (text : List ℕ) (n : ℕ)
    → log_level_int text ≡ pos n
    → (name : List ℕ) × ((get_elem? log_level_map n ≡ some name)
        × (map lower_case text ≡ map lower_case name))
unfolding log_level_int
named_by text n h = elim (Bool-cases (same_text text (codes "debug"))) [
  | inl debug ↦ name_at text (codes "DEBUG") 0 n (rw (debug) at h) refl (same_text-map text _ debug)
  | inr a ↦ elim (Bool-cases (same_text text (codes "info"))) [
    | inl info ↦
        name_at text (codes "INFO") 1 n (rw (a, info) at h) refl (same_text-map text _ info)
    | inr b ↦ elim (Bool-cases (same_text text (codes "warn"))) [
      | inl warn ↦
          name_at text (codes "WARN") 2 n (rw (a, b, warn) at h) refl (same_text-map text _ warn)
      | inr c ↦ elim (Bool-cases (same_text text (codes "error"))) [
        | inl error ↦
            name_at text (codes "ERROR") 3 n (rw (a, b, c, error) at h) refl
              (same_text-map text _ error)
        | inr d ↦ let z : negsuc 0 ≡ pos n = rw (a, b, c, d) at h in absurd (cc)
      ]
    ]
  ]
]

-- `log_level_int` answers a level that has a name just for the texts that are this name up to case.
pub log_level_int_iff :
    (level_str : List ℕ) (n : ℕ) (name : List ℕ)
    → get_elem? log_level_map n ≡ some name
    → (log_level_int level_str ≡ pos n) ↔ (map lower_case level_str ≡ map lower_case name)
log_level_int_iff level_str n name e = (
  λ h.
      let named = named_by level_str n h in
      let same : named.0 ≡ name = cc in named.1.1 ∙ ap (λ t. map lower_case t) same,
  λ h. log_level_int-cong level_str name h ∙ log_level_int-name n name e,
)
