-- ===== src/IpZone/Scanning.antt =====
-- ip_zone/ip_zone.c: where a line of a file ends.
use libeasy.Prelude.{
  ℕ, suc, ◌+◌, ◌<◌, ◌≡◌, refl, ap, subst, ◌∙◌, Bool, true, false, List, [], ◌∷◌, ◌++◌, arith, ◌==◌,
  Bool-cases, inl, inr, length,
}
use libeasy.IpZone.Load.{Scan, illegal, ended, unended, scan_line}

-- A line without its end: no CR and no LF.
abbrev pub IsText : List ℕ → Type 0
IsText [] = Unit
IsText (c ∷ cs) = ((c == 13) ≡ false) × ((c == 10) ≡ false) × IsText cs

-- LF, or CR and LF.
abbrev pub end_of : (crlf : Bool) → List ℕ
end_of false = 10 ∷ []
end_of true = 13 ∷ 10 ∷ []

pub scan_line-end_of :
    (crlf : Bool) (count : ℕ) (line rest : List ℕ)
    → IsText line
    → scan_line count (line ++ (end_of crlf ++ rest))
      ≡ ended (count + length line) (length (end_of crlf))
unfolding scan_line
scan_line-end_of true count [] rest t = ap (λ n. ended n 2) (omega arith)
scan_line-end_of false count [] [] t = ap (λ n. ended n 1) (omega arith)
scan_line-end_of false count [] (d ∷ rest) t = ap (λ n. ended n 1) (omega arith)
scan_line-end_of true count (c ∷ []) rest t = simp (t.0, t.1) (ap (λ n. ended n 2) (omega arith))
scan_line-end_of false count (c ∷ []) rest t =
    simp (t.0, t.1)
      (scan_line-end_of false (suc count) [] rest tt ∙ ap (λ n. ended n 1) (omega arith))
scan_line-end_of crlf count (c ∷ d ∷ cs) rest t =
    simp (t.0, t.1, scan_line-end_of crlf (suc count) (d ∷ cs) rest (t.2))
      (ap (λ n. ended n (length (end_of crlf))) (omega arith))

pub scan_line-unended : (count : ℕ) (tail : List ℕ) → IsText tail → scan_line count tail ≡ unended
unfolding scan_line
scan_line-unended count [] t = refl
scan_line-unended count (c ∷ []) t = simp (t.0, t.1) refl
scan_line-unended count (c ∷ d ∷ cs) t =
    simp (t.0, t.1, scan_line-unended (suc count) (d ∷ cs) (t.2)) refl

abbrev Skips : Scan → Type 0
Skips illegal = Unit
Skips (ended count skip) = 0 < skip
Skips unended = Unit

scan_line-Skips : (count : ℕ) (bytes : List ℕ) → Skips (scan_line count bytes)
unfolding scan_line
scan_line-Skips count [] = tt
scan_line-Skips count (c ∷ []) = elim (Bool-cases (c == 13)) [
  | inl cr ↦ rw (cr) tt
  | inr not_cr ↦ elim (Bool-cases (c == 10)) [
    | inl lf ↦ rw (not_cr, lf) (omega arith)
    | inr neither ↦ rw (not_cr, neither) tt
  ]
]
scan_line-Skips count (c ∷ d ∷ cs) = elim (Bool-cases (c == 13)) [
  | inl cr ↦ elim (Bool-cases (d == 10)) [
    | inl lf ↦ rw (cr, lf) (omega arith)
    | inr not_lf ↦ rw (cr, not_lf) tt
  ]
  | inr not_cr ↦ elim (Bool-cases (c == 10)) [
    | inl lf ↦ rw (not_cr, lf) (omega arith)
    | inr neither ↦ rw (not_cr, neither) (scan_line-Skips (suc count) (d ∷ cs))
  ]
]

pub skip_positive :
    (k : ℕ) (bytes : List ℕ) (count skip : ℕ) → scan_line k bytes ≡ ended count skip → 0 < skip
skip_positive k bytes count skip e = subst Skips e (scan_line-Skips k bytes)
