-- ===== src/Log/Plain.antt =====
-- elog.c: the line of a text without conversions.
use libeasy.Prelude.{
  ℕ, zero, suc, ◌≤◌, ◌≡◌, ◌≢◌, refl, ap, subst, append_assoc, ◌==◌, ◌∙◌, Bool, true, false, some,
  List, [], ◌∷◌, ◌++◌, arith, get_elem?, Bool-cases, inl, inr, if◌then◌else◌, length, min,
}
use libeasy.Prelude.Int.{pos}
use libeasy.Prelude.Slices.{append_≤, take_all}
use libeasy.Prelude.Text.{codes}
use libeasy.Log.{Log, Call, wrote, syslog, log_level_map, to_fd, log_by_level, format_buffer}
use libeasy.Log.Line.{line_whole}
use libeasy.Log.Output.{log_by_level-passes, to_destination-fd, to_fd-line}

-- A text without `%` is a format that prints itself.
unfoldable pub is_plain : List ℕ → Bool
is_plain [] = true
is_plain (b ∷ text) = if b == b'%' then false else is_plain text

is_plain-append :
    (xs ys : List ℕ) → is_plain xs ≡ true → is_plain ys ≡ true → is_plain (xs ++ ys) ≡ true
unfolding is_plain
is_plain-append [] ys h k = k
is_plain-append (x ∷ xs) ys h k = elim (Bool-cases (x == b'%')) [
  | inl percent ↦ let no : false ≡ true = rw (percent) at h in absurd (cc)
  | inr other ↦ rw (other) (is_plain-append xs ys (rw (other) at h) k)
]

name_good :
    (n : ℕ) (name : List ℕ)
    → get_elem? log_level_map n ≡ some name
    → (is_plain name ≡ true) × (length name ≤ 5) × (n ≤ 3)
unfolding is_plain
name_good zero name e =
    let m : codes "DEBUG" ≡ name = cc in
    subst (λ t. (is_plain t ≡ true) × (length t ≤ 5) × (0 ≤ 3)) m (refl, omega arith, omega arith)
name_good (suc zero) name e =
    let m : codes "INFO" ≡ name = cc in
    subst (λ t. (is_plain t ≡ true) × (length t ≤ 5) × (1 ≤ 3)) m (refl, omega arith, omega arith)
name_good (suc (suc zero)) name e =
    let m : codes "WARN" ≡ name = cc in
    subst (λ t. (is_plain t ≡ true) × (length t ≤ 5) × (2 ≤ 3)) m (refl, omega arith, omega arith)
name_good (suc (suc (suc zero))) name e =
    let m : codes "ERROR" ≡ name = cc in
    subst (λ t. (is_plain t ≡ true) × (length t ≤ 5) × (3 ≤ 3)) m (refl, omega arith, omega arith)
name_good (suc (suc (suc (suc n)))) name e = absurd (cc)

-- The text in front of the newline.
whole : (name now fmt : List ℕ) → List ℕ
whole name now fmt = codes "[" ++ (name ++ (codes "] [" ++ (now ++ (codes "] " ++ fmt))))

length-whole :
    (name now fmt : List ℕ)
    → length name ≤ 5
    → length now ≤ 31
    → length fmt ≤ 900
    → length (whole name now fmt) ≤ 942
unfolding whole
length-whole name now fmt h j k = append_≤ (codes "[") _ 1 941 (omega arith) (
    append_≤ name _ 5 936 h (
      append_≤ (codes "] [") _ 3 933 (omega arith)
        (append_≤ now _ 31 902 j (append_≤ (codes "] ") fmt 2 900 (omega arith) k))))

format_buffer-whole :
    (name now fmt : List ℕ)
    → length name ≤ 5
    → length now ≤ 31
    → length fmt ≤ 900
    → format_buffer name now fmt ≡ whole name now fmt
unfolding whole
format_buffer-whole name now fmt h j k =
    let l = length-whole name now fmt h j k in take_all 1022 (whole name now fmt) (omega arith)

whole-newline :
    (name now fmt : List ℕ)
    → whole name now fmt ++ b'\n' ∷ []
      ≡ codes "[" ++ (name ++ (codes "] [" ++ (now ++ (codes "] " ++ (fmt ++ b'\n' ∷ [])))))
unfolding whole
whole-newline name now fmt =
    let nl : List ℕ = b'\n' ∷ [] in
    ap (λ t. b'[' ∷ t) (append_assoc name (codes "] [" ++ (now ++ (codes "] " ++ fmt))) nl)
    ∙ ap (λ t. b'[' ∷ (name ++ (codes "] [" ++ t))) (append_assoc now (codes "] " ++ fmt) nl)

is_plain-whole :
    (name now fmt : List ℕ)
    → is_plain name ≡ true
    → is_plain now ≡ true
    → is_plain fmt ≡ true
    → is_plain (whole name now fmt) ≡ true
unfolding whole is_plain
is_plain-whole name now fmt h j k =
    is_plain-append name (codes "] [" ++ (now ++ (codes "] " ++ fmt))) h
      (is_plain-append now (codes "] " ++ fmt) j k)

-- On the console or a file a text without `%` of at most 900 bytes, of a level in range that is not
-- below the threshold, is written as `[LEVEL] [time] text` and a newline, in one call of `write`,
-- where the time has no `%` and at most 31 bytes, and `vsnprintf` prints a format without `%` as it
-- is.
pub log_by_level-plain :
    (c : Call) (l : Log) (n t : ℕ) (fmt name : List ℕ)
    → ((text : List ℕ) → is_plain text ≡ true → c.expand text ≡ some text)
    → l.dst ≢ syslog
    → l.level ≡ pos t
    → t ≤ n
    → get_elem? log_level_map n ≡ some name
    → is_plain c.now ≡ true
    → length c.now ≤ 31
    → is_plain fmt ≡ true
    → length fmt ≤ 900
    → log_by_level c l (pos n) fmt
      ≡ some (
        1,
        wrote l.fd (
              codes "["
              ++ (name ++ (codes "] [" ++ (c.now ++ (codes "] " ++ (fmt ++ b'\n' ∷ []))))))
            ∷ [],
      )
unfolding whole
log_by_level-plain c l n t fmt name prints d e h named pn ln pf lf =
    let good = name_good n name named in
    let same = format_buffer-whole name c.now fmt (good.1) ln lf in
    let text =
      ap c.expand same
      ∙ prints (whole name c.now fmt) (is_plain-whole name c.now fmt (good.0) pn pf) in
    let few = length-whole name c.now fmt (good.1) ln lf in
    let clamp : min n 3 ≡ n = let i = good.2 in omega arith in
    log_by_level-passes c l n t fmt e h
    ∙ to_destination-fd l.dst c l (pos (min n 3)) fmt d
    ∙ ap (λ i. to_fd c l (pos i) fmt) clamp
    ∙ to_fd-line c l n fmt name named b'[' (name ++ (codes "] [" ++ (c.now ++ (codes "] " ++ fmt))))
        text
    ∙ ap (λ bytes. some (1, wrote l.fd bytes ∷ []))
        (line_whole (whole name c.now fmt) (omega arith) ∙ whole-newline name c.now fmt)
