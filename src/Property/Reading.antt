-- ===== src/Property/Reading.antt =====
-- eproperty.c: the item of a line, and the reading of a file.
use libeasy.Prelude.{
  ℕ, zero, suc, ◌+◌, ◌-◌, ◌≤◌, ◌≡◌, refl, sym, ap, ap₂, ◌∙◌, true, false, some, List, [], ◌∷◌, ◌++◌,
  arith, length, length-append, drop, take, replicate, append_assoc, Bool-cases, inl, inr,
  take-append-drop,
}
use libeasy.Prelude.Slices.{drop-length, drop-append, drop-drop}
use libeasy.Strings.{is_white, all_white, leading, text_of, char_at}
use libeasy.Strings.Trailing.{strip_start, strip_end, unless_last, set-append, length-strip_end}
use libeasy.Property.{trim_at, place_of, item_in}
use libeasy.Property.Item.{
  is_free, is_free-append, is_free_cons, is_free-strip_start, is_free-strip_end, text_of-zero,
  text_of-replicate, text_of-replicate-zero, char_from-append, strip_end-append, strip_end_dark,
  all_white-append, all_white_dark, all_white-strip_start, leading-strip_start, drop-leading,
  length-leading, leading-append, trim_at-text,
}

pub replicate-append : (j k : ℕ) → replicate {A = ℕ} j 0 ++ replicate k 0 ≡ replicate (j + k) 0
replicate-append zero k = let e : k ≡ 0 + k = omega arith in ap (λ n. replicate {A = ℕ} n 0) e
replicate-append (suc j) k =
    let e : suc (j + k) ≡ suc j + k = omega arith in
    ap (λ t. 0 ∷ t) (replicate-append j k) ∙ ap (λ n. replicate {A = ℕ} n 0) e

length-replicate : (n : ℕ) → length (replicate {A = ℕ} n 0) ≡ n
length-replicate zero = refl
length-replicate (suc n) = ap suc (length-replicate n)

strip_end_idem : (xs : List ℕ) → strip_end (strip_end xs) ≡ strip_end xs
unfolding strip_end
strip_end_idem [] = refl
strip_end_idem (x ∷ xs) = strip_end-unless_last x (strip_end xs) (strip_end_idem xs)
  where
    strip_end-unless_last :
        (x : ℕ) (t : List ℕ) → strip_end t ≡ t → strip_end (unless_last x t) ≡ unless_last x t
    strip_end-unless_last x [] h = elim (Bool-cases (is_white x)) [
      | inl white ↦ rw (white) refl
      | inr other ↦ rw (other, other) refl
    ]
    strip_end-unless_last x (y ∷ t) h = ap (λ r. unless_last x r) h

module _ (key value : List ℕ) (filled : all_white key ≡ false) where
  blanks : List ℕ
  blanks = take (leading key) key

  blanks-strip_start : blanks ++ strip_start key ≡ key
  unfolding blanks
  blanks-strip_start =
      ap (λ t. take (leading key) key ++ t) (sym (drop-leading key))
      ∙ take-append-drop (leading key) key

  length-blanks : length blanks ≡ leading key
  length-blanks =
      let e = ap length blanks-strip_start in
      omega (arith, length-append blanks (strip_start key), length-leading key)

  -- The line is trimmed.
  trim_at-line :
      (k : ℕ)
      → is_free 0 key ≡ true
      → is_free 0 value ≡ true
      → (k' : ℕ) × (trim_at 0 ((key ++ b'=' ∷ value) ++ replicate k 0)
          ≡ some (leading key, key ++ b'=' ∷ (strip_end value ++ replicate k' 0)))
  trim_at-line k f g =
      let line = key ++ b'=' ∷ value in
      let d = length line - length (strip_end line) in
      let free = is_free-append 0 key (b'=' ∷ value) f (is_free_cons 0 b'=' value refl g) in
      let start : 0 + leading line ≡ leading key =
        let e = leading-append key (b'=' ∷ value) filled in omega arith in
      let stripped : strip_end line ≡ key ++ b'=' ∷ strip_end value =
        strip_end-append key (b'=' ∷ value) (all_white_dark b'=' value refl)
        ∙ ap (λ t. key ++ t) (strip_end_dark b'=' value refl) in
      (
        d + k,
        trim_at-text [] line (replicate k 0) (text_of-replicate line k free)
              (all_white-append key (b'=' ∷ value) (all_white_dark b'=' value refl)) refl
            ∙ ap₂ (λ p t. some (p, t ++ (replicate d 0 ++ replicate k 0))) start stripped
            ∙ ap (λ t. some (leading key, (key ++ b'=' ∷ strip_end value) ++ t))
                (replicate-append d k)
            ∙ ap (λ t. some (leading key, t))
                (append_assoc key (b'=' ∷ strip_end value) (replicate (d + k) 0)),
      )

  -- Then the value, behind the zero that was put for the equals sign.
  trim_at-value :
      (k : ℕ)
      → is_free 0 value ≡ true
      → (k' : ℕ) × (trim_at (length key + 1) (key ++ 0 ∷ (strip_end value ++ replicate k 0))
          ≡ some (
            length key + 1 + leading (strip_end value),
            key ++ 0 ∷ (strip_end value ++ replicate k' 0),
          ))
  trim_at-value k g =
      let a = strip_end value in
      let pre = key ++ 0 ∷ [] in
      let d = length a - length (strip_end a) in
      let at : length pre ≡ length key + 1 = length-append key (0 ∷ []) in
      let whole : strip_end (pre ++ a) ≡ pre ++ strip_end a =
        ap strip_end (append_assoc key (0 ∷ []) a)
        ∙ strip_end-append key (0 ∷ a) (all_white_dark 0 a refl)
        ∙ ap (λ t. key ++ t) (strip_end_dark 0 a refl)
        ∙ sym (append_assoc key (0 ∷ []) (strip_end a)) in
      let dark : all_white (pre ++ a) ≡ false =
        ap all_white (append_assoc key (0 ∷ []) a)
        ∙ all_white-append key (0 ∷ a) (all_white_dark 0 a refl) in
      (
        d + k,
        ap₂ (λ p t. trim_at p t) (sym at) (sym (append_assoc key (0 ∷ []) (a ++ replicate k 0)))
            ∙ trim_at-text pre a (replicate k 0)
                (text_of-replicate a k (is_free-strip_end 0 value g)) dark whole
            ∙ ap₂ (λ p t. some (p + leading a, pre ++ (t ++ (replicate d 0 ++ replicate k 0)))) at
                (strip_end_idem value)
            ∙ ap (λ t. some (length key + 1 + leading a, pre ++ (a ++ t))) (replicate-append d k)
            ∙ ap (λ t. some (length key + 1 + leading a, t))
                (append_assoc key (0 ∷ []) (a ++ replicate (d + k) 0)),
      )

  -- Then the key, in front of the zero.
  front : List ℕ
  front =
      (blanks ++ strip_end (strip_start key))
      ++ replicate (length (strip_start key) - length (strip_end (strip_start key))) 0

  trim_at-key :
      (ys : List ℕ)
      → is_free 0 key ≡ true
      → trim_at (leading key) (key ++ 0 ∷ ys) ≡ some (leading key, front ++ 0 ∷ ys)
  unfolding front
  trim_at-key ys f =
      let s = strip_start key in
      let d = length s - length (strip_end s) in
      let dark = all_white-strip_start key filled in
      let start : length blanks + leading s ≡ leading key =
        let e = leading-strip_start key in omega (arith, length-blanks) in
      ap₂ (λ p t. trim_at p (t ++ 0 ∷ ys)) (sym length-blanks) (sym blanks-strip_start)
      ∙ ap (λ t. trim_at (length blanks) t) (append_assoc blanks s (0 ∷ ys))
      ∙ trim_at-text blanks s (0 ∷ ys) (text_of-zero s ys (is_free-strip_start 0 key f))
          (all_white-append blanks s dark) (strip_end-append blanks s dark)
      ∙ ap₂ (λ p t. some (p, t)) start
          (sym (append_assoc blanks (strip_end s) (replicate d 0 ++ 0 ∷ ys))
            ∙ sym (append_assoc (blanks ++ strip_end s) (replicate d 0) (0 ∷ ys)))

  length-front : length front ≡ length key
  unfolding front
  length-front =
      let s = strip_start key in
      let d = length s - length (strip_end s) in
      omega (
        arith,
        length-append (blanks ++ strip_end s) (replicate d 0),
        length-append blanks (strip_end s),
        length-replicate d,
        length-blanks,
        length-strip_end s,
        length-leading key,
      )

  -- What the key and the value are read as.
  read_key :
      (ys : List ℕ)
      → is_free 0 key ≡ true
      → text_of (drop (leading key) (front ++ 0 ∷ ys)) ≡ strip_end (strip_start key)
  unfolding front
  read_key ys f =
      let s = strip_start key in
      let d = length s - length (strip_end s) in
      ap (λ t. text_of (drop (leading key) t))
        (append_assoc (blanks ++ strip_end s) (replicate d 0) (0 ∷ ys)
          ∙ append_assoc blanks (strip_end s) (replicate d 0 ++ 0 ∷ ys))
      ∙ ap text_of (
          drop-length blanks (strip_end s ++ (replicate d 0 ++ 0 ∷ ys)) (leading key)
            (sym length-blanks))
      ∙ text_of-replicate-zero (strip_end s) d ys
          (is_free-strip_end 0 s (is_free-strip_start 0 key f))

  read_value :
      (k : ℕ)
      → is_free 0 value ≡ true
      → text_of (
          drop
            (length key + 1 + leading (strip_end value))
            (front ++ 0 ∷ (strip_end value ++ replicate k 0)))
        ≡ strip_start (strip_end value)
  read_value k g =
      let a = strip_end value in
      let ys = a ++ replicate k 0 in
      let one : length key + 1 ≡ length (front ++ 0 ∷ []) =
        omega (arith, length-append front (0 ∷ []), length-front) in
      let inside : leading a ≤ length a = omega (arith, length-leading a) in
      ap text_of (
        sym (drop-drop (length key + 1) (leading a) (front ++ 0 ∷ ys))
        ∙ ap (λ t. drop (leading a) (drop (length key + 1) t))
            (sym (append_assoc front (0 ∷ []) ys))
        ∙ ap (λ t. drop (leading a) t) (drop-length (front ++ 0 ∷ []) ys (length key + 1) one)
        ∙ drop-append (leading a) a (replicate k 0) inside
        ∙ ap (λ t. t ++ replicate k 0) (drop-leading a))
      ∙ text_of-replicate (strip_start a) k (is_free-strip_start 0 a (is_free-strip_end 0 value g))

  -- The place of the equals sign.
  place_of_equals :
      (k : ℕ)
      → is_free 0 key ≡ true
      → is_free b'=' key ≡ true
      → is_free 0 value ≡ true
      → place_of (leading key) (
          char_at
            (some (text_of (drop (leading key) (key ++ b'=' ∷ (strip_end value ++ replicate k 0)))))
            b'=')
        ≡ some (length key)
  place_of_equals k f e g =
      let a = strip_end value in
      let s = strip_start key in
      let inside : leading key ≤ length key = omega (arith, length-leading key) in
      let free : is_free 0 (s ++ b'=' ∷ a) ≡ true =
        is_free-append 0 s (b'=' ∷ a) (is_free-strip_start 0 key f)
          (is_free_cons 0 b'=' a refl (is_free-strip_end 0 value g)) in
      let text : text_of (drop (leading key) (key ++ b'=' ∷ (a ++ replicate k 0))) ≡ s ++ b'=' ∷ a =
        ap text_of (
          drop-append (leading key) key (b'=' ∷ (a ++ replicate k 0)) inside
          ∙ ap (λ t. t ++ b'=' ∷ (a ++ replicate k 0)) (drop-leading key)
          ∙ sym (append_assoc s (b'=' ∷ a) (replicate k 0)))
        ∙ text_of-replicate (s ++ b'=' ∷ a) k free in
      let all : leading key + (0 + length s) ≡ length key = omega (arith, length-leading key) in
      ap (λ t. place_of (leading key) (char_at (some t) b'=')) text
      ∙ ap (λ i. place_of (leading key) i)
          (char_from-append 0 b'=' s a (is_free-strip_start b'=' key e))
      ∙ ap some all

-- A line `key = value` gives the item of the key without the blanks around it and the value without
-- those around it, where the key is not blank and has no equals sign, and neither has a zero.
pub item_in-strip :
    (key value : List ℕ) (k : ℕ)
    → all_white key ≡ false
    → is_free 0 key ≡ true
    → is_free b'=' key ≡ true
    → is_free 0 value ≡ true
    → item_in ((key ++ b'=' ∷ value) ++ replicate k 0)
      ≡ some (strip_end (strip_start key), strip_start (strip_end value))
unfolding item_in
item_in-strip key value k filled f e g =
    let one = trim_at-line key value filled k f g in
    let two = trim_at-value key value filled (one.0) g in
    rw
      (
        one.1,
        place_of_equals key value filled (one.0) f e g,
        set-append key b'=' 0 (strip_end value ++ replicate (one.0) 0),
        two.1,
        trim_at-key key value filled (strip_end value ++ replicate (two.0) 0) f,
      )
      (ap₂ (λ a b. some (a, b))
        (read_key key value filled (strip_end value ++ replicate (two.0) 0) f)
        (read_value key value filled (two.0) g))
