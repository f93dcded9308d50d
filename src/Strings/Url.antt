-- ===== src/Strings/Url.antt =====
-- estring.c: `split_url`.
use libeasy.Prelude.{
  ℕ, zero, suc, ◌+◌, ◌-◌, ◌≤◌, ◌<◌, ◌≡◌, refl, sym, ap, ap₂, ◌∙◌, Bool, true, false, Option, none,
  some, List, [], ◌∷◌, ◌++◌, arith, length, length-take, length-drop, take, drop, take-append-drop,
  append-nil, ltb, ◌==◌, if◌then◌else◌, Bool-cases, inl, inr, ◌⊎◌, get_elem?,
}
use libeasy.Prelude.Int.{pos}
use libeasy.Prelude.Slices.{take_all, take-take, drop_all, drop-append}
use libeasy.Strings.{slash, last_slash, split_at, ends_with_slash, split_text, split_url}

pub has_slash : List ℕ → Bool
has_slash [] = false
has_slash (b ∷ text) = let rest = has_slash text in if b == slash then true else rest

has_slash-snoc :
    (xs : List ℕ) (b : ℕ)
    → has_slash xs ≡ false
    → (b == slash) ≡ false
    → has_slash (xs ++ b ∷ []) ≡ false
unfolding has_slash
has_slash-snoc [] b h k = rw (k) refl
has_slash-snoc (x ∷ xs) b h k = elim (Bool-cases (x == slash)) [
  | inl hit ↦ let no : true ≡ false = rw (hit) at h in absurd (cc)
  | inr miss ↦ rw (miss) (has_slash-snoc xs b (rw (miss) at h) k)
]

take-suc :
    (k : ℕ) (xs : List ℕ) (b : ℕ) → get_elem? xs k ≡ some b → take (suc k) xs ≡ take k xs ++ b ∷ []
take-suc k [] b e = absurd (cc)
take-suc zero (x ∷ xs) b e = let same : x ≡ b = cc in ap (λ c. c ∷ []) same
take-suc (suc k) (x ∷ xs) b e = ap (λ t. x ∷ t) (take-suc k xs b e)

get_elem?-some : (xs : List ℕ) (k : ℕ) → k < length xs → (b : ℕ) × (get_elem? xs k ≡ some b)
get_elem?-some [] k h = absurd (omega arith)
get_elem?-some (x ∷ xs) zero h = (x, refl)
get_elem?-some (x ∷ xs) (suc k) h = get_elem?-some xs k (omega arith)

-- What the backward loop finds among the first `k` bytes.
data LastSlash (url : List ℕ) (k : ℕ) : Option ℕ → Type 0 where
  absent : has_slash (take k url) ≡ false → LastSlash url k none
  found :
      (i : ℕ)
      → i < k
      → get_elem? url i ≡ some slash
      → has_slash (drop (suc i) (take k url)) ≡ false
      → LastSlash url k (some i)

LastSlash-suc :
    (url : List ℕ) (k b : ℕ) (r : Option ℕ)
    → k < length url
    → get_elem? url k ≡ some b
    → (b == slash) ≡ false
    → LastSlash url k r
    → LastSlash url (suc k) r
LastSlash-suc url k b none h e miss (absent n) =
    absent (ap has_slash (take-suc k url b e) ∙ has_slash-snoc (take k url) b n miss)
LastSlash-suc url k b (some j) h e miss (found i l s n) =
    let short = length-take k url in
    found i (omega arith) s (
      ap (λ t. has_slash (drop (suc i) t)) (take-suc k url b e)
      ∙ ap has_slash (drop-append (suc i) (take k url) (b ∷ []) (ground arith))
      ∙ has_slash-snoc (drop (suc i) (take k url)) b n miss)

last_slash-LastSlash : (k : ℕ) (url : List ℕ) → k ≤ length url → LastSlash url k (last_slash k url)
unfolding last_slash has_slash
last_slash-LastSlash zero url h = absent refl
last_slash-LastSlash (suc k) url h =
    let r = get_elem?-some url k (omega arith) in
    let b = r.0 in
    rw (r.1) (elim (Bool-cases (b == slash)) [
      | inl hit ↦
          let same : b ≡ slash = ground arith in
          rw (hit) (
            found k (omega arith) (r.1 ∙ ap some same) (
              ap has_slash
                (drop_all (suc k) (take (suc k) url) (ground (arith, length-take (suc k) url)))))
      | inr miss ↦ rw (miss) (
          LastSlash-suc url k b (last_slash k url) (omega arith) (r.1) miss
            (last_slash-LastSlash k url (omega arith)))
    ])

ends_with_slash-snoc : (xs : List ℕ) → ends_with_slash (xs ++ slash ∷ []) ≡ true
ends_with_slash-snoc [] = refl
ends_with_slash-snoc (x ∷ []) = refl
ends_with_slash-snoc (x ∷ y ∷ xs) = ends_with_slash-snoc (y ∷ xs)

-- The two parts of an url: the path, which is empty or ends with a slash, and the name, without one.
pub record IsSplit (url path name : List ℕ) : Type 0 where
  pub whole : path ++ name ≡ url
  pub path_ends : (path ≡ []) ⊎ (ends_with_slash path ≡ true)
  pub name_plain : has_slash name ≡ false

take_smaller : (m k : ℕ) (xs : List ℕ) → take (if ltb m k then m else k) xs ≡ take m (take k xs)
take_smaller m k xs = elim (Bool-cases (ltb m k)) [
  | inl less ↦ rw (less) (sym (take-take m k xs (ground arith)))
  | inr more ↦ rw (more) (sym (take_all m (take k xs) (ground (arith, length-take k xs))))
]

take_capped :
    (n l : ℕ) (xs : List ℕ) → l ≡ length xs → take (if ltb n l then n else l) xs ≡ take n xs
take_capped n l xs e = take_smaller n l xs ∙ ap (λ t. take n t) (take_all l xs (omega arith))

-- The split at what the backward loop finds.
split_at-IsSplit :
    (m n : ℕ) (url : List ℕ) (r : Option ℕ)
    → LastSlash url (length url) r
    → (path : List ℕ) × (name : List ℕ) × IsSplit url path name
      × (split_at (suc m) (suc n) url r ≡ (take m path, take n name))
unfolding has_slash
split_at-IsSplit m n url none (absent h) = (
  [],
  url,
  record {
    whole = refl;
    path_ends = inl refl;
    name_plain = ap has_slash (sym (take_all (length url) url (omega arith))) ∙ h;
  },
  ap₂ (λ p q. (p, q)) (sym (take_all m [] (omega arith)))
      (let e : suc n - 1 ≡ n = omega arith in ap (λ k. take k url) e),
)
split_at-IsSplit m n url (some j) (found i l s h) =
    let em : suc m - 1 ≡ m = omega arith in
    let en : suc n - 1 ≡ n = omega arith in
    let ei : i + 1 ≡ suc i = omega arith in
    let d = length-drop (suc i) url in
    (
      take (suc i) url,
      drop (suc i) url,
      record {
        whole = take-append-drop (suc i) url;
        path_ends =
            inr (ap ends_with_slash (take-suc i url slash s) ∙ ends_with_slash-snoc (take i url));
        name_plain =
            ap (λ t. has_slash (drop (suc i) t)) (sym (take_all (length url) url (omega arith)))
            ∙ h;
      },
      rw (em, en, ei)
          (ap₂ (λ p q. (p, q)) (take_smaller m (suc i) url)
            (take_capped n (length url - suc i) (drop (suc i) url) (omega arith))),
    )

split_text-IsSplit :
    (m n : ℕ) (url : List ℕ)
    → (path : List ℕ) × (name : List ℕ) × IsSplit url path name
      × (split_text (suc m) (suc n) url ≡ (take m path, take n name))
unfolding split_text has_slash
split_text-IsSplit m n [] = (
  [],
  [],
  record { whole = refl; path_ends = inl refl; name_plain = refl },
  ap₂ (λ p q. (p, q)) (sym (take_all m [] (omega arith))) (sym (take_all n [] (omega arith))),
)
split_text-IsSplit m n (b ∷ url) = elim (Bool-cases (ends_with_slash (b ∷ url))) [
  | inl ends ↦
      let e : suc m - 1 ≡ m = omega arith in
      (
        b ∷ url,
        [],
        record { whole = append-nil (b ∷ url); path_ends = inr ends; name_plain = refl },
        rw (ends) (
            ap₂ (λ p q. (p, q)) (ap (λ k. take k (b ∷ url)) e) (sym (take_all n [] (omega arith)))),
      )
  | inr other ↦
      let r =
        split_at-IsSplit m n (b ∷ url) (last_slash (length (b ∷ url)) (b ∷ url))
          (last_slash-LastSlash (length (b ∷ url)) (b ∷ url) (omega arith)) in
      (r.0, r.1, r.2, rw (other) (r.3))
]

split_url-split_text :
    (m n : ℕ) (url : List ℕ)
    → split_url (some url) (pos (suc m)) (pos (suc n)) ≡ some (split_text (suc m) (suc n) url)
unfolding split_url
split_url-split_text m n url =
    let a : (suc m == 0) ≡ false = ground arith in
    let b : (suc n == 0) ≡ false = ground arith in rw (a, b) refl

-- With room for a zero in both buffers `split_url` parts a text behind its last slash into a path,
-- which is empty or ends with a slash, and a name without one, and gives of each as much as fits in
-- front of the zero.
pub split_url-IsSplit :
    (m n : ℕ) (url : List ℕ)
    → (path : List ℕ) × (name : List ℕ) × IsSplit url path name
      × (split_url (some url) (pos (suc m)) (pos (suc n)) ≡ some (take m path, take n name))
split_url-IsSplit m n url =
    let r = split_text-IsSplit m n url in
    (r.0, r.1, r.2, split_url-split_text m n url ∙ ap some (r.3))
