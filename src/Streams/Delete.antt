-- ===== src/Streams/Delete.antt =====
-- `delete_stream_from_busy_list` and `delete_stream_from_idle_list` on a list of streams.
use libeasy.Prelude.{
  ℕ, suc, ◌≡◌, refl, sym, ap, ap₂, subst, ◌∙◌, true, false, Option, none, some, List, [], ◌∷◌, ◌++◌,
  arith, ◌==◌, length, Bool-cases, inl, inr, length-append, append-nil,
}
use libeasy.Prelude.Int.{pos, ◌-ℤ◌}
use libeasy.Prelude.Maps.{
  has, has_ne, Distinct, has-append, Distinct-left, Distinct-right, Distinct-apart, Distinct-append,
}
use libeasy.Streams.{
  Store, Chain, set_next, unlink_last, unlink_next, unlink_rest, one_less, delete_stream,
}
use libeasy.Streams.Linked.{
  first, final, Linked, last_of, final-has, frame, split, join, relink_end, relink_start,
  final-some, final-append,
}
use libeasy.Streams.Chains.{IsChain, Changed, last_of-none, pos_pred}

-- A list between `p` and `n` after the stream before `n` or the one behind `p` was set anew.
unlink_last-Linked :
    (h : Store) (c : Chain) (ys : List ℕ) (n m : Option ℕ)
    → Distinct ys
    → Linked h none ys n
    → Linked ((unlink_last (final ys) m (h, c)).0) none ys m
unfolding unlink_last
unlink_last-Linked h c [] n m d l = tt
unlink_last-Linked h c (y ∷ ys) n m d l =
    let f = final-some y ys in
    let e : (unlink_last (final (y ∷ ys)) m (h, c)).0 ≡ set_next h (f.0) m =
      ap (λ t. (unlink_last t m (h, c)).0) (f.1) in
    subst (λ g. Linked g none (y ∷ ys) m) (sym e) (relink_end h none (y ∷ ys) n m (f.0) d (f.1) l)

unlink_last_same :
    (h : Store) (c : Chain) (ys : List ℕ) (m : Option ℕ) (a : ℕ)
    → has a ys ≡ false
    → (unlink_last (final ys) m (h, c)).0 a ≡ h a
unfolding unlink_last
unlink_last_same h c [] m a i = refl
unlink_last_same h c (y ∷ ys) m a i =
    let f = final-some y ys in
    let j = final-has (y ∷ ys) (f.0) (f.1) in
    let other : (f.0 == a) ≡ false = has_ne a (f.0) (y ∷ ys) i j in rw (f.1, other) refl

unlink_last_chain :
    (h : Store) (c : Chain) (x : ℕ) (ys zs : List ℕ)
    → c.head ≡ first (ys ++ x ∷ zs) none
    → (unlink_last (final ys) (first zs none) (h, c)).1 ≡ record c { head = first (ys ++ zs) none }
unfolding unlink_last
unlink_last_chain h c x [] zs e = refl
unlink_last_chain h c x (y ∷ ys) zs e = let f = final-some y ys in rw (f.1, ← e) refl

unlink_next-Linked :
    (h : Store) (c : Chain) (p q : Option ℕ) (zs : List ℕ)
    → Distinct zs
    → Linked h p zs none
    → Linked ((unlink_next q (first zs none) (h, c)).0) q zs none
unfolding unlink_next
unlink_next-Linked h c p q [] d l = tt
unlink_next-Linked h c p q (z ∷ zs) d l = relink_start h p q z zs none d l

unlink_next_same :
    (h : Store) (c : Chain) (q : Option ℕ) (zs : List ℕ) (a : ℕ)
    → has a zs ≡ false
    → (unlink_next q (first zs none) (h, c)).0 a ≡ h a
unfolding unlink_next
unlink_next_same h c q [] a i = refl
unlink_next_same h c q (z ∷ zs) a i = ground arith

unlink_next_chain :
    (h : Store) (c : Chain) (x : ℕ) (ys zs : List ℕ)
    → c.tail ≡ final (ys ++ x ∷ zs)
    → (unlink_next (final ys) (first zs none) (h, c)).1 ≡ record c { tail = final (ys ++ zs) }
unfolding unlink_next
unlink_next_chain h c x ys [] e = ap (λ t. record c { tail = t }) (ap final (sym (append-nil ys)))
unlink_next_chain h c x ys (z ∷ zs) e =
    ap (λ t. record c { tail = t }) (e ∙ final-append ys x (z ∷ zs) ∙ sym (final-append ys z zs))

module _ (h : Store) (c : Chain) (x : ℕ) (ys zs : List ℕ) (i : IsChain h c (ys ++ x ∷ zs)) where
  parts : Linked h none ys (some x) × Linked h (last_of none ys) (x ∷ zs) none
  parts = split h none ys (x ∷ zs) none i.linked

  last_is : (h x).last ≡ final ys
  last_is = parts.1.0 ∙ last_of-none ys

  next_is : (h x).next ≡ first zs none
  next_is = parts.1.1

  -- The neighbours are linked to each other, in two steps.
  once : Store × Chain
  once = unlink_last (final ys) (first zs none) (h, c)

  twice : Store × Chain
  twice = unlink_next (final ys) (first zs none) once

  left : Distinct ys
  left = Distinct-left ys (x ∷ zs) i.distinct

  right : Distinct (x ∷ zs)
  right = Distinct-right ys (x ∷ zs) i.distinct

  apart : (a : ℕ) → has a ys ≡ true → has a (x ∷ zs) ≡ false
  apart a = Distinct-apart ys (x ∷ zs) a i.distinct

  not_left : (a : ℕ) → has a (x ∷ zs) ≡ true → has a ys ≡ false
  not_left a j = elim (Bool-cases (has a ys)) [
    | inl both ↦ let no = apart a both in absurd (cc)
    | inr only ↦ only
  ]

  out : has x ys ≡ false
  out = not_left x (ground arith)

  delete_stream-twice :
      delete_stream x (h, c) ≡ (twice.0, record (twice.1) { num = twice.1.num -ℤ pos 1 })
  unfolding delete_stream once twice
  delete_stream-twice =
      let same : (once.0) x ≡ h x = unlink_last_same h c ys (first zs none) x out in
      ap₂ (λ l n. one_less (unlink_rest x (unlink_last l n (h, c)))) last_is next_is
      ∙ ap₂ (λ l n. one_less (unlink_next l n once)) (ap (λ k. k.last) same ∙ last_is)
          (ap (λ k. k.next) same ∙ next_is)

  left-Linked : Linked (twice.0) none ys (first zs none)
  unfolding once twice
  left-Linked =
      frame (once.0) (twice.0) none ys (first zs none)
        (unlink_last-Linked h c ys (some x) (first zs none) left (parts.0))
        (λ a j. unlink_next_same (once.0) (once.1) (final ys) zs a (ground (arith, apart a)))

  right-Linked : Linked (twice.0) (final ys) zs none
  unfolding once twice
  right-Linked = unlink_next-Linked (once.0) (once.1) (some x) (final ys) zs (right.1) (
      frame h (once.0) (some x) zs none (parts.1.2)
        (λ a j. unlink_last_same h c ys (first zs none) a (not_left a (ground arith))))

  chain_is : twice.1 ≡ record { head = first (ys ++ zs) none; tail = final (ys ++ zs); num = c.num }
  unfolding once twice
  chain_is =
      let e = unlink_last_chain h c x ys zs i.head_is in
      unlink_next_chain (once.0) (once.1) x ys zs (ap (λ d. d.tail) e ∙ i.tail_is)
      ∙ ap {A = Chain} {B = Chain} (λ d. record d { tail = final (ys ++ zs) }) e

  fewer : length (ys ++ x ∷ zs) ≡ suc (length (ys ++ zs))
  fewer = omega (arith, length-append ys (x ∷ zs), length-append ys zs)

  -- `delete_stream` takes a stream out of the list that it is in, and changes the links of none but
  -- its neighbours and it.
  pub delete_stream-Changed : Changed h (delete_stream x (h, c)) (ys ++ x ∷ zs) (ys ++ zs)
  unfolding once twice
  delete_stream-Changed =
      subst (λ r. Changed h r (ys ++ x ∷ zs) (ys ++ zs)) (sym delete_stream-twice)
        (record {
          now_is = record {
            head_is = ap (λ d. d.head) chain_is;
            tail_is = ap (λ d. d.tail) chain_is;
            num_is =
                ap (λ d. d.num -ℤ pos 1) chain_is
                ∙ ap (λ n. n -ℤ pos 1) (i.num_is ∙ ap pos fewer)
                ∙ pos_pred (length (ys ++ zs));
            linked =
                join (twice.0) none ys zs none left-Linked
                  (subst (λ p. Linked (twice.0) p zs none) (sym (last_of-none ys)) right-Linked);
            distinct = Distinct-append ys zs left (right.1) (λ a j. ground (arith, apart a));
          };
          others = λ a j.
              unlink_next_same (once.0) (once.1) (final ys) zs a
                (ground (arith, has-append a ys (x ∷ zs)))
              ∙ unlink_last_same h c ys (first zs none) a
                  (ground (arith, has-append a ys (x ∷ zs)));
        })
