-- ===== src/Streams/Add.antt =====
-- `add_stream_into_busy_list` and `add_stream_into_idle_list` on a list of streams.
use libeasy.Prelude.{
  ℕ, ◌≡◌, refl, sym, ap, ap₂, subst, ◌∙◌, true, false, none, some, List, [], ◌∷◌, ◌++◌, arith, ◌==◌,
  length, length-append,
}
use libeasy.Prelude.Int.{pos, ◌+ℤ◌}
use libeasy.Prelude.Maps.{has, has_ne, Distinct-append}
use libeasy.Streams.{Store, Chain, set_next, set_last, add_at, add_behind, add_stream}
use libeasy.Streams.Linked.{
  final, Linked, last_of, final-has, frame, join, relink_end, final-some, final-append,
}
use libeasy.Streams.Chains.{IsChain, Changed, last_of-none, pos_suc}

module _ (h : Store) (c : Chain) (x t : ℕ) where
  behind : Store
  behind = set_last (set_next (set_next h t (some x)) x none) x (some t)

  behind_other : (a : ℕ) → (x == a) ≡ false → behind a ≡ set_next h t (some x) a
  unfolding behind
  behind_other a n = rw (n) refl

  behind_self : behind x ≡ record { last = some t; next = none }
  unfolding behind
  behind_self = let self : (x == x) ≡ true = ground arith in rw (self) refl

  add_behind-Changed :
      (y : ℕ) (ys : List ℕ)
      → IsChain h c (y ∷ ys)
      → has x (y ∷ ys) ≡ false
      → final (y ∷ ys) ≡ some t
      → Changed h (add_behind t x (h, c)) (x ∷ y ∷ ys) (y ∷ ys ++ x ∷ [])
  unfolding behind
  add_behind-Changed y ys i o f =
      let xs = y ∷ ys in
      let link : Linked behind none xs (some x) =
        frame (set_next h t (some x)) behind none xs (some x)
          (relink_end h none xs none (some x) t i.distinct f i.linked)
          (λ a j. behind_other a (has_ne_self a j)) in
      let at_end : Linked behind (last_of none xs) (x ∷ []) none = (
        ap (λ k. k.last) behind_self ∙ sym (last_of-none xs ∙ f),
        ap (λ k. k.next) behind_self,
        tt,
      ) in
      record {
        now_is = record {
          head_is = i.head_is;
          tail_is = sym (final-append xs x []);
          num_is =
              ap (λ n. n +ℤ pos 1) i.num_is
              ∙ pos_suc (length xs)
              ∙ ap pos (omega (arith, length-append xs (x ∷ [])));
          linked = join behind none xs (x ∷ []) none link at_end;
          distinct =
              Distinct-append xs (x ∷ []) i.distinct (refl, tt)
                (λ a j. let n = has_ne x a xs o j in ground arith);
        };
        others = λ a j.
            let free : has a xs ≡ false = ground arith in
            let n = has_ne a t xs free (final-has xs t f) in
            let m : (x == a) ≡ false = ground arith in behind_other a m ∙ rw (n) refl;
      }
    where
      has_ne_self : (a : ℕ) → has a (y ∷ ys) ≡ true → (x == a) ≡ false
      has_ne_self a j = let n = has_ne x a (y ∷ ys) o j in ground arith

-- `add_stream` puts a stream behind the others, and changes the links of none but it and the one
-- before it.
pub add_stream-Changed :
    (h : Store) (c : Chain) (x : ℕ) (xs : List ℕ)
    → IsChain h c xs
    → has x xs ≡ false
    → Changed h (add_stream x (h, c)) (x ∷ xs) (xs ++ x ∷ [])
unfolding add_stream add_at
add_stream-Changed h c x [] i o =
    subst (λ hd. Changed h (add_at hd c.tail x (h, c)) (x ∷ []) (x ∷ [])) (sym i.head_is)
      (record {
        now_is = record {
          head_is = refl;
          tail_is = refl;
          num_is = ap (λ n. n +ℤ pos 1) i.num_is ∙ pos_suc 0;
          linked = (ground arith, ground arith, tt);
          distinct = (refl, tt);
        };
        others = λ a j. ground arith;
      })
add_stream-Changed h c x (y ∷ ys) i o =
    let f = final-some y ys in
    subst (λ r. Changed h r (x ∷ y ∷ ys) (y ∷ ys ++ x ∷ []))
      (ap₂ (λ hd tl. add_at hd tl x (h, c)) (sym i.head_is) (sym (f.1) ∙ sym i.tail_is))
      (add_behind-Changed h c x (f.0) y ys i o (f.1))
