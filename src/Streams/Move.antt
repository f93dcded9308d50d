-- ===== src/Streams/Move.antt =====
-- Two lists over the same streams, as the busy and the idle list are, and a stream that goes from one
-- to the other.
use libeasy.Prelude.{ℕ, ◌≡◌, true, false, ◌||◌, List, [], ◌∷◌, ◌++◌, arith, Bool-cases, inl, inr}
use libeasy.Prelude.Maps.{has, has-append, has_ne, Distinct-right, Distinct-apart}
use libeasy.Streams.{Store, Chain, delete_stream, add_stream}
use libeasy.Streams.Chains.{IsChain, frame-IsChain}
use libeasy.Streams.Delete.{delete_stream-Changed}
use libeasy.Streams.Add.{add_stream-Changed}

-- The lists are `xs` and `ys`, and have no stream in common.
pub record AreChains (h : Store) (c d : Chain) (xs ys : List ℕ) : Type 0 where
  pub left : IsChain h c xs
  pub right : IsChain h d ys
  pub apart : (a : ℕ) → has a xs ≡ true → has a ys ≡ false

pub flip :
    (h : Store) (c d : Chain) (xs ys : List ℕ) → AreChains h c d xs ys → AreChains h d c ys xs
flip h c d xs ys i = record {
  left = i.right;
  right = i.left;
  apart = λ a j. elim (Bool-cases (has a xs)) [
    | inl k ↦ let no = i.apart a k in absurd (cc)
    | inr k ↦ k
  ];
}

-- A stream of neither list goes to the end of the second.
pub add-AreChains :
    (h : Store) (c d : Chain) (xs ys : List ℕ) (x : ℕ)
    → AreChains h c d xs ys
    → has x xs ≡ false
    → has x ys ≡ false
    → AreChains ((add_stream x (h, d)).0) c ((add_stream x (h, d)).1) xs (ys ++ x ∷ [])
add-AreChains h c d xs ys x i no_left no_right =
    let now = add_stream-Changed h d x ys i.right no_right in
    record {
      left =
          frame-IsChain h ((add_stream x (h, d)).0) c xs i.left
            (λ a j. now.others a (ground (arith, has_ne x a xs no_left j, i.apart a j)));
      right = now.now_is;
      apart = λ a j. ground (arith, has_ne x a xs no_left j, i.apart a j, has-append a ys (x ∷ []));
    }

module _ (h : Store) (c d : Chain) (x : ℕ) (ys zs ws : List ℕ) where
  abbrev pub move : Store × Chain × Chain
  move = let r = delete_stream x (h, c) in let q = add_stream x (r.0, d) in (q.0, r.1, q.1)

  gone : IsChain h c (ys ++ x ∷ zs) → has x (ys ++ zs) ≡ false
  gone i = elim (Bool-cases (has x ys)) [
    | inl k ↦ absurd (ground (arith, Distinct-apart ys (x ∷ zs) x i.distinct k))
    | inr k ↦ ground (arith, has-append x ys zs, (Distinct-right ys (x ∷ zs) i.distinct).0)
  ]

  -- A stream of the first list, wherever it stands, goes to the end of the second.
  pub move-AreChains :
      AreChains h c d (ys ++ x ∷ zs) ws
      → AreChains (move.0) (move.1) (move.2) (ys ++ zs) (ws ++ x ∷ [])
  move-AreChains i =
      let now = delete_stream-Changed h c x ys zs i.left in
      let before : (a : ℕ) → has a (ys ++ x ∷ zs) ≡ (has a ys || has a (x ∷ zs)) =
        λ a. has-append a ys (x ∷ zs) in
      add-AreChains ((delete_stream x (h, c)).0) ((delete_stream x (h, c)).1) d (ys ++ zs) ws x
        (record {
          left = now.now_is;
          right =
              frame-IsChain h ((delete_stream x (h, c)).0) d ws i.right
                (λ a j. now.others a ((flip h c d (ys ++ x ∷ zs) ws i).apart a j));
          apart = λ a j. i.apart a (ground (arith, has-append a ys zs, before a));
        })
        (gone i.left) (i.apart x (ground (arith, before x)))

  -- The streams of the two lists are the same.
  pub move-has :
      (a : ℕ) → (has a (ys ++ zs) || has a (ws ++ x ∷ [])) ≡ (has a (ys ++ x ∷ zs) || has a ws)
  move-has a =
      ground (arith, has-append a ys zs, has-append a ws (x ∷ []), has-append a ys (x ∷ zs))
