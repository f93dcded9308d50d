-- ===== src/Streams/Fill.antt =====
-- The loops that put the streams of an array into the idle list.
use libeasy.Prelude.{
  ℕ, zero, suc, ◌≡◌, refl, sym, subst, true, false, List, [], ◌∷◌, ◌++◌, arith, leb, append_assoc,
  append-nil,
}
use libeasy.Prelude.Maps.{upto, has, has-append}
use libeasy.Streams.{Store, Chain, add_stream}
use libeasy.Streams.Move.{AreChains, add-AreChains}

-- The streams from `i` on, `n` of them, go to the end of a list.
abbrev pub fill : (i n : ℕ) → Store × Chain → Store × Chain
fill i zero s = s
fill i (suc n) s = fill (suc i) n (add_stream i s)

pub fill-AreChains :
    (i n : ℕ) (h : Store) (c d : Chain) (ys : List ℕ)
    → AreChains h c d [] ys
    → ((a : ℕ) → leb i a ≡ true → has a ys ≡ false)
    → AreChains ((fill i n (h, d)).0) c ((fill i n (h, d)).1) [] (ys ++ upto i n)
fill-AreChains i zero h c d ys chains low =
    subst (λ ms. AreChains h c d [] ms) (sym (append-nil ys)) chains
fill-AreChains i (suc n) h c d ys chains low =
    let r = add_stream i (h, d) in
    let more =
      fill-AreChains (suc i) n (r.0) c (r.1) (ys ++ i ∷ [])
        (add-AreChains h c d [] ys i chains refl (low i (ground arith)))
        (λ a k. ground (arith, low a, has-append a ys (i ∷ []))) in
    let q = fill (suc i) n r in
    subst (λ ms. AreChains (q.0) c (q.1) [] ms) (append_assoc ys (i ∷ []) (upto (suc i) n)) more
