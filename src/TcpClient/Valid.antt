-- ===== src/TcpClient/Valid.antt =====
-- network/tcp_client.c: the invariant of a client, and what taking an idle stream leaves.
use libeasy.Prelude.{
  ℕ, ◌≡◌, refl, subst, true, false, ◌||◌, List, [], ◌∷◌, ◌++◌, arith, ltb, ◌==◌, append-nil,
  Bool-cases, inl, inr,
}
use libeasy.Prelude.Maps.{update, has, has-append, has_ne, update_ne, Distinct-apart}
use libeasy.Streams.{Store, Chain, delete_stream, add_stream}
use libeasy.Streams.Chains.{IsChain, frame-IsChain}
use libeasy.Streams.Delete.{delete_stream-Changed}
use libeasy.Streams.Move.{AreChains, flip, add-AreChains}
use libeasy.TcpClient.{Client, no_links, delete_stream_from_idle_list}

-- The busy and the idle list are `bs` and `ns`; together they have every stream, and none twice.
pub record IsClient (c : Client) (bs ns : List ℕ) : Type 0 where
  pub chains : AreChains c.links c.busy c.idle bs ns
  pub all : (a : ℕ) → (has a bs || has a ns) ≡ ltb a c.stream_num

-- Other links for a stream of neither list change neither.
pub clear-AreChains :
    (h : Store) (c d : Chain) (xs ys : List ℕ) (x : ℕ)
    → AreChains h c d xs ys
    → has x xs ≡ false
    → has x ys ≡ false
    → AreChains (update h x no_links) c d xs ys
clear-AreChains h c d xs ys x i left right = record {
  left =
      frame-IsChain h (update h x no_links) c xs i.left
        (λ a j. update_ne h x no_links a (ne_of a xs left j));
  right =
      frame-IsChain h (update h x no_links) d ys i.right
        (λ a j. update_ne h x no_links a (ne_of a ys right j));
  apart = i.apart;
}
  where
    ne_of : (a : ℕ) (zs : List ℕ) → has x zs ≡ false → has a zs ≡ true → (x == a) ≡ false
    ne_of a zs out j = let n = has_ne x a zs out j in ground arith

-- What is left of a valid client whose last idle stream `x` was taken.
pub record Taken (c d : Client) (x : ℕ) (bs ns : List ℕ) : Type 0 where
  pub chains : AreChains d.links d.busy d.idle bs ns
  pub no_busy : has x bs ≡ false
  pub no_idle : has x ns ≡ false
  pub streams_is : d.streams ≡ c.streams
  pub kernel_is : d.kernel ≡ c.kernel
  pub num_is : d.stream_num ≡ c.stream_num

pub delete_stream_from_idle_list-Taken :
    (c : Client) (x : ℕ) (bs ns : List ℕ)
    → IsClient c bs (ns ++ x ∷ [])
    → Taken c (delete_stream_from_idle_list x c) x bs ns
delete_stream_from_idle_list-Taken c x bs ns i =
    let was = i.chains in
    let now = delete_stream-Changed c.links c.idle x ns [] was.right in
    let was_idle : has x (ns ++ x ∷ []) ≡ true = ground (arith, has-append x ns (x ∷ [])) in
    let no_busy = (flip c.links c.busy c.idle bs (ns ++ x ∷ []) was).apart x was_idle in
    let no_idle : has x ns ≡ false = elim (Bool-cases (has x ns)) [
      | inl k ↦ absurd (ground (arith, Distinct-apart ns (x ∷ []) x was.right.distinct k))
      | inr k ↦ k
    ] in
    let r = delete_stream x (c.links, c.idle) in
    let right : IsChain (r.0) (r.1) ns = subst (IsChain (r.0) (r.1)) (append-nil ns) now.now_is in
    record {
      chains =
          clear-AreChains (r.0) c.busy (r.1) bs ns x
            (record {
              left =
                  frame-IsChain c.links (r.0) c.busy bs was.left
                    (λ a j. now.others a (was.apart a j));
              right = right;
              apart = λ a j. ground (arith, was.apart a j, has-append a ns (x ∷ []));
            })
            no_busy no_idle;
      no_busy = no_busy;
      no_idle = no_idle;
      streams_is = refl;
      kernel_is = refl;
      num_is = refl;
    }

-- The stream goes to the end of the busy list, or back to the end of the idle one.
pub busy-AreChains :
    (d : Client) (x : ℕ) (bs ns : List ℕ)
    → AreChains d.links d.busy d.idle bs ns
    → has x bs ≡ false
    → has x ns ≡ false
    → (let r = add_stream x (d.links, d.busy) in AreChains (r.0) (r.1) d.idle (bs ++ x ∷ []) ns)
busy-AreChains d x bs ns chains no_busy no_idle =
    let r = add_stream x (d.links, d.busy) in
    flip (r.0) d.idle (r.1) ns (bs ++ x ∷ []) (
      add-AreChains d.links d.idle d.busy ns bs x (flip d.links d.busy d.idle bs ns chains) no_idle
        no_busy)
