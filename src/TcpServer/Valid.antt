-- ===== src/TcpServer/Valid.antt =====
-- network/tcp_server.c: the invariant of a server, and that `tcp_stream_close` keeps it.
use libeasy.Prelude.{
  ℕ, suc, ◌≡◌, refl, sym, ap, subst, ◌∙◌, Bool, true, false, ◌||◌, List, [], ◌∷◌, ◌++◌, arith, ltb,
  ◌==◌, if◌then◌else◌, Bool-cases, inl, inr,
}
use libeasy.Prelude.Fault.{Returns}
use libeasy.Prelude.Int.{ℤ, pos, negsuc}
use libeasy.Prelude.Maps.{update, has, has-append, update_self, update_ne, ne_sym}
use libeasy.Streams.Move.{AreChains, move-AreChains, move-has}
use libeasy.TcpServer.{
  Stream, Server, Kernel, without, close_fd, destroy_pool, reset_stream, tcp_stream_close,
}

-- Every descriptor that epoll watches is that of a busy stream that has its server.
abbrev pub Watches : (ℕ → Stream) → (busy : List ℕ) → List (ℕ × ℕ) → Type 0
Watches f bs [] = Unit
Watches f bs ((fd, x) ∷ ws) =
    (has x bs ≡ true) × ((f x).server ≡ true) × ((f x).sock_fd ≡ pos fd) × Watches f bs ws

-- The busy and the idle list are `bs` and `ns`; together they have every stream, and none twice.
pub record IsServer (s : Server) (bs ns : List ℕ) : Type 0 where
  pub chains : AreChains s.links s.busy s.idle bs ns
  pub all : (a : ℕ) → (has a bs || has a ns) ≡ ltb a s.stream_num
  pub watches : Watches s.streams bs s.kernel.watched

-- A change that leaves the watched streams busy, with their descriptors and their server.
pub Watches-frame :
    (f g : ℕ → Stream) (bs cs : List ℕ) (ws : List (ℕ × ℕ))
    → Watches f bs ws
    → ((a fd : ℕ)
        → has a bs ≡ true
        → (f a).sock_fd ≡ pos fd
        → (has a cs ≡ true) × ((g a).server ≡ (f a).server) × ((g a).sock_fd ≡ (f a).sock_fd))
    → Watches g cs ws
Watches-frame f g bs cs [] w same = tt
Watches-frame f g bs cs ((fd, x) ∷ ws) w same =
    let k = same x fd (w.0) (w.2) in
    (k.0, k.1 ∙ w.1, k.2 ∙ w.2, Watches-frame f g bs cs ws (w.3) same)

fd_of : ℤ → ℕ
fd_of (pos n) = suc n
fd_of (negsuc n) = 0

other_stream :
    (f : ℕ → Stream) (a x fd : ℕ) (i : ℤ)
    → (f a).sock_fd ≡ pos fd
    → (f x).sock_fd ≡ i
    → (fd_of i == suc fd) ≡ false
    → (a == x) ≡ false
unfolding fd_of
other_stream f a x fd i at_a at_x ne = elim (Bool-cases (a == x)) [
  | inl k ↦
      let is : a ≡ x = ground arith in
      let fds : fd_of i ≡ suc fd = ap fd_of (sym at_x ∙ ap (λ b. (f b).sock_fd) (sym is) ∙ at_a) in
      absurd (ground arith)
  | inr k ↦ k
]

-- The same, but for the stream `x`, whose descriptor is watched no more.
pub Watches-without :
    (f g : ℕ → Stream) (bs cs : List ℕ) (x n : ℕ) (ws : List (ℕ × ℕ))
    → Watches f bs ws
    → (f x).sock_fd ≡ pos n
    → ((a : ℕ) → (a == x) ≡ false → has a bs ≡ true → (has a cs ≡ true) × (g a ≡ f a))
    → Watches g cs (without n ws)
unfolding fd_of
Watches-without f g bs cs x n [] w fd_is same = tt
Watches-without f g bs cs x n ((fd, y) ∷ ws) w fd_is same =
    let more = Watches-without f g bs cs x n ws (w.3) fd_is same in
    let either : Bool → Type 0 =
      λ b. Watches g cs (if b then without n ws else (fd, y) ∷ without n ws) in
    elim (Bool-cases (n == fd)) [
      | inl hit ↦ subst either (sym hit) more
      | inr miss ↦
          let k = same y (other_stream f y x fd (pos n) (w.2) fd_is (ground arith)) (w.0) in
          subst either (sym miss)
            (k.0, ap (λ t. t.server) (k.1) ∙ w.1, ap (λ t. t.sock_fd) (k.1) ∙ w.2, more)
    ]

-- What closing the busy stream `x` makes of a server: it stands at the end of the idle list, its
-- descriptor was closed and its pool freed, and no other stream changed.
pub record Closed (s t : Server) (x : ℕ) (ys zs ns : List ℕ) : Type 0 where
  pub server_is : IsServer t (ys ++ zs) (ns ++ x ∷ [])
  pub kernel_is :
      t.kernel ≡ close_fd (s.streams x).sock_fd (destroy_pool (s.streams x).pool s.kernel)
  pub stream_is : t.streams x ≡ reset_stream (s.streams x)
  pub others : (a : ℕ) → (x == a) ≡ false → t.streams a ≡ s.streams a
  pub active_is : t.active_stream_num ≡ s.active_stream_num

module _ (s : Server) (x : ℕ) (ys zs ns : List ℕ) (i : IsServer s (ys ++ x ∷ zs) ns) where
  abbrev now : ℕ → Stream
  now = update s.streams x (reset_stream (s.streams x))

  kept :
      (a : ℕ)
      → (a == x) ≡ false
      → has a (ys ++ x ∷ zs) ≡ true
      → (has a (ys ++ zs) ≡ true) × (now a ≡ s.streams a)
  kept a ne h = (
    ground (arith, has-append a ys zs, has-append a ys (x ∷ zs)),
    update_ne s.streams x (reset_stream (s.streams x)) a (ne_sym a x ne),
  )

  close_fd-Watches :
      (fd : ℤ) (k : Kernel)
      → (s.streams x).sock_fd ≡ fd
      → Watches s.streams (ys ++ x ∷ zs) k.watched
      → Watches now (ys ++ zs) (close_fd fd k).watched
  unfolding fd_of
  close_fd-Watches (pos n) k e w =
      Watches-without s.streams now (ys ++ x ∷ zs) (ys ++ zs) x n k.watched w e kept
  close_fd-Watches (negsuc n) k e w =
      Watches-frame s.streams now (ys ++ x ∷ zs) (ys ++ zs) k.watched w (λ a fd h at_a.
        let same = kept a (other_stream s.streams a x fd (negsuc n) at_a e (ground arith)) h in
        (same.0, ap (λ t. t.server) (same.1), ap (λ t. t.sock_fd) (same.1)))

  -- Closing a busy stream of a valid server, where its pointer to the server is not NULL, meets no
  -- undefined behaviour, and leaves a valid server where the stream is the last idle one, reset, its
  -- descriptor closed and its pool freed, and every other stream as it was.
  pub tcp_stream_close-Closed :
      (s.streams x).server ≡ true → Returns (tcp_stream_close x s) (λ t. Closed s t x ys zs ns)
  unfolding tcp_stream_close
  tcp_stream_close-Closed live = rw (live) (record {
    server_is = record {
      chains = move-AreChains s.links s.busy s.idle x ys zs ns i.chains;
      all = λ a. move-has s.links s.busy s.idle x ys zs ns a ∙ i.all a;
      watches =
          close_fd-Watches ((s.streams x).sock_fd) (destroy_pool ((s.streams x).pool) s.kernel) refl
            i.watches;
    };
    kernel_is = refl;
    stream_is = update_self s.streams x (reset_stream (s.streams x));
    others = λ a ne. update_ne s.streams x (reset_stream (s.streams x)) a ne;
    active_is = refl;
  })
