-- ===== src/TcpClient/Start.antt =====
-- network/tcp_client.c: the client that `tcp_client_create` makes.
use libeasy.Prelude.{
  ℕ, zero, suc, ◌+◌, ◌≡◌, refl, sym, ap, subst, ◌∙◌, true, false, ◌&&◌, [], arith, ltb, leb, ◌==◌,
  Bool-cases, inl, inr,
}
use libeasy.Prelude.Fault.{Returns}
use libeasy.Prelude.Int.{ℤ, pos, negsuc, ltb_ℤ}
use libeasy.Prelude.Maps.{update_self, update_ne, upto, has-upto_first}
use libeasy.Streams.Chains.{empty-IsChain}
use libeasy.Streams.Fill.{fill, fill-AreChains}
use libeasy.TcpClient.{Client, fresh_client, add_stream_into_idle_list}
use libeasy.TcpClient.Create.{conn_count, set_index, fill_idle, tcp_client_create}
use libeasy.TcpClient.Valid.{IsClient}

-- What filling the idle list leaves.
record Filled (i n : ℕ) (c d : Client) : Type 0 where
  links_is : d.links ≡ (fill i n (c.links, c.idle)).0
  idle_is : d.idle ≡ (fill i n (c.links, c.idle)).1
  busy_is : d.busy ≡ c.busy
  num_is : d.stream_num ≡ c.stream_num
  kernel_is : d.kernel ≡ c.kernel
  fd_is : (a : ℕ) → (leb i a && ltb a (i + n)) ≡ true → (d.streams a).sock_fd ≡ negsuc 0
  below : (a : ℕ) → ltb a i ≡ true → d.streams a ≡ c.streams a

fill_idle-Filled : (i n : ℕ) (c : Client) → Filled i n c (fill_idle i n c)
unfolding fill_idle
fill_idle-Filled i zero c = record {
  links_is = refl;
  idle_is = refl;
  busy_is = refl;
  num_is = refl;
  kernel_is = refl;
  fd_is = λ a h. absurd (ground arith);
  below = λ a h. refl;
}
fill_idle-Filled i (suc n) c =
    let d = add_stream_into_idle_list i (set_index i c) in
    let more = fill_idle-Filled (suc i) n d in
    let here = record (c.streams i) { index = i; sock_fd = negsuc 0 } in
    record {
      links_is = more.links_is;
      idle_is = more.idle_is;
      busy_is = more.busy_is;
      num_is = more.num_is;
      kernel_is = more.kernel_is;
      fd_is = λ a h. elim (Bool-cases (i == a)) [
        | inl hit ↦
            let same : i ≡ a = ground arith in
            subst (λ b. ((fill_idle (suc i) n d).streams b).sock_fd ≡ negsuc 0) same
              (ap (λ t. t.sock_fd) (more.below i (ground arith) ∙ update_self c.streams i here))
        | inr miss ↦ more.fd_is a (ground arith)
      ];
      below = λ a h. more.below a (ground arith) ∙ update_ne c.streams i here a (ground arith);
    }

-- What `tcp_client_create` returns.
pub record Created (n : ℕ) (epoll_fd : ℕ) (c : Client) : Type 0 where
  pub client_is : IsClient c [] (upto 0 n)
  pub num_is : c.stream_num ≡ n
  pub epoll_is : c.epoll_fd ≡ pos epoll_fd
  pub watched_is : c.kernel.watched ≡ []
  pub fd_is : (a : ℕ) → ltb a n ≡ true → (c.streams a).sock_fd ≡ negsuc 0

-- Where there is memory and `epoll_create` gives a descriptor `tcp_client_create` makes a valid client
-- with the number of streams that was asked for, all idle in the order of the array and without a
-- descriptor.
pub tcp_client_create-Created :
    (epoll_fd : ℕ) (max_conn : ℤ)
    → Returns
        ((tcp_client_create true true (pos epoll_fd) max_conn).0)
        (Created (conn_count max_conn) epoll_fd)
unfolding tcp_client_create
tcp_client_create-Created epoll_fd max_conn =
    let n = conn_count max_conn in
    let c = fresh_client n in
    let filled = fill_idle-Filled 0 n c in
    let opened : ltb_ℤ (pos epoll_fd) (pos 0) ≡ false = ground arith in
    let chains =
      fill-AreChains 0 n c.links c.busy c.idle []
        (record { left = empty-IsChain _; right = empty-IsChain _; apart = λ b h. refl })
        (λ b h. refl) in
    rw (opened) (record {
      client_is = record {
        chains = rw (filled.links_is, filled.busy_is, filled.idle_is) chains;
        all = λ b. has-upto_first b n ∙ ap (ltb b) (sym filled.num_is);
      };
      num_is = filled.num_is;
      epoll_is = refl;
      watched_is = ap (λ k. k.watched) filled.kernel_is;
      fd_is = λ a h. filled.fd_is a (ground arith);
    })
