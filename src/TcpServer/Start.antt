-- ===== src/TcpServer/Start.antt =====
-- network/tcp_server.c: the server that `tcp_server_create` makes.
use libeasy.Prelude.{
  ℕ, zero, suc, ◌-◌, ◌<◌, ◌≡◌, refl, sym, ap, ap₂, subst, ◌∙◌, ◌||◌, Bool, ◌==◌, true, false, not,
  Option, none, some, [], ◌∷◌, ◌++◌, arith, ltb, if◌then◌else◌, append-nil,
}
use libeasy.Prelude.Fault.{Returns}
use libeasy.Prelude.Int.{ℤ, pos, negsuc, ltb_ℤ}
use libeasy.Prelude.Maps.{update_self, upto, has, has-upto_with, upto-last}
use libeasy.MemPool.{Pool}
use libeasy.Streams.Fill.{fill, fill-AreChains}
use libeasy.Streams.Chains.{empty-IsChain, final-last}
use libeasy.Streams.Move.{AreChains, flip, move-AreChains}
use libeasy.TcpServer.{
  Server, Stream, Callback, accept_cb, get_idle_tcp_stream, fresh_server, same_fd,
  add_stream_into_idle_list,
}
use libeasy.TcpServer.Create.{
  Setup, conn_count, set_index, fill_idle, open_sockets, set_listening, listen_on, opened,
  tcp_server_create,
}
use libeasy.TcpServer.Valid.{IsServer, Watches}
use libeasy.TcpServer.Accept.{Answers, init_fields, tcp_stream_init}
use libeasy.TcpServer.{delete_stream_from_idle_list, add_stream_into_busy_list}

pub get_idle_some :
    (s : Server) (x : ℕ)
    → s.idle.tail ≡ some x
    → get_idle_tcp_stream s ≡ (some x, delete_stream_from_idle_list x s)
unfolding get_idle_tcp_stream
get_idle_some s x e =
    ap
      (λ tail. elim tail [ none ↦ (none, s) | some y ↦ (some y, delete_stream_from_idle_list y s) ])
      e

-- What filling the idle list leaves.
record Same (i n : ℕ) (s t : Server) : Type 0 where
  links_is : t.links ≡ (fill i n (s.links, s.idle)).0
  idle_is : t.idle ≡ (fill i n (s.links, s.idle)).1
  busy_is : t.busy ≡ s.busy
  num_is : t.stream_num ≡ s.stream_num
  kernel_is : t.kernel ≡ s.kernel
  stop_is : t.stop ≡ s.stop
  port_is : t.port ≡ s.port

fill_idle-Same : (i n : ℕ) (s : Server) → Same i n s (fill_idle i n s)
unfolding fill_idle
fill_idle-Same i zero s = record {
  links_is = refl;
  idle_is = refl;
  busy_is = refl;
  num_is = refl;
  kernel_is = refl;
  stop_is = refl;
  port_is = refl;
}
fill_idle-Same i (suc n) s =
    let more = fill_idle-Same (suc i) n (add_stream_into_idle_list i (set_index i s)) in
    record {
      links_is = more.links_is;
      idle_is = more.idle_is;
      busy_is = more.busy_is;
      num_is = more.num_is;
      kernel_is = more.kernel_is;
      stop_is = more.stop_is;
      port_is = more.port_is;
    }

-- All calls of the system succeed.
pub record Succeeds (a : Setup) : Type 0 where
  pub server_room : a.server_room ≡ true
  pub streams_room : a.streams_room ≡ true
  pub listen_fd : ℕ
  pub socket : a.socket ≡ pos listen_fd
  pub nonblocking : a.nonblocking ≡ true
  pub reuse : a.reuse ≡ true
  pub bind : a.bind ≡ true
  pub listen : a.listen ≡ true
  pub epoll_fd : ℕ
  pub epoll_create : a.epoll_create ≡ pos epoll_fd

-- The stream that `tcp_server_create` has listen: it reads by `accept_cb`, and writes nothing.
pub record Listens (fd : ℤ) (t : Stream) : Type 0 where
  pub fd_is : t.sock_fd ≡ fd
  pub rcv_is : t.rcv_cb ≡ some accept_cb
  pub snd_is : t.snd_cb ≡ none

-- What `tcp_server_create` returns.
pub record Started (a : Setup) (port n : ℕ) (s : Server) : Type 0 where
  pub port_is : s.port ≡ port
  pub socket_is : s.listen_fd ≡ a.socket
  pub epoll_is : s.epoll_fd ≡ a.epoll_create
  pub listens : Listens a.socket (s.streams n)
  pub server_is : IsServer s (n ∷ []) (upto 0 n)
  pub num_is : s.stream_num ≡ suc n
  pub watched_is : s.kernel.watched ≡ []
  pub stop_is : s.stop ≡ false

or_false : (p q : Bool) → ((p || false) || q) ≡ (p || q)
or_false p q = ground arith

conn_count_pos : (max_conn : ℤ) → 0 < conn_count max_conn
conn_count_pos (pos n) = ground arith
conn_count_pos (negsuc n) = ground arith

pub not_error : (n : ℕ) → same_fd (pos n) (negsuc 0) ≡ false
not_error n = ground arith

pub not_negative : (n : ℕ) → ltb_ℤ (pos n) (pos 0) ≡ false
not_negative n = ground arith

init_fields-fd :
    (a : Answers) (rcv snd : Option Callback) (pool : Option Pool) (fd : ℤ) (remote : Option ℕ)
    (t : Stream)
    → (init_fields a rcv snd pool fd remote t).sock_fd ≡ fd
init_fields-fd a rcv snd none fd remote t = refl
init_fields-fd a rcv snd (some p) fd remote t = refl

module _ (a : Setup) (port n : ℕ) (ok : Succeeds a) where
  abbrev pub filled : Server
  filled = fill_idle 0 (suc n) (fresh_server port (suc n))

  abbrev pub listening : Server
  listening = record filled { listen_fd = pos ok.listen_fd; epoll_fd = pos ok.epoll_fd }

  open_sockets-listening :
      (s : Server)
      → open_sockets a s
        ≡ (true, record s { listen_fd = pos ok.listen_fd; epoll_fd = pos ok.epoll_fd })
  unfolding open_sockets
  open_sockets-listening s =
      rw (ok.socket, ok.nonblocking, ok.reuse, ok.bind, ok.listen, ok.epoll_create)
        (ap₂
          (λ b c.
            if b
            then (false, record s { listen_fd = pos ok.listen_fd })
            else (not c, record s { listen_fd = pos ok.listen_fd; epoll_fd = pos ok.epoll_fd }))
          (not_error ok.listen_fd) (not_negative ok.epoll_fd))

  filled-AreChains : AreChains filled.links filled.busy filled.idle [] (upto 0 n ++ n ∷ [])
  filled-AreChains =
      let s = fresh_server port (suc n) in
      let same = fill_idle-Same 0 (suc n) s in
      let chains =
        fill-AreChains 0 (suc n) s.links s.busy s.idle []
          (record { left = empty-IsChain _; right = empty-IsChain _; apart = λ b h. refl })
          (λ b h. refl) in
      let order : upto 0 (suc n) ≡ upto 0 n ++ n ∷ [] =
        upto-last 0 n ∙ ap (λ k. upto 0 n ++ k ∷ []) (omega arith) in
      rw (same.links_is, same.busy_is, same.idle_is)
        (subst
          (λ ms.
            AreChains ((fill 0 (suc n) (s.links, s.idle)).0) s.busy
              ((fill 0 (suc n) (s.links, s.idle)).1) [] ms)
          order chains)

  abbrev pub started : Server
  started = add_stream_into_busy_list n (
      set_listening n (
        tcp_stream_init a.own n (pos ok.listen_fd) none (delete_stream_from_idle_list n listening)))

  create-started : opened a (open_sockets a filled) ≡ (some started, [])
  unfolding listen_on
  create-started =
      ap (opened a) (open_sockets-listening filled)
      ∙ ap (listen_on a)
          (get_idle_some listening n (filled-AreChains.right.tail_is ∙ final-last (upto 0 n) n))

  pub tcp_server_create-some :
      (max_conn : ℤ)
      → conn_count max_conn ≡ suc n
      → tcp_server_create a port max_conn ≡ (some started, [])
  unfolding tcp_server_create
  tcp_server_create-some max_conn count =
      simp (ok.server_room, ok.streams_room)
        (ap (λ c. opened a (open_sockets a (fill_idle 0 c (fresh_server port c)))) count
          ∙ create-started)

  listening-Listens : Listens a.socket (started.streams n)
  listening-Listens =
      let t = delete_stream_from_idle_list n listening in
      let u = tcp_stream_init a.own n (pos ok.listen_fd) none t in
      let set = update_self u.streams n _ in
      record {
        fd_is =
            ap (λ b. b.sock_fd) set
            ∙ ap (λ b. b.sock_fd) (update_self t.streams n _)
            ∙ init_fields-fd a.own _ _ _ (pos ok.listen_fd) none (t.streams n)
            ∙ sym ok.socket;
        rcv_is = ap (λ b. b.rcv_cb) set;
        snd_is = ap (λ b. b.snd_cb) set;
      }

  pub started-Started : Started a port n started
  started-Started =
      let same = fill_idle-Same 0 (suc n) (fresh_server port (suc n)) in
      let moved =
        move-AreChains filled.links filled.idle filled.busy n (upto 0 n) [] []
          (flip filled.links filled.busy filled.idle [] (upto 0 n ++ n ∷ []) filled-AreChains) in
      let t = started in
      record {
        port_is = same.port_is;
        socket_is = sym ok.socket;
        epoll_is = sym ok.epoll_create;
        listens = listening-Listens;
        server_is = record {
          chains = flip t.links t.idle t.busy (upto 0 n) (n ∷ []) (
              subst (λ ms. AreChains t.links t.idle t.busy ms (n ∷ [])) (append-nil (upto 0 n))
                moved);
          all = λ b.
              or_false (b == n) (has b (upto 0 n))
              ∙ has-upto_with b n
              ∙ ap (ltb b) (sym same.num_is);
          watches = subst (λ k. Watches t.streams (n ∷ []) k.watched) (sym same.kernel_is) tt;
        };
        num_is = same.num_is;
        watched_is = ap (λ k. k.watched) same.kernel_is;
        stop_is = same.stop_is;
      }

-- Where all calls of the system succeed, whatever `mem_pool_create` answers, `tcp_server_create` makes
-- a valid server with the port, the sockets and the number of streams asked for. The last stream is
-- busy, has the listening descriptor, `accept_cb` to read and nothing to write, and the others are
-- idle in the order of the array. Its epoll watches nothing, and it is not stopped.
pub tcp_server_create-Started :
    (a : Setup) (port : ℕ) (max_conn : ℤ)
    → Succeeds a
    → Returns
        ((tcp_server_create a port max_conn).0)
        (λ s. Started a port (conn_count max_conn - 1) s)
tcp_server_create-Started a port max_conn ok =
    let n = conn_count max_conn - 1 in
    let count : conn_count max_conn ≡ suc n = ground (arith, conn_count_pos max_conn) in
    subst (λ o. Returns o (λ s. Started a port n s))
      (sym (ap (λ r. r.0) (tcp_server_create-some a port n ok max_conn count)))
      (started-Started a port n ok)
