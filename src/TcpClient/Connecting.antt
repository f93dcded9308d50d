-- ===== src/TcpClient/Connecting.antt =====
-- network/tcp_client.c: connecting a stream to a server (`tcp_client_stream_init`, `tcp_client_add_server`).
use libeasy.Prelude.{
  ℕ, suc, ◌%◌, Bool, true, false, Option, none, some, List, ◌∷◌, length, if◌then◌else◌,
}
use libeasy.Prelude.Fault.{◌>>=◌}
use libeasy.Prelude.Int.{pos, negsuc}
use libeasy.Prelude.Maps.{update}
use libeasy.MemPool.{Pool, create, alloc}
use libeasy.TcpServer.{Kernel, close_fd, destroy_pool}
use libeasy.Time.{Time}
use libeasy.TcpClient.{
  state_none, connecting, connected, Callbacks, no_callbacks, Stream, Client,
  add_stream_into_idle_list, add_stream_into_busy_list, clear_links, get_idle_tcp_client_stream,
}

-- What `connect` answers.
pub data Connect : Type 0 where
  done : Connect
  in_progress : Connect
  refused : Connect

-- What the system answers to the calls of `tcp_client_stream_init`; `inet_addr` gives `none` for
-- INADDR_NONE, and `gethostbyname` whether a host of that name is known. `pool_at` and `ip_at` are for the
-- first page of the pool and for one that the copy of the name may need.
pub record Answers : Type 0 where
  pub socket : Option ℕ
  pub nonblocking : Bool
  pub page_size : ℕ
  pub pool_at : Option ℕ
  pub now : Time
  pub ip_at : Option ℕ
  pub inet_addr : List ℕ → Option ℕ
  pub gethostbyname : List ℕ → Bool
  pub connect : Connect
  pub epoll_add : Bool

-- INADDR_NONE
abbrev pub inaddr_none : ℕ
inaddr_none = 4294967295

-- The fields that `tcp_client_stream_reset` resets. The two calls of `bzero` have the size 0.
abbrev pub reset_fields : Stream → Stream
reset_fields t = record t {
  sock_fd = negsuc 0;
  server_ip = none;
  port = 0;
  pool = none;
  close = false;
  error = false;
  tcp_state = state_none;
  data_of = 0;
  client = false;
  callbacks = no_callbacks;
}

-- `tcp_client_stream_reset`, but for `last` and `next`.
unfoldable pub tcp_client_stream_reset : Stream × Kernel → Stream × Kernel
tcp_client_stream_reset (t, k) = (reset_fields t, close_fd t.sock_fd (destroy_pool t.pool k))

-- The label `error`.
abbrev pub give_up : Stream × Kernel → Bool × Stream × Kernel
give_up s = let r = tcp_client_stream_reset s in (false, r.0, r.1)

module _ (a : Answers) (cbs : Callbacks) (x : ℕ) where
  -- The end of `tcp_client_stream_init`, from `epoll_ctl`.
  abbrev pub watch : (fd : ℕ) → Stream × Kernel → Bool × Stream × Kernel
  watch fd (t, k) =
      if a.epoll_add
      then (true, record t { callbacks = cbs }, record k { watched = (fd, x) ∷ k.watched })
      else give_up (t, k)

  -- From `connect`.
  abbrev pub on_connect : (fd : ℕ) → Connect → Stream × Kernel → Bool × Stream × Kernel
  on_connect fd done (t, k) = watch fd (record t { tcp_state = connected }, k)
  on_connect fd in_progress (t, k) = watch fd (t, k)
  on_connect fd refused (t, k) = give_up (t, k)

  -- From `inet_addr`. The address of a host that was looked up is copied with the size of a whole
  -- `sockaddr_in`, which is more than there is.
  abbrev pub on_address :
      (fd : ℕ) (text : List ℕ) → Option ℕ → Stream × Kernel → Option (Bool × Stream × Kernel)
  on_address fd text none (t, k) =
      if a.gethostbyname text
      then none
      else some (give_up (record t { server_addr = some (inaddr_none, t.port % 65536) }, k))
  on_address fd text (some addr) (t, k) =
      some (on_connect fd a.connect (record t { server_addr = some (addr, t.port % 65536) }, k))

  -- What becomes of the name that is copied into the pool.
  abbrev pub on_name :
      (fd : ℕ) (text : List ℕ) (port : ℕ)
      → Option ℕ × Pool
      → Stream × Kernel
      → Option (Bool × Stream × Kernel)
  on_name fd text port (none, p) (t, k) = some (give_up (record t { pool = some p }, k))
  on_name fd text port (some ptr, p) (t, k) =
      on_address fd text (a.inet_addr text)
        (record t { pool = some p; server_ip = some text; port = port; tcp_state = connecting }, k)

  -- From `mem_pool_create`.
  abbrev pub on_pool :
      (fd : ℕ) (text : List ℕ) (port : ℕ)
      → Option Pool
      → Stream × Kernel
      → Option (Bool × Stream × Kernel)
  on_pool fd text port none (t, k) = some (give_up (record t { pool = none }, k))
  on_pool fd text port (some p) (t, k) =
      on_name fd text port (alloc a.ip_at p (pos (suc (length text)))) (
        record t {
          close = false;
          error = false;
          update_time = some a.now;
          data_of = 0;
          client = true;
        },
        k,
      )

  -- From `socket`.
  abbrev pub on_socket :
      (text : List ℕ) (port : ℕ) → Option ℕ → Stream × Kernel → Option (Bool × Stream × Kernel)
  on_socket text port none (t, k) = some (give_up (record t { sock_fd = negsuc 0 }, k))
  on_socket text port (some fd) (t, k) =
      if a.nonblocking
      then on_pool fd text port (create a.page_size a.pool_at) (record t { sock_fd = pos fd }, k)
      else some (give_up (record t { sock_fd = pos fd }, k))

  -- `tcp_client_stream_init` on the fields of the stream.
  unfoldable pub init_fields :
      (server_ip : List ℕ) (port : ℕ) → Stream × Kernel → Option (Bool × Stream × Kernel)
  init_fields server_ip port s = on_socket server_ip port a.socket s

  abbrev pub put_back : Client → Bool × Stream × Kernel → Bool × Client
  put_back c (true, t, k) = (true, record c { streams = update c.streams x t; kernel = k })
  put_back c (false, t, k) =
      (false, clear_links x (record c { streams = update c.streams x t; kernel = k }))

  -- `tcp_client_stream_init`
  unfoldable pub tcp_client_stream_init :
      (server_ip : List ℕ) (port : ℕ) → Client → Option (Bool × Client)
  tcp_client_stream_init server_ip port c =
      init_fields server_ip port (c.streams x, c.kernel) >>= λ r. some (put_back c r)

  abbrev pub end_add : Bool × Client → Bool × Client
  end_add (true, c) = (true, add_stream_into_busy_list x c)
  end_add (false, c) = (false, add_stream_into_idle_list x c)

unfoldable pub add_to :
    Answers
    → Callbacks
    → (server : List ℕ) (server_port : ℕ) → Option ℕ × Client
    → Option (Bool × Client)
add_to a cbs server server_port (none, c) = some (false, c)
add_to a cbs server server_port (some x, c) =
    tcp_client_stream_init a cbs x server server_port c >>= λ r. some (end_add a cbs x r)

-- `tcp_client_add_server`. The names `server_ip` and `port`, which are not declared in it, are taken for
-- its parameters `server` and `server_port`.
unfoldable pub tcp_client_add_server :
    Answers → Callbacks → (server : List ℕ) (server_port : ℕ) → Client → Option (Bool × Client)
tcp_client_add_server a cbs server server_port c =
    add_to a cbs server server_port (get_idle_tcp_client_stream c)
