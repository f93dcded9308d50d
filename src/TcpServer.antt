-- ===== src/TcpServer.antt =====
-- network/tcp_server.c: streams that are busy or idle, a listening socket, and the loop over events.
pub mod Accept
pub mod Create
pub mod Loop
pub mod Valid
pub mod Start
pub mod Errors
mod Tests
use libeasy.Prelude.{
  ℕ, zero, suc, ◌+◌, Bool, true, false, ◌&&◌, ◌||◌, Option, none, some, List, [], ◌∷◌, ◌++◌, ◌==◌,
  if◌then◌else◌,
}
use libeasy.Prelude.Fault.{◌>>=◌}
use libeasy.Prelude.Int.{ℤ, pos, negsuc, ◌+ℤ◌, ◌-ℤ◌, ltb_ℤ}
use libeasy.Prelude.Maps.{update}
use libeasy.MemPool.{Pool, create, destroy}
use libeasy.Streams.{Links, Store, Chain, empty, delete_stream, add_stream}
use libeasy.Time.{Time}

-- The functions that the pointers to callbacks are set to; `user` are those of the caller.
pub data Callback : Type 0 where
  rcv_cb_default : Callback
  snd_cb_default : Callback
  accept_cb : Callback
  user : ℕ → Callback

-- `tcp_server_stream_t`, but for `last` and `next`, which stand in a store of their own. `server` says
-- that the pointer is not NULL: there is one server.
pub record Stream : Type 0 where
  pub index : ℕ
  pub sock_fd : ℤ
  pub pool : Option Pool
  pub close : Bool
  pub error : Bool
  pub update_time : Option Time
  pub data_of : ℕ
  pub server : Bool
  pub rcv_cb : Option Callback
  pub snd_cb : Option Callback
  pub remote_addr : ℕ

-- What the kernel and the allocator are told: the descriptors that epoll watches with the stream of
-- each, and what was closed and freed, the latest first.
pub record Kernel : Type 0 where
  pub watched : List (ℕ × ℕ)
  pub closed : List ℤ
  pub freed : List ℕ

-- `tcp_server_t`, with the store of the streams and the kernel.
pub record Server : Type 0 where
  pub port : ℕ
  pub listen_fd : ℤ
  pub epoll_fd : ℤ
  pub streams : ℕ → Stream
  pub links : Store
  pub stream_num : ℕ
  pub active_stream_num : ℤ
  pub busy : Chain
  pub idle : Chain
  pub rcv_cb : Option Callback
  pub snd_cb : Option Callback
  pub stop : Bool
  pub kernel : Kernel

-- A stream that was set to zero.
abbrev pub no_stream : Stream
no_stream = record {
  index = 0;
  sock_fd = pos 0;
  pool = none;
  close = false;
  error = false;
  update_time = none;
  data_of = 0;
  server = false;
  rcv_cb = none;
  snd_cb = none;
  remote_addr = 0;
}

abbrev pub max_stream_num : ℕ
max_stream_num = 10000

-- The server after `bzero` and the first assignments of `tcp_server_create`.
abbrev pub fresh_server : (port stream_num : ℕ) → Server
fresh_server port stream_num = record {
  port = port;
  listen_fd = pos 0;
  epoll_fd = pos 0;
  streams = λ i. no_stream;
  links = λ i. record { last = none; next = none };
  stream_num = stream_num;
  active_stream_num = pos 0;
  busy = empty;
  idle = empty;
  rcv_cb = some rcv_cb_default;
  snd_cb = some snd_cb_default;
  stop = false;
  kernel = record { watched = []; closed = []; freed = [] };
}

-- A list operation on the busy or the idle list.
abbrev pub with_busy : Server → Store × Chain → Server
with_busy s (h, c) = record s { links = h; busy = c }

abbrev pub with_idle : Server → Store × Chain → Server
with_idle s (h, c) = record s { links = h; idle = c }

abbrev pub delete_stream_from_busy_list : ℕ → Server → Server
delete_stream_from_busy_list x s = with_busy s (delete_stream x (s.links, s.busy))

abbrev pub add_stream_into_busy_list : ℕ → Server → Server
add_stream_into_busy_list x s = with_busy s (add_stream x (s.links, s.busy))

abbrev pub delete_stream_from_idle_list : ℕ → Server → Server
delete_stream_from_idle_list x s = with_idle s (delete_stream x (s.links, s.idle))

abbrev pub add_stream_into_idle_list : ℕ → Server → Server
add_stream_into_idle_list x s = with_idle s (add_stream x (s.links, s.idle))

-- `get_idle_tcp_stream`
unfoldable pub get_idle_tcp_stream : Server → Option ℕ × Server
get_idle_tcp_stream s = elim s.idle.tail [
  | none ↦ (none, s)
  | some x ↦ (some x, delete_stream_from_idle_list x s)
]

abbrev pub same_fd : ℤ → ℤ → Bool
same_fd a b = if ltb_ℤ a b then false else if ltb_ℤ b a then false else true

abbrev pub without : ℕ → List (ℕ × ℕ) → List (ℕ × ℕ)
without fd [] = []
without fd ((g, x) ∷ ws) = if fd == g then without fd ws else (g, x) ∷ without fd ws

-- `close(fd)` where the descriptor is not negative; the kernel stops watching it.
abbrev pub close_fd : ℤ → Kernel → Kernel
close_fd (negsuc n) k = k
close_fd (pos n) k = record k { closed = pos n ∷ k.closed; watched = without n k.watched }

abbrev pub destroy_pool : Option Pool → Kernel → Kernel
destroy_pool pool k = record k { freed = destroy pool ++ k.freed }

-- The fields that `tcp_stream_close` resets.
abbrev pub reset_stream : Stream → Stream
reset_stream t = record t {
  sock_fd = negsuc 0;
  pool = none;
  close = false;
  error = false;
  data_of = 0;
  server = false;
}

-- `tcp_stream_close`. A stream without a server has the server's lists taken through NULL.
unfoldable pub tcp_stream_close : ℕ → Server → Option Server
tcp_stream_close x s =
    let t = s.streams x in
    if t.server
    then (let moved = add_stream_into_idle_list x (delete_stream_from_busy_list x s) in
        some (record moved {
          kernel = close_fd t.sock_fd (destroy_pool t.pool s.kernel);
          streams = update s.streams x (reset_stream t);
        }))
    else none
