-- ===== src/TcpClient.antt =====
-- network/tcp_client.c: connections to servers over streams that are busy or idle.
pub mod Connecting
pub mod Create
pub mod Loop
pub mod Valid
pub mod Init
pub mod Added
pub mod Session
pub mod Start
mod Tests
use libeasy.Prelude.{
  ℕ, zero, suc, ◌+◌, ◌%◌, Bool, true, false, Option, none, some, List, [], ◌∷◌, ◌++◌, length,
  if◌then◌else◌,
}
use libeasy.Prelude.Fault.{◌>>=◌}
use libeasy.Prelude.Int.{ℤ, pos, negsuc, ltb_ℤ, pos_part}
use libeasy.Prelude.Maps.{update}
use libeasy.MemPool.{Pool, create, alloc}
use libeasy.Streams.{Links, Store, Chain, empty, delete_stream, add_stream}
use libeasy.TcpServer.{Kernel, close_fd, destroy_pool}
use libeasy.TcpServer.Create.{closes}
use libeasy.Time.{Time}

-- The constants TCP_STATE_*.
pub data State : Type 0 where
  state_none : State
  connecting : State
  connected : State

-- The functions of the caller that are called for a stream.
pub record Callbacks : Type 0 where
  pub rcv_cb : Option ℕ
  pub snd_cb : Option ℕ
  pub conn_cb : Option ℕ

abbrev pub no_callbacks : Callbacks
no_callbacks = record { rcv_cb = none; snd_cb = none; conn_cb = none }

-- `tcp_client_stream_t`, but for `last` and `next`, which stand in a store of their own, and the two
-- pointers to chains, which are never set. `client` says that the pointer is not NULL.
pub record Stream : Type 0 where
  pub index : ℕ
  pub sock_fd : ℤ
  pub server_ip : Option (List ℕ)
  pub port : ℕ
  pub server_addr : Option (ℕ × ℕ)
  pub pool : Option Pool
  pub close : Bool
  pub error : Bool
  pub update_time : Option Time
  pub tcp_state : State
  pub data_of : ℕ
  pub client : Bool
  pub callbacks : Callbacks

-- `tcp_client_t`, with the store of the streams and the kernel.
pub record Client : Type 0 where
  pub epoll_fd : ℤ
  pub streams : ℕ → Stream
  pub links : Store
  pub stream_num : ℕ
  pub active_stream_num : ℤ
  pub busy : Chain
  pub idle : Chain
  pub stop : Bool
  pub kernel : Kernel

abbrev pub no_links : Links
no_links = record { last = none; next = none }

-- A stream that was set to zero.
abbrev pub no_stream : Stream
no_stream = record {
  index = 0;
  sock_fd = pos 0;
  server_ip = none;
  port = 0;
  server_addr = none;
  pool = none;
  close = false;
  error = false;
  update_time = none;
  tcp_state = state_none;
  data_of = 0;
  client = false;
  callbacks = no_callbacks;
}

abbrev pub max_stream_num : ℕ
max_stream_num = 10000

-- The client after `bzero`.
abbrev pub fresh_client : (stream_num : ℕ) → Client
fresh_client stream_num = record {
  epoll_fd = pos 0;
  streams = λ i. no_stream;
  links = λ i. no_links;
  stream_num = stream_num;
  active_stream_num = pos 0;
  busy = empty;
  idle = empty;
  stop = false;
  kernel = record { watched = []; closed = []; freed = [] };
}

abbrev pub with_idle : Client → Store × Chain → Client
with_idle c (h, ch) = record c { links = h; idle = ch }

abbrev pub with_busy : Client → Store × Chain → Client
with_busy c (h, ch) = record c { links = h; busy = ch }

abbrev pub add_stream_into_idle_list : ℕ → Client → Client
add_stream_into_idle_list x c = with_idle c (add_stream x (c.links, c.idle))

abbrev pub add_stream_into_busy_list : ℕ → Client → Client
add_stream_into_busy_list x c = with_busy c (add_stream x (c.links, c.busy))

abbrev pub clear_links : ℕ → Client → Client
clear_links x c = record c { links = update c.links x no_links }

-- `delete_stream_from_idle_list`, which sets the pointers of the stream to NULL, other than in the
-- server.
abbrev pub delete_stream_from_idle_list : ℕ → Client → Client
delete_stream_from_idle_list x c = clear_links x (with_idle c (delete_stream x (c.links, c.idle)))

-- `delete_stream_from_busy_list`, which nothing calls.
abbrev pub delete_stream_from_busy_list : ℕ → Client → Client
delete_stream_from_busy_list x c = with_busy c (delete_stream x (c.links, c.busy))

abbrev pub take_idle : Option ℕ → Client → Option ℕ × Client
take_idle none c = (none, c)
take_idle (some x) c = (some x, delete_stream_from_idle_list x c)

-- `get_idle_tcp_client_stream`
unfoldable pub get_idle_tcp_client_stream : Client → Option ℕ × Client
get_idle_tcp_client_stream c = take_idle c.idle.tail c
