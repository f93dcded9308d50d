-- ===== src/TcpServer/Accept.antt =====
-- network/tcp_server.c: what becomes of a new connection (`tcp_stream_init`, `accept_cb`).
use libeasy.Prelude.{ℕ, Bool, true, false, Option, none, some, if◌then◌else◌}
use libeasy.Prelude.Int.{ℤ, pos}
use libeasy.Prelude.Maps.{update}
use libeasy.MemPool.{Pool, create}
use libeasy.Time.{Time}
use libeasy.TcpServer.{Stream, Server, Callback, rcv_cb_default, snd_cb_default, close_fd}

-- What `accept` answers: an error, EAGAIN, or the descriptor and the address of a peer.
pub data Accepted : Type 0 where
  accept_failed : Accepted
  no_connection : Accepted
  connection : (fd remote_addr : ℕ) → Accepted

-- What the system answers to the calls of `accept_cb` and `tcp_stream_init`.
pub record Answers : Type 0 where
  pub accept : ℤ → Accepted
  pub nonblocking : Bool
  pub page_size : ℕ
  pub memalign : Option ℕ
  pub now : Time

abbrev pub or_default : Callback → Option Callback → Option Callback
or_default d none = some d
or_default d (some cb) = some cb

abbrev pub or_address : ℕ → Option ℕ → ℕ
or_address old none = old
or_address old (some remote_addr) = remote_addr

-- `tcp_stream_init` on the stream's fields, after `mem_pool_create` answered.
abbrev pub init_fields :
    Answers → (rcv snd : Option Callback) → Option Pool → ℤ → Option ℕ → Stream → Stream
init_fields a rcv snd none sock_fd remote t = record t { sock_fd = sock_fd; pool = none }
init_fields a rcv snd (some p) sock_fd remote t = record t {
  sock_fd = sock_fd;
  pool = some p;
  close = false;
  error = false;
  update_time = some a.now;
  data_of = 0;
  server = true;
  rcv_cb = or_default rcv_cb_default rcv;
  snd_cb = or_default snd_cb_default snd;
  remote_addr = or_address t.remote_addr remote;
}

abbrev pub tcp_stream_init : Answers → ℕ → ℤ → Option ℕ → Server → Server
tcp_stream_init a x sock_fd remote s =
    let pool = create a.page_size a.memalign in
    record s {
      streams =
          update s.streams x (init_fields a s.rcv_cb s.snd_cb pool sock_fd remote (s.streams x));
    }

-- `accept_cb` once `accept` answered. With a connection it goes on to `get_idle_tcp_stream(server)`,
-- where the local variable `server` was never set: undefined behaviour, whatever stands behind it.
unfoldable pub accept_answer : Answers → Accepted → Server → Option (Bool × Server)
accept_answer a accept_failed s = some (false, s)
accept_answer a no_connection s = some (true, s)
accept_answer a (connection fd remote) s =
    if a.nonblocking then none else some (false, record s { kernel = close_fd (pos fd) s.kernel })

abbrev pub accept_cb : Answers → (listen_stream : ℕ) → Server → Option (Bool × Server)
accept_cb a listen_stream s = accept_answer a (a.accept ((s.streams listen_stream).sock_fd)) s
