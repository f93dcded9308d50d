-- ===== src/TcpServer/Create.antt =====
-- network/tcp_server.c: `tcp_server_create` and `tcp_server_destroy`.
use libeasy.Prelude.{
  ℕ, zero, suc, Bool, false, not, ◌&&◌, Option, none, some, List, [], ◌∷◌, ◌++◌, if◌then◌else◌,
}
use libeasy.Prelude.Int.{ℤ, pos, negsuc, ltb_ℤ, pos_part}
use libeasy.Prelude.Maps.{update}
use libeasy.TcpServer.{
  Server, accept_cb, fresh_server, max_stream_num, same_fd, get_idle_tcp_stream,
  add_stream_into_idle_list, add_stream_into_busy_list,
}
use libeasy.TcpServer.Accept.{Answers, tcp_stream_init}

-- What the system answers to the calls of `tcp_server_create`: a descriptor, or whether the call
-- succeeded. `own` is for the calls of `tcp_stream_init`.
pub record Setup : Type 0 where
  pub server_room : Bool
  pub streams_room : Bool
  pub socket : ℤ
  pub nonblocking : Bool
  pub reuse : Bool
  pub bind : Bool
  pub listen : Bool
  pub epoll_create : ℤ
  pub own : Answers

-- `max_conn_count`
abbrev pub conn_count : ℤ → ℕ
conn_count max_conn = if ltb_ℤ (pos 0) max_conn then pos_part max_conn else max_stream_num

abbrev pub set_index : ℕ → Server → Server
set_index i s = record s { streams = update s.streams i (record (s.streams i) { index = i }) }

-- The loop that puts the streams from `i` on, `n` of them, into the idle list.
unfoldable pub fill_idle : (i n : ℕ) → Server → Server
fill_idle i zero s = s
fill_idle i (suc n) s = fill_idle (suc i) n (add_stream_into_idle_list i (set_index i s))

-- From `socket` to `epoll_create`: whether all went well, and the server.
unfoldable pub open_sockets : Setup → Server → Bool × Server
open_sockets a s =
    let listening = record s { listen_fd = a.socket } in
    if same_fd a.socket (negsuc 0)
    then (false, listening)
    else (if a.nonblocking && a.reuse && a.bind && a.listen
        then (not (ltb_ℤ a.epoll_create (pos 0)), record listening { epoll_fd = a.epoll_create })
        else (false, listening))

-- `snd_cb` and `rcv_cb` of the listening stream.
abbrev pub set_listening : ℕ → Server → Server
set_listening x s = record s {
  streams = update s.streams x (record (s.streams x) { snd_cb = none; rcv_cb = some accept_cb });
}

-- `close` of a descriptor that is not negative.
abbrev pub closes : ℤ → List ℤ
closes (negsuc n) = []
closes (pos n) = pos n ∷ []

-- `tcp_server_destroy`: the descriptors that it closes, in order.
unfoldable pub tcp_server_destroy : Option Server → List ℤ
tcp_server_destroy none = []
tcp_server_destroy (some s) = closes s.listen_fd ++ closes s.epoll_fd

-- The label `error`.
abbrev pub fail : Option Server → Option Server × List ℤ
fail s = (none, tcp_server_destroy s)

-- The end of `tcp_server_create`, from `get_idle_tcp_stream`.
unfoldable pub listen_on : Setup → Option ℕ × Server → Option Server × List ℤ
listen_on a (none, s) = fail (some s)
listen_on a (some x, s) = (
  some (add_stream_into_busy_list x (set_listening x (tcp_stream_init a.own x s.listen_fd none s))),
  [],
)

abbrev pub opened : Setup → Bool × Server → Option Server × List ℤ
opened a (ok, s) = if ok then listen_on a (get_idle_tcp_stream s) else fail (some s)

-- `tcp_server_create`: the server, and the descriptors that a failure closes.
unfoldable pub tcp_server_create : Setup → (port : ℕ) (max_conn : ℤ) → Option Server × List ℤ
tcp_server_create a port max_conn =
    let n = conn_count max_conn in
    if a.server_room
    then (if a.streams_room
        then opened a (open_sockets a (fill_idle 0 n (fresh_server port n)))
        else fail (some (fresh_server port 0)))
    else fail none
