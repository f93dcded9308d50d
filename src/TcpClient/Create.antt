-- ===== src/TcpClient/Create.antt =====
-- network/tcp_client.c: `tcp_client_create`, `tcp_client_destroy` and `tcp_client_stop`.
use libeasy.Prelude.{ℕ, zero, suc, Bool, true, Option, none, some, List, [], if◌then◌else◌}
use libeasy.Prelude.Int.{ℤ, pos, negsuc, ltb_ℤ, pos_part}
use libeasy.Prelude.Maps.{update}
use libeasy.TcpServer.Create.{closes}
use libeasy.TcpClient.{Client, fresh_client, max_stream_num, add_stream_into_idle_list}

-- `max_conn_count`
abbrev pub conn_count : ℤ → ℕ
conn_count max_conn = if ltb_ℤ (pos 0) max_conn then pos_part max_conn else max_stream_num

abbrev pub set_index : ℕ → Client → Client
set_index i c = record c {
  streams = update c.streams i (record (c.streams i) { index = i; sock_fd = negsuc 0 });
}

-- The loop that puts the streams from `i` on, `n` of them, into the idle list.
unfoldable pub fill_idle : (i n : ℕ) → Client → Client
fill_idle i zero c = c
fill_idle i (suc n) c = fill_idle (suc i) n (add_stream_into_idle_list i (set_index i c))

-- `tcp_client_destroy`: the descriptors that it closes. Those of the streams are not among them.
unfoldable pub tcp_client_destroy : Option Client → List ℤ
tcp_client_destroy none = []
tcp_client_destroy (some c) = closes c.epoll_fd

abbrev pub fail : Option Client → Option Client × List ℤ
fail c = (none, tcp_client_destroy c)

-- `tcp_client_create`, on whether there is memory for the client and for the streams and on what
-- `epoll_create` answers: the client, and the descriptors that a failure closes.
unfoldable pub tcp_client_create :
    (client_room streams_room : Bool) (epoll_create max_conn : ℤ) → Option Client × List ℤ
tcp_client_create client_room streams_room epoll_create max_conn =
    let n = conn_count max_conn in
    let c = record (fill_idle 0 n (fresh_client n)) { epoll_fd = epoll_create } in
    if client_room
    then (if streams_room
        then (if ltb_ℤ epoll_create (pos 0) then fail (some c) else (some c, []))
        else fail (some (fresh_client 0)))
    else fail none

unfoldable pub tcp_client_stop : Client → Client
tcp_client_stop c = record c { stop = true }
