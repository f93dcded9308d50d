-- ===== src/TcpServer/Tests.antt =====
-- network/tcp_server.c: the theorems at concrete inputs. The server has three streams, and the caller
-- has its epoll watch the listening one.
use libeasy.Prelude.{◌≡◌, refl, ap, ◌-◌, true, false, none, some, List, [], ◌∷◌}
use libeasy.Prelude.Fault.{Returns}
use libeasy.Prelude.Int.{pos}
use libeasy.MemPool.{create}
use libeasy.TcpServer.{Server, tcp_stream_close}
use libeasy.TcpServer.Accept.{Answers, connection}
use libeasy.TcpServer.Create.{Setup, conn_count, tcp_server_create}
use libeasy.TcpServer.Loop.{User, Waited, events, run_loop}
use libeasy.TcpServer.Valid.{IsServer, Closed, tcp_stream_close-Closed}
use libeasy.TcpServer.Start.{
  Succeeds, Started, started, started-Started, tcp_server_create-some, tcp_server_create-Started,
}
use libeasy.TcpServer.Errors.{create_deaf, tcp_server_create_failed}

abbrev answers : Answers
answers = record {
  accept = λ fd. connection 9 7;
  nonblocking = true;
  page_size = 4096;
  memalign = some 4096;
  now = record { sec = pos 1; usec = pos 0 };
}

abbrev setup : Setup
setup = record {
  server_room = true;
  streams_room = true;
  socket = pos 3;
  nonblocking = true;
  reuse = true;
  bind = true;
  listen = true;
  epoll_create = pos 4;
  own = answers;
}

abbrev setup_succeeds : Succeeds setup
setup_succeeds = record {
  server_room = refl;
  streams_room = refl;
  listen_fd = 3;
  socket = refl;
  nonblocking = refl;
  reuse = refl;
  bind = refl;
  listen = refl;
  epoll_fd = 4;
  epoll_create = refl;
}

abbrev three_streams : Server
three_streams =
    let s = started setup 80 2 setup_succeeds in
    record s { kernel = record s.kernel { watched = (3, 2) ∷ [] } }

three_streams-IsServer : IsServer three_streams (2 ∷ []) (0 ∷ 1 ∷ [])
unfolding create
three_streams-IsServer =
    let s = started-Started setup 80 2 setup_succeeds in
    record { chains = s.server_is.chains; all = s.server_is.all; watches = (refl, refl, refl, tt) }

tcp_stream_close-Closed_example :
    Returns (tcp_stream_close 2 three_streams) (λ t. Closed three_streams t 2 [] [] (0 ∷ 1 ∷ []))
unfolding create
tcp_stream_close-Closed_example =
    tcp_stream_close-Closed three_streams 2 [] [] (0 ∷ 1 ∷ []) three_streams-IsServer refl

-- A callback that does nothing.
abbrev idle_user : User
idle_user = λ n r. r

-- No event.
abbrev silence : List Waited
silence = events [] ∷ events [] ∷ []

tcp_server_create-Started_example :
    Returns
      ((tcp_server_create setup 80 (pos 3)).0)
      (λ s. Started setup 80 (conn_count (pos 3) - 1) s)
tcp_server_create-Started_example = tcp_server_create-Started setup 80 (pos 3) setup_succeeds

abbrev created : Server
created = started setup 80 2 setup_succeeds

create_deaf_example : Returns (run_loop idle_user silence created) (λ r. r.1 ≡ created)
create_deaf_example =
    create_deaf setup 80 (pos 3) idle_user silence created setup_succeeds
      (ap (λ r. r.0) (tcp_server_create-some setup 80 2 setup_succeeds (pos 3) refl))
      (tt, λ t e. (tt, λ v f. tt))

tcp_server_create_failed_example :
    tcp_server_create (record setup { bind = false }) 80 (pos 3) ≡ (none, pos 3 ∷ pos 0 ∷ [])
tcp_server_create_failed_example =
    tcp_server_create_failed (record setup { bind = false }) 80 (pos 3) refl refl 3 refl refl
