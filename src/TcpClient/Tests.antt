-- ===== src/TcpClient/Tests.antt =====
-- network/tcp_client.c: runs, and the theorems at concrete inputs.
use libeasy.Prelude.{◌≡◌, refl, true, false, inr, none, some, List, [], ◌∷◌}
use libeasy.Prelude.Fault.{Returns, ◌>>=◌}
use libeasy.Prelude.Int.{pos, negsuc, ◌-ℤ◌}
use libeasy.Prelude.Text.{codes}
use libeasy.Prelude.Maps.{upto}
use libeasy.TcpClient.{Client, Callbacks, fresh_client}
use libeasy.TcpClient.Connecting.{Answers, in_progress, tcp_client_add_server, on_address}
use libeasy.TcpClient.Create.{fill_idle, tcp_client_create, tcp_client_destroy}
use libeasy.TcpClient.Loop.{tcp_client_run, run_loop, handle_events, handle_event, end_event}
use libeasy.TcpClient.Valid.{IsClient}
use libeasy.TcpClient.Added.{AddedOrRefused, tcp_client_add_server-AddedOrRefused}
use libeasy.TcpClient.Session.{Add, Adds, add_all, add_all-Adds}
use libeasy.TcpClient.Start.{Created, tcp_client_create-Created}

-- Without memory for the streams `tcp_client_destroy` closes the descriptor 0, which it did not open.
descriptor_test : tcp_client_create true false (pos 3) (pos 2) ≡ (none, pos 0 ∷ [])
unfolding tcp_client_create tcp_client_destroy
descriptor_test = refl

abbrev client : Client
client = record (fill_idle 0 2 (fresh_client 2)) { epoll_fd = pos 3 }

tcp_client_create-Created_example :
    Returns ((tcp_client_create true true (pos 3) (pos 2)).0) (Created 2 3)
tcp_client_create-Created_example = tcp_client_create-Created 3 (pos 2)

client-IsClient : IsClient client [] (upto 0 2)
unfolding tcp_client_create
client-IsClient = (tcp_client_create-Created 3 (pos 2)).client_is

abbrev answers : Answers
answers = record {
  socket = some 5;
  nonblocking = true;
  page_size = 4096;
  pool_at = some 65536;
  now = record { sec = pos 1; usec = pos 0 };
  ip_at = none;
  inet_addr = λ text. some 2130706433;
  gethostbyname = λ text. true;
  connect = in_progress;
  epoll_add = true;
}

abbrev callbacks : Callbacks
callbacks = record { rcv_cb = some 1; snd_cb = some 2; conn_cb = none }

tcp_client_add_server-AddedOrRefused_example :
    Returns
      (tcp_client_add_server answers callbacks (codes "127.0.0.1") 80 client)
      (AddedOrRefused answers callbacks (codes "127.0.0.1") 80 client 1 [] (0 ∷ []))
tcp_client_add_server-AddedOrRefused_example =
    tcp_client_add_server-AddedOrRefused answers callbacks (codes "127.0.0.1") 80 client 1 []
      (0 ∷ []) client-IsClient (inr (2130706433, refl))

-- Two connections, one with a refused descriptor between them, and one more than there are streams.
abbrev adds : List Add
adds =
    let a : Add = record {
      answers = answers;
      callbacks = callbacks;
      server = codes "127.0.0.1";
      port = 80;
    } in
    a ∷ record a { answers = record answers { epoll_add = false } } ∷ a ∷ a ∷ []

add_all-Adds_example : Returns (add_all adds client) (Adds 0 2)
add_all-Adds_example =
    let known = inr (2130706433, refl) in
    add_all-Adds adds client 0 2 (known, (known, (known, (known, tt))))
      (record {
        busy_list = [];
        idle_list = upto 0 2;
        client_is = client-IsClient;
        busy_is = refl;
        idle_is = refl;
      })

-- The name of a host is looked up, and more is copied than the address has room for.
host_test :
    on_address answers callbacks 1 5 (codes "localhost") none (client.streams 1, client.kernel)
    ≡ none
host_test = refl

-- A stream that is closed is taken off a count that it was never added to.
count_test :
    (tcp_client_run
        (λ n x c. c)
        (λ x c. some c)
        true
        (some (
            record { stream = some 0; is_in = false; is_out = false; is_err = true; is_hup = false }
            ∷ [])
          ∷ [])
        (some client)
      >>= λ r. r.1 >>= λ c. some c.active_stream_num)
    ≡ some (negsuc 0)
unfolding tcp_client_run run_loop handle_events handle_event end_event fill_idle ◌-ℤ◌
count_test = refl
