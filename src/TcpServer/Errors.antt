-- ===== src/TcpServer/Errors.antt =====
-- network/tcp_server.c: what goes wrong.
use libeasy.Prelude.{
  ℕ, ◌-◌, zero, suc, ◌≡◌, subst, refl, sym, ap, ◌∙◌, true, false, Bool, ◌==◌, ◌||◌, not, ◌&&◌,
  Option, none, some, List, [], ◌∷◌, ◌++◌, arith,
}
use libeasy.Prelude.Fault.{Returns, ◌>>=◌}
use libeasy.Prelude.Int.{ℤ, pos, negsuc, ltb_ℤ}
use libeasy.TcpServer.{Server, fresh_server, add_stream_into_idle_list, tcp_stream_close}
use libeasy.TcpServer.Accept.{Answers}
use libeasy.TcpServer.Create
use libeasy.TcpServer.Create.{
  Setup, closes, conn_count, set_index, tcp_server_create, tcp_server_destroy, open_sockets,
  fill_idle,
}
use libeasy.TcpServer.Loop.{
  User, Event, handle_stream, handle_event, handle_events, Waited, wait_failed, events, run_loop,
}
use libeasy.TcpServer.Start.{not_error, Succeeds, Started, tcp_server_create-Started}

-- epoll watches a descriptor of the stream.
abbrev pub is_watched : ℕ → List (ℕ × ℕ) → Bool
is_watched x [] = false
is_watched x ((fd, y) ∷ ws) = (x == y) || is_watched x ws

-- An event is for a stream that is watched, or for none.
abbrev pub Reports : Option ℕ → Server → Type 0
Reports none s = Unit
Reports (some x) s = is_watched x s.kernel.watched ≡ true

-- Every event is so when its turn comes.
abbrev pub AllReport : User → List (Event × Answers) → Server → Type 0
AllReport u [] s = Unit
AllReport u ((e, a) ∷ es) s =
    Reports e.stream s × ((t : Server) → handle_event u a e s ≡ some t → AllReport u es t)

abbrev pub WaitsReport : User → List Waited → Server → Type 0
WaitsReport u [] s = Unit
WaitsReport u (wait_failed ∷ ws) s = Unit
WaitsReport u (events es ∷ ws) s =
    AllReport u es s × ((t : Server) → handle_events u es s ≡ some t → WaitsReport u ws t)

module _ (u : User) (s : Server) (unwatched : s.kernel.watched ≡ []) where
  handle_stream_deaf :
      (a : Answers) (e : Event) (x : Option ℕ) → Reports x s → handle_stream u a e x s ≡ some s
  unfolding handle_stream
  handle_stream_deaf a e none r = refl
  handle_stream_deaf a e (some x) r =
      let no : is_watched x [] ≡ true = ap (is_watched x) (sym unwatched) ∙ r in absurd (cc)

  handle_events_deaf :
      (es : List (Event × Answers)) → AllReport u es s → handle_events u es s ≡ some s
  unfolding handle_events
  handle_events_deaf [] r = refl
  handle_events_deaf ((e, a) ∷ es) r =
      let once = handle_stream_deaf a e e.stream (r.0) in
      ap (λ m. m >>= λ t. handle_events u es t) once ∙ handle_events_deaf es (r.1 s once)

  run_loop_deaf :
      (ws : List Waited)
      → s.stop ≡ false
      → WaitsReport u ws s
      → Returns (run_loop u ws s) (λ r. r.1 ≡ s)
  unfolding run_loop
  run_loop_deaf [] go r = refl
  run_loop_deaf (wait_failed ∷ ws) go r = simp (go) refl
  run_loop_deaf (events es ∷ ws) go r =
      let once = handle_events_deaf es (r.0) in simp (go, once) (run_loop_deaf ws go (r.1 s once))

-- A server as `tcp_server_create` leaves it where all its calls of the system succeed gets no event,
-- since every event is for a watched stream: however often it waits, and whatever the callbacks are,
-- it accepts nothing and stays as it is.
pub create_deaf :
    (a : Setup) (port : ℕ) (max_conn : ℤ) (u : User) (ws : List Waited) (s : Server)
    → Succeeds a
    → (tcp_server_create a port max_conn).0 ≡ some s
    → WaitsReport u ws s
    → Returns (run_loop u ws s) (λ r. r.1 ≡ s)
create_deaf a port max_conn u ws s ok e r =
    let k : Started a port (conn_count max_conn - 1) s =
      subst (λ o. Returns o (Started a port (conn_count max_conn - 1))) e
        (tcp_server_create-Started a port max_conn ok) in
    run_loop_deaf u s k.watched_is ws k.stop_is r

tcp_stream_close_null :
    (x : ℕ) (s : Server) → (s.streams x).server ≡ false → tcp_stream_close x s ≡ none
unfolding tcp_stream_close
tcp_stream_close_null x s h = simp (h) refl

negative : (n : ℕ) → ltb_ℤ (negsuc n) (pos 0) ≡ true
negative n = ground arith

fill_idle-fds :
    (i n : ℕ) (s : Server)
    → ((fill_idle i n s).listen_fd ≡ s.listen_fd) × ((fill_idle i n s).epoll_fd ≡ s.epoll_fd)
unfolding fill_idle
fill_idle-fds i zero s = (refl, refl)
fill_idle-fds i (suc n) s = fill_idle-fds (suc i) n (add_stream_into_idle_list i (set_index i s))

module _ (a : Setup) (s : Server) where
  refuse_socket :
      a.socket ≡ negsuc 0 → open_sockets a s ≡ (false, record s { listen_fd = negsuc 0 })
  unfolding open_sockets
  refuse_socket h = rw (h) refl

  refuse_call :
      (l : ℕ)
      → a.socket ≡ pos l
      → (a.nonblocking && a.reuse && a.bind && a.listen) ≡ false
      → open_sockets a s ≡ (false, record s { listen_fd = pos l })
  unfolding open_sockets
  refuse_call l h b = simp (h, b, not_error l) refl

  refuse_epoll :
      (l e : ℕ)
      → a.socket ≡ pos l
      → (a.nonblocking && a.reuse && a.bind && a.listen) ≡ true
      → a.epoll_create ≡ negsuc e
      → open_sockets a s ≡ (false, record s { listen_fd = pos l; epoll_fd = negsuc e })
  unfolding open_sockets
  refuse_epoll l e h b n =
      simp (h, b, n, not_error l)
        (ap (λ c. (not c, record s { listen_fd = pos l; epoll_fd = negsuc e })) (negative e))

module _ (a : Setup) (port : ℕ) (max_conn : ℤ) (server_room : a.server_room ≡ true)
    (streams_room : a.streams_room ≡ true) where
  abbrev filled_for : Server
  filled_for = fill_idle 0 (conn_count max_conn) (fresh_server port (conn_count max_conn))

  refused :
      (t : Server)
      → open_sockets a filled_for ≡ (false, t)
      → tcp_server_create a port max_conn ≡ (none, closes t.listen_fd ++ closes t.epoll_fd)
  unfolding tcp_server_create tcp_server_destroy
  refused t h = simp (server_room, streams_room) (ap (Create.opened a) h)

  fd_zero : filled_for.epoll_fd ≡ pos 0
  fd_zero = (fill_idle-fds 0 (conn_count max_conn) (fresh_server port (conn_count max_conn))).1

  pub socket_failed : a.socket ≡ negsuc 0 → tcp_server_create a port max_conn ≡ (none, pos 0 ∷ [])
  socket_failed h = refused _ (refuse_socket a filled_for h) ∙ ap (λ e. (none, closes e)) fd_zero

  -- Where a call between `socket` and `epoll_create` fails, `tcp_server_create` closes the socket and
  -- also descriptor 0, which it never opened.
  pub tcp_server_create_failed :
      (l : ℕ)
      → a.socket ≡ pos l
      → (a.nonblocking && a.reuse && a.bind && a.listen) ≡ false
      → tcp_server_create a port max_conn ≡ (none, pos l ∷ pos 0 ∷ [])
  tcp_server_create_failed l h b =
      refused _ (refuse_call a filled_for l h b) ∙ ap (λ e. (none, pos l ∷ closes e)) fd_zero

  pub epoll_failed :
      (l e : ℕ)
      → a.socket ≡ pos l
      → (a.nonblocking && a.reuse && a.bind && a.listen) ≡ true
      → a.epoll_create ≡ negsuc e
      → tcp_server_create a port max_conn ≡ (none, pos l ∷ [])
  epoll_failed l e h b n = refused _ (refuse_epoll a filled_for l e h b n)
