-- ===== src/TcpServer/Loop.antt =====
-- network/tcp_server.c: the loop over the events (`tcp_server_run`), and how a caller steers it.
use libeasy.Prelude.{ℕ, Bool, true, false, ◌||◌, Option, none, some, List, [], ◌∷◌, if◌then◌else◌}
use libeasy.Prelude.Fault.{◌>>=◌}
use libeasy.Prelude.Int.{pos, ◌-ℤ◌}
use libeasy.Prelude.Maps.{update}
use libeasy.TcpServer.{
  Stream, Server, Callback, rcv_cb_default, snd_cb_default, accept_cb, user, tcp_stream_close,
}
use libeasy.TcpServer.Accept
use libeasy.TcpServer.Accept.{Answers}

-- An entry that `epoll_wait` fills.
pub record Event : Type 0 where
  pub stream : Option ℕ
  pub is_in : Bool
  pub is_out : Bool
  pub is_err : Bool
  pub is_hup : Bool

-- The callbacks of the caller. One may change its stream, and stop the server.
abbrev pub User : Type 0
User = ℕ → Stream × Bool → Stream × Bool

abbrev pub run_user : User → (n x : ℕ) → Server → Server
run_user u n x s =
    let r = u n (s.streams x, s.stop) in record s { streams = update s.streams x (r.0); stop = r.1 }

unfoldable pub call : User → Answers → Callback → ℕ → Server → Option Server
call u a rcv_cb_default x s = some s
call u a snd_cb_default x s = some s
call u a accept_cb x s = Accept.accept_cb a x s >>= λ r. some (r.1)
call u a (user n) x s = some (run_user u n x s)

abbrev pub set_error : ℕ → Server → Server
set_error x s = record s { streams = update s.streams x (record (s.streams x) { error = true }) }

-- The branches for EPOLLERR, for EPOLLHUP and for other flags; the last two only log.
abbrev pub on_err : Event → ℕ → Server → Server
on_err e x s = if e.is_err then set_error x s else s

abbrev pub on_out : User → Answers → Event → Option Callback → ℕ → Server → Option Server
on_out u a e none x s = some (on_err e x s)
on_out u a e (some cb) x s = if e.is_out then call u a cb x s else some (on_err e x s)

abbrev pub on_in : User → Answers → Event → Option Callback → ℕ → Server → Option Server
on_in u a e none x s = on_out u a e ((s.streams x).snd_cb) x s
on_in u a e (some cb) x s =
    if e.is_in then call u a cb x s else on_out u a e ((s.streams x).snd_cb) x s

-- The last test of the loop's body.
unfoldable pub end_event : ℕ → Server → Option Server
end_event x s =
    if (s.streams x).error || (s.streams x).close
    then (tcp_stream_close x s >>= λ t.
        some (record t { active_stream_num = t.active_stream_num -ℤ pos 1 }))
    else some s

unfoldable pub handle_stream : User → Answers → Event → Option ℕ → Server → Option Server
handle_stream u a e none s = some s
handle_stream u a e (some x) s = on_in u a e ((s.streams x).rcv_cb) x s >>= end_event x

abbrev pub handle_event : User → Answers → Event → Server → Option Server
handle_event u a e s = handle_stream u a e e.stream s

-- The events of one call of `epoll_wait`, each with what the system answers to its handler.
unfoldable pub handle_events : User → List (Event × Answers) → Server → Option Server
handle_events u [] s = some s
handle_events u ((e, a) ∷ es) s = handle_event u a e s >>= λ t. handle_events u es t

pub data Waited : Type 0 where
  wait_failed : Waited
  events : List (Event × Answers) → Waited

-- `tcp_server_run` returned a number, or still waits after the given calls of `epoll_wait`.
pub data Outcome : Type 0 where
  returned : Bool → Outcome
  waiting : Outcome

abbrev pub after_wait :
    User → Waited → (Server → Option (Outcome × Server)) → Server → Option (Outcome × Server)
after_wait u wait_failed more s = some (returned false, s)
after_wait u (events es) more s = handle_events u es s >>= more

unfoldable pub run_loop : User → List Waited → Server → Option (Outcome × Server)
run_loop u [] s = some (if s.stop then returned true else waiting, s)
run_loop u (w ∷ ws) s =
    let more : Server → Option (Outcome × Server) = λ t. run_loop u ws t in
    if s.stop then some (returned true, s) else after_wait u w more s

-- `tcp_server_run`; `malloc` says that there is room for the events.
unfoldable pub tcp_server_run :
    User → (malloc : Bool) → List Waited → Option Server → Option (Outcome × Option Server)
tcp_server_run u malloc ws none = some (returned false, none)
tcp_server_run u malloc ws (some s) =
    if malloc
    then (run_loop u ws s >>= λ r. some (r.0, some (r.1)))
    else some (returned false, some s)

unfoldable pub tcp_server_stop : Server → Server
tcp_server_stop s = record s { stop = true }

unfoldable pub tcp_server_set_rcv_cb : Server → Option Callback → Server
tcp_server_set_rcv_cb s cb = record s { rcv_cb = cb }

unfoldable pub tcp_server_set_snd_cb : Server → Option Callback → Server
tcp_server_set_snd_cb s cb = record s { snd_cb = cb }
