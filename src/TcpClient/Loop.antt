-- ===== src/TcpClient/Loop.antt =====
-- network/tcp_client.c: the loop over the events (`tcp_client_run`).
use libeasy.Prelude.{ℕ, Bool, true, false, ◌||◌, Option, none, some, List, [], ◌∷◌, if◌then◌else◌}
use libeasy.Prelude.Fault.{◌>>=◌}
use libeasy.Prelude.Int.{pos, ◌-ℤ◌}
use libeasy.Prelude.Maps.{update}
use libeasy.TcpServer.Loop.{Event, Outcome, returned, waiting}
use libeasy.TcpClient.{Client}

-- The callbacks of the caller, by number, on a stream.
abbrev pub User : Type 0
User = (n x : ℕ) → Client → Client

abbrev pub set_error : ℕ → Client → Client
set_error x c = record c { streams = update c.streams x (record (c.streams x) { error = true }) }

-- The branches for EPOLLERR, for EPOLLHUP and for other flags; the last two do nothing.
abbrev pub on_err : Event → ℕ → Client → Client
on_err e x c = if e.is_err then set_error x c else c

abbrev pub on_out : User → Event → Option ℕ → ℕ → Client → Client
on_out u e none x c = on_err e x c
on_out u e (some n) x c = if e.is_out then u n x c else on_err e x c

abbrev pub on_in : User → Event → Option ℕ → ℕ → Client → Client
on_in u e none x c = on_out u e ((c.streams x).callbacks.snd_cb) x c
on_in u e (some n) x c =
    if e.is_in then u n x c else on_out u e ((c.streams x).callbacks.snd_cb) x c

-- `close` is `tcp_stream_close`, which is not declared for streams of a client.
module _ (u : User) (close : ℕ → Client → Option Client) where
  -- The last test of the loop's body.
  unfoldable pub end_event : ℕ → Client → Option Client
  end_event x c =
      if (c.streams x).error || (c.streams x).close
      then (close x c >>= λ d. some (record d { active_stream_num = d.active_stream_num -ℤ pos 1 }))
      else some c

  unfoldable pub handle_event : Event → Option ℕ → Client → Option Client
  handle_event e none c = some c
  handle_event e (some x) c = end_event x (on_in u e ((c.streams x).callbacks.rcv_cb) x c)

  unfoldable pub handle_events : List Event → Client → Option Client
  handle_events [] c = some c
  handle_events (e ∷ es) c = handle_event e e.stream c >>= λ d. handle_events es d

  -- What `epoll_wait` answers: `none` for an error.
  abbrev pub after_wait :
      Option (List Event)
      → (Client → Option (Outcome × Client))
      → Client
      → Option (Outcome × Client)
  after_wait none more c = some (returned false, c)
  after_wait (some es) more c = handle_events es c >>= more

  unfoldable pub run_loop : List (Option (List Event)) → Client → Option (Outcome × Client)
  run_loop [] c = some (if c.stop then returned true else waiting, c)
  run_loop (w ∷ ws) c =
      let more : Client → Option (Outcome × Client) = λ d. run_loop ws d in
      if c.stop then some (returned true, c) else after_wait w more c

  -- `tcp_client_run`; `malloc` says that there is room for the events.
  unfoldable pub tcp_client_run :
      (malloc : Bool)
      → List (Option (List Event))
      → Option Client
      → Option (Outcome × Option Client)
  tcp_client_run malloc ws none = some (returned false, none)
  tcp_client_run malloc ws (some c) =
      if malloc
      then (run_loop ws c >>= λ r. some (r.0, some (r.1)))
      else some (returned false, some c)
