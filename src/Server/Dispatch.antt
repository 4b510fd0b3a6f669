-- ===== src/Server/Dispatch.antt =====
-- A pass of the event loop over the server's handlers: `el_run` of
-- server/src/lib/event_loop/event_loop.c with the handlers that server.c hands to it. The loop has one
-- thread, and `now` is what time() returns in the pass. An address of no handler is a fault.
use postman.Prelude.{
  ℕ, zero, suc, ◌+◌, List, [], ◌∷◌, length, get_elem?, Bool, true, false, not, ◌&&◌, Option, none,
  some, leb, ◌==◌, if◌then◌else◌,
}
use postman.EventLoop.Event.{
  ErrorType, EventType, sock_accept, sock_read, sock_write, sock_close, Event, s_malloc,
}
use postman.EventLoop.Loop.{EventLoop, take_occurred}
use postman.Smtp.Regex.{Matcher}
use postman.Maildir.{FileSystem}
use postman.Server.Users.{ClientAddr, UserContext}
use postman.Server.State.{
  handler_accept_at, handler_hello_write_at, handler_read_at, handler_write_at,
  handler_write_msg_at, handler_close_socket_at, handler_timer_at, Configuration, Server,
  TimerEvent,
}
use postman.Server.Handlers.{
  handler_accept, handler_hello_write, handler_write, handler_close_socket, handler_timer,
  handler_write_msg_of_close_connection_by_timeout,
}
use postman.Server.Read.{Served, fault, served, handler_read}

-- An assignment to the timer at an index.
unfoldable pub change_timer : (TimerEvent → TimerEvent) → List TimerEvent → ℕ → List TimerEvent
change_timer f [] i = []
change_timer f (e ∷ events) zero = f e ∷ events
change_timer f (e ∷ events) (suc i) = e ∷ change_timer f events i

abbrev pub processed : TimerEvent → TimerEvent
processed e = record e { is_processed = true }

abbrev pub restarted : ℕ → TimerEvent → TimerEvent
restarted now e = record e { is_processed = false; time_start = now }

abbrev pub is_due : ℕ → TimerEvent → Bool
is_due now e = leb (e.time_start + e.period) now && not e.is_processed && not e.has_delete

-- The timers that are flagged leave the list.
unfoldable pub without_removed : List TimerEvent → List Bool → List TimerEvent
without_removed [] flags = []
without_removed (e ∷ events) [] = e ∷ events
without_removed (e ∷ events) (true ∷ flags) = without_removed events flags
without_removed (e ∷ events) (false ∷ flags) = e ∷ without_removed events flags

-- Whether the timer is to leave the list at the end of the pass, with the state; none is a fault.
abbrev pub Fired : Type 0 → Type 0
Fired D = Option (Server D × Bool)

module _ {D : Type 0} where
  abbrev pub with_timer : (TimerEvent → TimerEvent) → ℕ → Server D → Server D
  with_timer f i srv = record srv { timer_events = change_timer f srv.timer_events i }

  -- A timer that was deleted gets an entry in the list of those to remove, whose memory is not tested.
  unfoldable pub list_removed : ℕ → Server D → TimerEvent → Fired D
  unfolding change_timer s_malloc
  list_removed i srv e =
      if e.has_delete && not e.is_processed
      then (let (got, m) = s_malloc srv.memory in
          if got then some (with_timer processed i (record srv { memory = m }), true) else none)
      else some (srv, false)

  unfoldable pub after_timer : ℕ → Option (Server D) → Fired D
  unfolding list_removed
  after_timer i none = none
  after_timer i (some srv) = elim (get_elem? srv.timer_events i) [
    | none ↦ some (srv, false)
    | some e ↦ list_removed i srv e
  ]

  unfoldable pub next_timer : Option (Server D × List Bool) → Bool → Option (Server D × List Bool)
  next_timer none flag = none
  next_timer (some (srv, flags)) flag = some (srv, flag ∷ flags)

module _ {D : Type 0} (config : Configuration) (now : ℕ) where
  -- A timer that is due calls its handler and starts anew.
  unfoldable pub fire_timer : ℕ → Server D → TimerEvent → Option (Server D)
  unfolding handler_timer change_timer
  fire_timer i srv e =
      if is_due now e
      then (if e.handler == handler_timer_at
          then some (
              with_timer (restarted now) i
                (handler_timer config now (with_timer processed i srv) e.socket i))
          else none)
      else some srv

  -- The first loop of `el_run`, by the number of timers left.
  unfoldable pub run_timers : ℕ → ℕ → Server D → Option (Server D × List Bool)
  unfolding fire_timer after_timer next_timer
  run_timers zero i srv = some (srv, [])
  run_timers (suc left) i srv = elim (get_elem? srv.timer_events i) [
    | none ↦ some (srv, [])
    | some e ↦ elim (after_timer i (fire_timer i srv e)) [
      | none ↦ none
      | some (next, flag) ↦ next_timer (run_timers left (suc i) next) flag
    ]
  ]

abbrev pub or_null : {D : Type 0} → Option (Server D) → Served D
or_null none = fault
or_null (some srv) = served srv

module _ {D : Type 0} (now : ℕ) where
  unfoldable pub pr_sock_write_execute : Server D → Event → Served D
  unfolding handler_hello_write handler_write handler_write_msg_of_close_connection_by_timeout
  pr_sock_write_execute srv event =
      if event.handler == handler_hello_write_at
      then served (handler_hello_write now srv event.socket event.status)
      else if event.handler == handler_write_at
      then served (handler_write now srv event.socket event.status)
      else if event.handler == handler_write_msg_at
      then or_null (handler_write_msg_of_close_connection_by_timeout srv event.socket)
      else fault

module _ {D : Type 0} (fs : FileSystem D) (config : Configuration) (now : ℕ) (regexec : Matcher)
    (context : UserContext) (addr : ClientAddr) where
  -- The handler of the event's type gets what the event holds.
  unfoldable pub execute_event : Server D → Event → EventType → Served D
  unfolding handler_accept handler_read pr_sock_write_execute handler_close_socket
  execute_event srv event sock_accept =
      if event.handler == handler_accept_at
      then served (handler_accept config now srv context event.client_socket addr)
      else fault
  execute_event srv event sock_read =
      if event.handler == handler_read_at
      then handler_read fs config now regexec srv event.socket event.buffer event.offset
          event.status
      else fault
  execute_event srv event sock_write = pr_sock_write_execute now srv event
  execute_event srv event sock_close =
      if event.handler == handler_close_socket_at
      then served (handler_close_socket srv event.socket)
      else fault

  -- Without an event there is nothing to do.
  unfoldable pub next_event : Server D → ErrorType × Option Event × EventLoop → Served D
  unfolding execute_event
  next_event srv (_, none, loop) = served srv
  next_event srv (_, some event, loop) = execute_event (record srv { loop = loop }) event event.type

  unfoldable pub run_event : Server D → Served D
  unfolding take_occurred next_event
  run_event srv = next_event srv (take_occurred srv.loop)

  unfoldable pub after_timers : Option (Server D × List Bool) → Served D
  unfolding without_removed run_event
  after_timers none = fault
  after_timers (some (srv, flags)) =
      run_event (record srv { timer_events = without_removed srv.timer_events flags })

  unfoldable pub el_run : Server D → Served D
  unfolding run_timers after_timers
  el_run srv = after_timers (run_timers config now (length srv.timer_events) 0 srv)
