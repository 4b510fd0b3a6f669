-- ===== src/EventLoop/Loop.antt =====
-- The event loop's state and the calls that register events: server/include/event_loop/event_loop.h
-- and server/src/lib/event_loop/event_loop.c. The mutexes are left out, so a function runs as one
-- step; a lock that fails is left out with them. The timers stand beside
-- this state, with the server's.
use postman.Prelude.{ℕ, List, [], ◌∷◌, Option, none, some, if◌then◌else◌}
use postman.EventLoop.Event.{
  ℤ, pos, EventType, ErrorType, success, fatal, connected, Event, Memory, s_malloc,
}
use postman.EventLoop.Registered.{RegisteredQueue, req_push, req_pop}
use postman.EventLoop.Occurred.{OccurredQueue, oeq_push_back, oeq_pop_begin}
use postman.EventLoop.Sockets.{SocketsQueue, sq_add}

pub record EventLoop : Type 0 where
  pub acceptors_queue : SocketsQueue
  pub index_acceptors_start : ℕ
  pub registered_events : RegisteredQueue
  pub occurred_events : OccurredQueue

-- An event as `s_malloc` and the assignments behind it leave it: the other fields are 0.
abbrev pub made_event : EventType → ℤ → ℕ → List ℕ → ℕ → Event
made_event type sock handler buffer size = record {
  type = type;
  socket = sock;
  error = success;
  errno_value = 0;
  handler = handler;
  buffer = buffer;
  size = size;
  offset = 0;
  status = connected;
  client_socket = pos 0;
}

abbrev pub Result : Type 0
Result = ErrorType × EventLoop × Memory

-- The part that `el_async_read` and `el_async_write` share behind the test for NULL.
unfoldable pub register_event : EventType → Memory → EventLoop → ℤ → List ℕ → ℕ → ℕ → Result
unfolding s_malloc
register_event type memory loop sock buffer size handler =
    let (got, m) = s_malloc memory in
    let (e, q, n) =
      req_push type m loop.registered_events sock (made_event type sock handler buffer size) in
    if got then (e, record loop { registered_events = q }, n) else (fatal, loop, m)

-- A buffer that is NULL is `none`.
unfoldable pub el_async_read : Memory → EventLoop → ℤ → Option (List ℕ) → ℕ → ℕ → Result
unfolding register_event
el_async_read memory loop sock none size handler = (fatal, loop, memory)
el_async_read memory loop sock (some buffer) size handler =
    register_event EventType.sock_read memory loop sock buffer size handler

unfoldable pub el_async_write : Memory → EventLoop → ℤ → Option (List ℕ) → ℕ → ℕ → Result
unfolding register_event
el_async_write memory loop sock none size handler = (fatal, loop, memory)
el_async_write memory loop sock (some buffer) size handler =
    register_event EventType.sock_write memory loop sock buffer size handler

unfoldable pub el_async_accept : Memory → EventLoop → ℤ → Option ℕ → Result
el_async_accept memory loop sock handler =
    let (e, q, m) = sq_add memory loop.acceptors_queue sock handler in
    (e, record loop { acceptors_queue = q }, m)

-- The result is discarded by the caller, the queue is kept; a use of NULL has none.
abbrev pub dropped : Option (ErrorType × Option Event × RegisteredQueue) → Option RegisteredQueue
dropped none = none
dropped (some (e, o, q)) = some q

abbrev pub drop_in : EventType → ℤ → Option RegisteredQueue → Option RegisteredQueue
drop_in type sock none = none
drop_in type sock (some q) = dropped (req_pop type q sock)

-- The close event is allocated with no test, so that there is no result where memory lacks.
unfoldable pub close_event :
    Memory → EventLoop → ℤ → ℕ → RegisteredQueue → Option (ErrorType × EventLoop × Memory)
unfolding s_malloc oeq_push_back
close_event memory loop sock handler registered =
    let (got, m) = s_malloc memory in
    let (e, occurred, n) =
      oeq_push_back m loop.occurred_events (made_event EventType.sock_close sock handler [] 0) in
    let closed = record loop { registered_events = registered; occurred_events = occurred } in
    if got then some (e, closed, n) else none

-- The socket's write and its read event go away unhandled, and its close event occurs.
unfoldable pub el_socket_close :
    Memory → EventLoop → ℤ → ℕ → Option (ErrorType × EventLoop × Memory)
unfolding close_event
el_socket_close memory loop sock handler =
    elim (drop_in EventType.sock_read sock
      (drop_in EventType.sock_write sock (some loop.registered_events))) [
        | none ↦ none
        | some q ↦ close_event memory loop sock handler q
      ]

-- The part of `el_run` behind the timers: the oldest event that has occurred is taken, and what it
-- calls is the handler of its type with the event. The error NOT_FOUND goes with none.
unfoldable pub take_occurred : EventLoop → ErrorType × Option Event × EventLoop
unfolding oeq_pop_begin
take_occurred loop = elim loop.occurred_events [
  | [] ↦ (ErrorType.not_found, none, loop)
  | event ∷ events ↦
      let (e, o, q) = oeq_pop_begin (event ∷ events) in (e, o, record loop { occurred_events = q })
]
