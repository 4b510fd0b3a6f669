-- ===== src/EventLoop/Registered.antt =====
-- The events registered for all sockets: server/src/lib/event_loop/registered_events_queue.c.
-- A use of NULL as a queue has no result.
use postman.Prelude.{
  ℕ, ◌+◌, List, [], ◌∷◌, ◌++◌, Bool, true, false, Option, none, some, find_entry, remove_entry,
  change_entry, if◌then◌else◌,
}
use postman.EventLoop.Event.{
  ℤ, is_negative, same_socket, EventType, ErrorType, not_found, fatal, Event, Memory, s_malloc,
}
use postman.EventLoop.EventsQueue.{EventsQueue, el_is_contain, eq_init, eq_push, eq_pop}

pub record RegisteredEntry : Type 0 where
  pub sock : ℤ
  pub events : Option EventsQueue

abbrev pub RegisteredQueue : Type 0
RegisteredQueue = List RegisteredEntry

abbrev pub has_sock : ℤ → RegisteredEntry → Bool
has_sock s e = same_socket e.sock s

unfoldable pub pr_req_get_sock : RegisteredQueue → ℤ → Option RegisteredEntry
pr_req_get_sock queue socket = find_entry (has_sock socket) queue

-- What is written through the pointer to the entry of a socket.
abbrev pub store_events : RegisteredQueue → ℤ → Option EventsQueue → RegisteredQueue
store_events queue socket es = change_entry (has_sock socket) (λ e. record e { events = es }) queue

-- The events of the entry that is ready for an event, or the error.
pub data Prepared : Type 0 where
  ready : Option EventsQueue → RegisteredQueue → Memory → Prepared
  failed : ErrorType → RegisteredQueue → Memory → Prepared

unfoldable pub add_entry : Memory → RegisteredQueue → ℤ → Prepared
unfolding s_malloc eq_init
add_entry memory queue socket =
    let (got, m) = s_malloc memory in
    if got
    then (let (events, n) = eq_init m in
        let added = queue ++ (record { sock = socket; events = events }) ∷ [] in
        elim events [ none ↦ failed fatal added n | some q ↦ ready (some q) added n ])
    else failed fatal queue m

unfoldable pub pr_req_init_before_add : Memory → RegisteredQueue → ℤ → Prepared
unfolding pr_req_get_sock add_entry
pr_req_init_before_add memory queue socket =
    if is_negative socket then failed fatal queue memory else elim (pr_req_get_sock queue socket) [
      | none ↦ add_entry memory queue socket
      | some entry ↦ ready entry.events queue memory
    ]

unfoldable pub push_prepared :
    EventType → Prepared → ℤ → Event → ErrorType × RegisteredQueue × Memory
unfolding eq_push
push_prepared type (failed e queue memory) socket event = (e, queue, memory)
push_prepared type (ready events queue memory) socket event =
    let (e, es, m) = eq_push type memory events event in (e, store_events queue socket es, m)

-- `req_push_accept`, `req_push_read` and `req_push_write`, by the type of the event.
unfoldable pub req_push :
    EventType → Memory → RegisteredQueue → ℤ → Event → ErrorType × RegisteredQueue × Memory
unfolding pr_req_init_before_add push_prepared
req_push type memory queue socket event =
    push_prepared type (pr_req_init_before_add memory queue socket) socket
      (record event { socket = socket })

-- The entry goes with its last event.
unfoldable pub settle : RegisteredQueue → ℤ → EventsQueue → RegisteredQueue
settle queue socket [] = remove_entry (has_sock socket) queue
settle queue socket (e ∷ es) = store_events queue socket (some (e ∷ es))

unfoldable pub pop_entry :
    EventType
    → RegisteredQueue
    → ℤ
    → Option EventsQueue
    → Option (ErrorType × Option Event × RegisteredQueue)
unfolding eq_pop settle
pop_entry type queue socket none = none
pop_entry type queue socket (some events) =
    let (e, event, rest) = eq_pop type events in some (e, event, settle queue socket rest)

-- `req_pop_accept`, `req_pop_read` and `req_pop_write` with `pr_req_pop`, by the type of the event.
unfoldable pub req_pop :
    EventType → RegisteredQueue → ℤ → Option (ErrorType × Option Event × RegisteredQueue)
unfolding pr_req_get_sock pop_entry
req_pop type queue socket =
    if is_negative socket then some (fatal, none, queue) else elim (pr_req_get_sock queue socket) [
      | none ↦ some (not_found, none, queue)
      | some entry ↦ pop_entry type queue socket entry.events
    ]

abbrev bit : ℕ → Bool → ℕ
bit n true = n
bit n false = 0

-- The bit map of the types that are registered; a socket with no entry is read through NULL.
unfoldable pub req_reg : RegisteredQueue → ℤ → Option ℕ
unfolding pr_req_get_sock el_is_contain
req_reg queue socket = elim (pr_req_get_sock queue socket) [
  | none ↦ none
  | some entry ↦ elim entry.events [
    | none ↦ none
    | some events ↦ some (
        bit 1 (el_is_contain events EventType.sock_accept)
        + (bit 2 (el_is_contain events EventType.sock_read)
            + bit 4 (el_is_contain events EventType.sock_write)))
  ]
]
