-- ===== src/EventLoop/EventsQueue.antt =====
-- The events registered for one socket: server/src/lib/event_loop/events_queue.c. NULL is `none`.
use postman.Prelude.{
  List, [], ◌∷◌, ◌++◌, Bool, true, false, Option, none, some, find_entry, remove_entry,
  if◌then◌else◌,
}
use postman.EventLoop.Event.{
  EventType, same_type, ErrorType, success, not_found, fatal, Event, Memory, s_malloc,
}

abbrev pub EventsQueue : Type 0
EventsQueue = List Event

abbrev pub has_type : EventType → Event → Bool
has_type t e = same_type e.type t

unfoldable pub eq_init : Memory → Option EventsQueue × Memory
unfolding s_malloc
eq_init memory = let (got, m) = s_malloc memory in (if got then some [] else none, m)

unfoldable pub el_is_contain : EventsQueue → EventType → Bool
el_is_contain queue type = elim (find_entry (has_type type) queue) [ none ↦ false | some _ ↦ true ]

unfoldable pub eq_add : Memory → EventsQueue → Event → ErrorType × EventsQueue × Memory
unfolding s_malloc el_is_contain
eq_add memory queue event =
    if el_is_contain queue event.type
    then (ErrorType.exists, queue, memory)
    else (let (got, m) = s_malloc memory in
        if got then (success, queue ++ event ∷ [], m) else (fatal, queue, m))

-- `eq_push_accept`, `eq_push_read` and `eq_push_write`, by the type that they give the event.
unfoldable pub eq_push :
    EventType → Memory → Option EventsQueue → Event → ErrorType × Option EventsQueue × Memory
unfolding eq_add
eq_push type memory none event = (fatal, none, memory)
eq_push type memory (some queue) event =
    let (e, q, m) = eq_add memory queue (record event { type = type }) in (e, some q, m)

-- `eq_pop_accept`, `eq_pop_read` and `eq_pop_write`, by the type that they ask for.
unfoldable pub eq_pop : EventType → EventsQueue → ErrorType × Option Event × EventsQueue
eq_pop type queue = elim (find_entry (has_type type) queue) [
  | none ↦ (not_found, none, queue)
  | some e ↦ (success, some e, remove_entry (has_type type) queue)
]
