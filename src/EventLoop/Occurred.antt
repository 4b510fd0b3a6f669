-- ===== src/EventLoop/Occurred.antt =====
-- The events that have occurred: server/src/lib/event_loop/occurred_events_queue.c.
use postman.Prelude.{List, [], ◌∷◌, ◌++◌, Option, none, some, if◌then◌else◌}
use postman.EventLoop.Event.{ErrorType, success, fatal, Event, Memory, s_malloc}

abbrev pub OccurredQueue : Type 0
OccurredQueue = List Event

unfoldable pub oeq_pop_begin : OccurredQueue → ErrorType × Option Event × OccurredQueue
oeq_pop_begin [] = (ErrorType.empty, none, [])
oeq_pop_begin (e ∷ queue) = (success, some e, queue)

unfoldable pub oeq_pop_back : OccurredQueue → ErrorType × Option Event × OccurredQueue
oeq_pop_back [] = (ErrorType.empty, none, [])
oeq_pop_back (e ∷ []) = (success, some e, [])
oeq_pop_back (e ∷ f ∷ queue) = let (r, o, rest) = oeq_pop_back (f ∷ queue) in (r, o, e ∷ rest)

unfoldable pub oeq_push_begin : Memory → OccurredQueue → Event → ErrorType × OccurredQueue × Memory
unfolding s_malloc
oeq_push_begin memory queue event =
    let (got, m) = s_malloc memory in if got then (success, event ∷ queue, m) else (fatal, queue, m)

unfoldable pub oeq_push_back : Memory → OccurredQueue → Event → ErrorType × OccurredQueue × Memory
unfolding s_malloc
oeq_push_back memory queue event =
    let (got, m) = s_malloc memory in
    if got then (success, queue ++ event ∷ [], m) else (fatal, queue, m)
