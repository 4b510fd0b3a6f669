-- ===== src/EventLoop/Table.antt =====
-- What server/src/lib/event_loop/registered_events_queue.c promises: a table that has at most one
-- event for a socket and a type. `register` is to `req_push` and `collect` to `req_pop` as the
-- table is to the queue.
use postman.Prelude.{
  [], ◌∷◌, ◌++◌, false, Option, none, some, ◌≡◌, refl, ap, if◌then◌else◌, find_entry,
  change_entry-append,
}
use postman.EventLoop.Event.{
  ℤ, is_negative, same_socket, same_socket_iff, EventType, same_type, ErrorType, success, not_found,
  fatal, Event, Memory, s_malloc,
}
use postman.EventLoop.EventsQueue.{EventsQueue, has_type, el_is_contain, eq_init, eq_add, eq_push}
use postman.EventLoop.Registered.{
  RegisteredEntry, RegisteredQueue, has_sock, pr_req_get_sock, store_events, add_entry,
  pr_req_init_before_add, push_prepared, req_push,
}
use postman.EventLoop.Lookup.{lookup, IsTable}

abbrev pub Table : Type 0
Table = ℤ → EventType → Option Event

abbrev pub put_at : Table → ℤ → EventType → Option Event → Table
put_at table s t o u v =
    if same_socket s u then (if same_type t v then o else table u v) else table u v

unfoldable pub register : EventType → Table → ℤ → Event → ErrorType × Table
register t table s event = if is_negative s then (fatal, table) else elim (table s t) [
  | some _ ↦ (ErrorType.exists, table)
  | none ↦ (success, put_at table s t (some (record event { type = t; socket = s })))
]

unfoldable pub collect : EventType → Table → ℤ → ErrorType × Option Event × Table
collect t table s = if is_negative s then (fatal, none, table) else elim (table s t) [
  | none ↦ (not_found, none, table)
  | some e ↦ (success, some e, put_at table s t none)
]

abbrev pub Same : RegisteredQueue → Table → Type 0
Same q table = (u : ℤ) (v : EventType) → lookup q u v ≡ table u v

abbrev pub Pushed : ErrorType × RegisteredQueue × Memory → ErrorType × Table → Type 0
Pushed (e, q, m) (f, table) = (e ≡ f) × (m ≡ []) × IsTable q × Same q table

abbrev pub Popped :
    Option (ErrorType × Option Event × RegisteredQueue) → ErrorType × Option Event × Table → Type 0
Popped r (f, o, table) = (q : RegisteredQueue) × (r ≡ some (f, o, q)) × IsTable q × Same q table

pub eq_add-free :
    (es : EventsQueue) (e : Event)
    → find_entry (has_type e.type) es ≡ none
    → eq_add [] es e ≡ (success, es ++ e ∷ [], [])
unfolding eq_add el_is_contain s_malloc
eq_add-free es e h = rw (eq_add, el_is_contain, h) refl

pub eq_add-taken :
    (es : EventsQueue) (e old : Event)
    → find_entry (has_type e.type) es ≡ some old
    → eq_add [] es e ≡ (ErrorType.exists, es, [])
unfolding eq_add el_is_contain
eq_add-taken es e old h = rw (eq_add, el_is_contain, h) refl

eq_add-empty : (e : Event) → eq_add [] [] e ≡ (success, e ∷ [], [])
unfolding eq_add el_is_contain s_malloc find_entry
eq_add-empty e = refl

module _ (t : EventType) (q : RegisteredQueue) (s : ℤ) (event : Event) where
  abbrev pub marked : Event
  marked = record event { type = t; socket = s }

  pub req_push-old :
      (e : RegisteredEntry) (es : EventsQueue)
      → is_negative s ≡ false
      → pr_req_get_sock q s ≡ some e
      → e.events ≡ some es
      → req_push t [] q s event
        ≡ (let (r, fs, m) = eq_add [] es marked in (r, store_events q s (some fs), m))
  unfolding req_push pr_req_init_before_add push_prepared eq_push
  req_push-old e es n h k = rw (n, h, k) refl

  pub req_push-new :
      is_negative s ≡ false
      → pr_req_get_sock q s ≡ none
      → req_push t [] q s event
        ≡ (success, q ++ (record { sock = s; events = some (marked ∷ []) }) ∷ [], [])
  unfolding req_push pr_req_init_before_add push_prepared eq_push add_entry eq_init s_malloc
      pr_req_get_sock
  req_push-new n h =
      rw (n, h, push_prepared, eq_push, eq_add-empty marked)
        (ap (λ p. (success, p, []))
          (change_entry-append (has_sock s) _ q _ h ((same_socket_iff s s).1 refl)))
