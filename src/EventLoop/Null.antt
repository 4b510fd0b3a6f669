-- ===== src/EventLoop/Null.antt =====
-- What a lack of memory leaves in server/src/lib/event_loop/registered_events_queue.c.
use postman.Prelude.{[], ◌∷◌, ◌++◌, true, false, none, some, ◌≡◌, refl, ◌∙◌}
use postman.EventLoop.Event.{
  ℤ, is_negative, same_socket_iff, EventType, fatal, Event, Memory, s_malloc,
}
use postman.EventLoop.EventsQueue.{eq_init}
use postman.EventLoop.Registered.{
  RegisteredEntry, RegisteredQueue, pr_req_get_sock, add_entry, pr_req_init_before_add,
  push_prepared, req_push, pop_entry, req_pop,
}
use postman.EventLoop.Lookup.{get-append}

-- If a socket that is no negative number has no entry, and memory is there for the entry but not
-- for its queue of events, then the call fails with a fatal error and leaves a queue in which any
-- `req_pop` for the socket uses NULL.
pub req_push-null :
    (q : RegisteredQueue) (s : ℤ) (event : Event) (t u : EventType) (memory : Memory)
    → is_negative s ≡ false
    → pr_req_get_sock q s ≡ none
    → (p : RegisteredQueue) × (req_push t (true ∷ false ∷ memory) q s event ≡ (fatal, p, memory))
      × (req_pop u p s ≡ none)
unfolding req_push pr_req_init_before_add add_entry eq_init s_malloc push_prepared req_pop pop_entry
req_push-null q s event t u memory n h =
    let entry : RegisteredEntry = record { sock = s; events = none } in
    let there : pr_req_get_sock (q ++ entry ∷ []) s ≡ some entry =
      get-append q entry s h ∙ rw ((same_socket_iff s s).1 refl) refl in
    (q ++ entry ∷ [], rw (n, h) refl, rw (n, there) refl)
