-- ===== src/EventLoop/Async.antt =====
-- `el_async_read` and `el_async_write` of server/src/lib/event_loop/event_loop.c.
use postman.Prelude.{ℕ, List, [], false, none, some, ◌≡◌, refl, ap, ◌∙◌}
use mathlib.Core.Path.{subst}
use postman.EventLoop.Event.{ℤ, is_negative, EventType, success, Event, s_malloc}
use postman.EventLoop.Registered.{RegisteredQueue, req_push}
use postman.EventLoop.Lookup.{lookup, IsTable}
use postman.EventLoop.Table.{put_at, register, Same, Pushed}
use postman.EventLoop.Refine.{req_push-Pushed}
use postman.EventLoop.Loop.{
  EventLoop, Result, made_event, register_event, el_async_read, el_async_write,
}

-- Success, with the one more event registered and nothing else changed.
abbrev pub Registers : EventType → EventLoop → ℤ → List ℕ → ℕ → ℕ → Result → Type 0
Registers t loop sock buffer size handler r =
    (q : RegisteredQueue) × (r ≡ (success, record loop { registered_events = q }, []))
    × IsTable q
    × Same q (
        put_at (lookup loop.registered_events) sock t
          (some (made_event t sock handler buffer size)))

module _ (loop : EventLoop) (sock : ℤ) (buffer : List ℕ) (size handler : ℕ)
    (w : IsTable loop.registered_events) (n : is_negative sock ≡ false) where
  event_free :
      (t : EventType)
      → lookup loop.registered_events sock t ≡ none
      → Pushed (req_push t [] loop.registered_events sock (made_event t sock handler buffer size)) (
        success,
        put_at
            (lookup loop.registered_events)
            sock
            t
            (some (made_event t sock handler buffer size)),
      )
  unfolding register
  event_free t h =
      let event : Event = made_event t sock handler buffer size in
      subst (Pushed (req_push t [] loop.registered_events sock event)) (rw (n, h) refl) (
        req_push-Pushed loop.registered_events (lookup loop.registered_events) w (λ u v. refl) t
          sock event)

  register_event-Registers :
      (t : EventType)
      → lookup loop.registered_events sock t ≡ none
      → Registers t loop sock buffer size handler
          (register_event t [] loop sock buffer size handler)
  unfolding register_event s_malloc
  register_event-Registers t h =
      let r = req_push t [] loop.registered_events sock (made_event t sock handler buffer size) in
      let (e, m, v, same) = event_free t h in
      (
        r.1,
        ap (λ x. (x, record loop { registered_events = r.1 }, r.2)) e
            ∙ ap (λ x. (success, record loop { registered_events = r.1 }, x)) m,
        v,
        same,
      )

  -- With memory at hand, for a queue that `req_push` and `req_pop` keep, a socket that is no
  -- negative number and has neither a read nor a write event, and a buffer that is not NULL, both
  -- calls succeed: the event with the socket, the buffer, its size and the handler, at offset 0,
  -- is registered, and nothing else in the loop is changed.
  pub el_async-Registers :
      lookup loop.registered_events sock EventType.sock_read ≡ none
      → lookup loop.registered_events sock EventType.sock_write ≡ none
      → Registers EventType.sock_read loop sock buffer size handler
          (el_async_read [] loop sock (some buffer) size handler)
        × Registers EventType.sock_write loop sock buffer size handler
            (el_async_write [] loop sock (some buffer) size handler)
  unfolding el_async_read el_async_write
  el_async-Registers r s = (
    register_event-Registers EventType.sock_read r,
    register_event-Registers EventType.sock_write s,
  )
