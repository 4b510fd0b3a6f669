-- ===== src/EventLoop/Close.antt =====
-- `el_socket_close` of server/src/lib/event_loop/event_loop.c.
use postman.Prelude.{
  ℕ, [], ◌∷◌, ◌++◌, false, Bool-cases, none, some, Option-cases, ◌≡◌, refl, sym, ap, ◌∙◌, inl, inr,
}
use postman.EventLoop.Event.{
  ℤ, is_negative, same_socket, same_socket_iff, EventType, same_type, same_type_iff, success,
  s_malloc,
}
use postman.EventLoop.Registered.{RegisteredQueue}
use postman.EventLoop.Occurred.{oeq_push_back}
use postman.EventLoop.Lookup.{lookup, IsTable}
use postman.EventLoop.Table.{Table, put_at, collect, Same}
use postman.EventLoop.Refine.{req_pop-Popped}
use postman.EventLoop.Loop.{EventLoop, made_event, drop_in, close_event, el_socket_close}

-- What is not there is not missed.
put_at-absent :
    (T : Table) (s : ℤ) (t : EventType)
    → T s t ≡ none
    → (u : ℤ) (v : EventType) → T u v ≡ put_at T s t none u v
put_at-absent T s t h u v = elim (Bool-cases (same_socket s u)) [
  | inr p ↦ rw p refl
  | inl p ↦ elim (Bool-cases (same_type t v)) [
    | inr k ↦ rw (p, k) refl
    | inl k ↦
        rw (p, k)
          (sym (ap (λ x. T x v) ((same_socket_iff s u).0 p))
            ∙ (sym (ap (T s) ((same_type_iff t v).0 k)) ∙ h))
  ]
]

collect-clears :
    (T : Table) (s : ℤ) (t : EventType)
    → is_negative s ≡ false
    → (u : ℤ) (v : EventType) → (collect t T s).2 u v ≡ put_at T s t none u v
unfolding collect
collect-clears T s t n u v = elim (Option-cases (T s t)) [
  | inl h ↦ rw (n, h) (put_at-absent T s t h u v)
  | inr (e, h) ↦ rw (n, h) refl
]

-- The event of a type goes away, if there is one.
drop-clears :
    (q : RegisteredQueue) (T : Table) (s : ℤ) (t : EventType)
    → IsTable q
    → Same q T
    → is_negative s ≡ false
    → (p : RegisteredQueue) × (drop_in t s (some q) ≡ some p)
      × IsTable p
      × Same p (put_at T s t none)
drop-clears q T s t w same n =
    let (p, e, v, f) = req_pop-Popped q T w same t s in
    (p, rw e refl, v, λ x y. f x y ∙ collect-clears T s t n x y)

-- A loop without events for the socket, with its close event as the last that has occurred.
pub record Closed (before : EventLoop) (sock : ℤ) (handler : ℕ) (after : EventLoop) : Type 0 where
  pub occurred :
      after.occurred_events
      ≡ before.occurred_events ++ made_event EventType.sock_close sock handler [] 0 ∷ []
  pub table : IsTable after.registered_events
  pub no_events : Same after.registered_events (
      put_at
        (put_at (lookup before.registered_events) sock EventType.sock_write none)
        sock
        EventType.sock_read
        none)
  pub acceptors : after.acceptors_queue ≡ before.acceptors_queue

-- With memory at hand, for a queue that `req_push` and `req_pop` keep and a socket that is no
-- negative number, the call succeeds: the close event stands last of those that have occurred, the
-- socket has neither a write nor a read event any more, every other event and every acceptor is
-- where it was.
pub el_socket_close-Closed :
    (loop : EventLoop) (sock : ℤ) (handler : ℕ)
    → IsTable loop.registered_events
    → is_negative sock ≡ false
    → (after : EventLoop) × (el_socket_close [] loop sock handler ≡ some (success, after, []))
      × Closed loop sock handler after
unfolding el_socket_close close_event oeq_push_back s_malloc
el_socket_close-Closed loop sock handler w n =
    let T : Table = lookup loop.registered_events in
    let (p, e, v, f) =
      drop-clears loop.registered_events T sock EventType.sock_write w (λ x y. refl) n in
    let (r, g, x, h) =
      drop-clears p (put_at T sock EventType.sock_write none) sock EventType.sock_read v f n in
    (
      record loop {
        registered_events = r;
        occurred_events =
            loop.occurred_events ++ made_event EventType.sock_close sock handler [] 0 ∷ [];
      },
      rw (el_socket_close, e, g) refl,
      record { occurred = refl; table = x; no_events = h; acceptors = refl },
    )
