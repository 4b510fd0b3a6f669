-- ===== src/EventLoop/Moves.antt =====
-- Where `pr_create_pollin_event` of server/src/lib/event_loop/event_loop.c leaves a read event.
use postman.Prelude.{
  ℕ, suc, ◌≤◌, ◌<◌, leb, List, [], ◌∷◌, ◌++◌, Bool, true, false, Bool-cases, Option, none, some,
  ◌≡◌, refl, ◌⊎◌, inl, inr, arith,
}
use mathlib.Core.Path.{subst}
use postman.EventLoop.Event.{ℤ, is_negative, EventType, ErrorType, success, errno, Event, s_malloc}
use postman.EventLoop.Registered.{RegisteredQueue, req_pop}
use postman.EventLoop.Occurred.{oeq_push_back}
use postman.EventLoop.Lookup.{lookup, IsTable}
use postman.EventLoop.Table.{put_at, collect, Same, Popped}
use postman.EventLoop.Refine.{req_pop-Popped}
use postman.EventLoop.Loop.{EventLoop}
use postman.EventLoop.Transfer.{Transferred, Ended}
use postman.EventLoop.Poll.{
  Outcome, occur, faulty, is_read, finish_read, pollin_read, pr_create_pollin_event, read_popped,
  read_from,
}
use postman.EventLoop.Bounds.{Keeps, IsRecv, read_loop-Ends}

leb-false : (a b : ℕ) → b < a → leb a b ≡ false
leb-false a b h = ground (arith, h)

-- An event is taken from the registered ones.
pub pop_registered :
    (q : RegisteredQueue) (fd : ℤ) (t : EventType) (ptr : Event)
    → IsTable q
    → is_negative fd ≡ false
    → lookup q fd t ≡ some ptr
    → (p : RegisteredQueue) × (req_pop t q fd ≡ some (success, some ptr, p))
      × IsTable p
      × Same p (put_at (lookup q) fd t none)
unfolding collect
pop_registered q fd t ptr w n h =
    subst (Popped (req_pop t q fd)) found (req_pop-Popped q (lookup q) w (λ u v. refl) t fd)
  where
    found : collect t (lookup q) fd ≡ (success, some ptr, put_at (lookup q) fd t none)
    found = rw (n, h) refl

-- A read event that has gone from `ptr` to `e`.
pub record ReadFrom (ptr e : Event) : Type 0 where
  pub socket : e.socket ≡ ptr.socket
  pub size : e.size ≡ ptr.size
  pub bounded : e.offset ≤ ptr.size
  pub error : (e.error ≡ ptr.error) ⊎ (e.error ≡ errno)

module _ {S : Type 0} where
  -- The event at the end of those that have occurred, and no longer registered.
  pub record Occurs (loop : EventLoop) (fd : ℤ) (t : EventType) (e : Event) (o : Outcome S)
      : Type 0 where
    pub occurred : o.loop.occurred_events ≡ loop.occurred_events ++ e ∷ []
    pub table : IsTable o.loop.registered_events
    pub gone : Same o.loop.registered_events (put_at (lookup loop.registered_events) fd t none)

  abbrev pub ReadMoves : EventLoop → ℤ → Event → Option (Outcome S) → Type 0
  ReadMoves loop fd ptr r =
      (o : Outcome S) × (r ≡ some o)
      × (e : Event) × Occurs loop fd EventType.sock_read e o
      × ReadFrom ptr e

  pub occur-Occurs :
      (b : Bool) (loop : EventLoop) (p : RegisteredQueue) (fd : ℤ) (t : EventType) (e : Event)
      (rs : List (ℤ × ErrorType)) (state : S)
      → IsTable p
      → Same p (put_at (lookup loop.registered_events) fd t none)
      → Occurs loop fd t e (occur b [] (record loop { registered_events = p }) e rs state)
  unfolding occur oeq_push_back s_malloc
  occur-Occurs b loop p fd t e rs state w same = record { occurred = refl; table = w; gone = same }

  -- The end of a read.
  finish_read-Moves :
      (loop : EventLoop) (fd : ℤ) (ptr : Event) (p : RegisteredQueue) (end : Ended S)
      → IsTable p
      → Same p (put_at (lookup loop.registered_events) fd EventType.sock_read none)
      → Keeps (record ptr { offset = 0 }) end.event
      → (is_read end ≡ false → end.last ≡ none)
      → ReadMoves loop fd ptr (some (finish_read [] (record loop { registered_events = p }) end))
  unfolding finish_read faulty
  finish_read-Moves loop fd ptr p end w same k fails =
      let bad : Event = record end.event { error = errno; errno_value = end.errno_value } in
      elim (Bool-cases (is_read end)) [
        | inl r ↦ rw r (
          _,
          refl,
          end.event,
          occur-Occurs true loop p fd EventType.sock_read end.event [] end.state w same,
          record { socket = k.socket; size = k.size; bounded = k.bounded; error = inl k.error },
        )
        | inr r ↦
            rw (r, fails r)
              (
                _,
                refl,
                bad,
                occur-Occurs false loop p fd EventType.sock_read bad
                    ((end.event.socket, errno) ∷ (end.event.socket, errno) ∷ []) end.state w same,
                record { socket = k.socket; size = k.size; bounded = k.bounded; error = inr refl },
              )
      ]

  pollin_read-Moves :
      (recv : ℤ → ℕ → S → Transferred (List ℕ) × S) (loop : EventLoop) (fd : ℤ) (ptr : Event)
      (err : ℕ) (state : S)
      → IsRecv recv
      → IsTable loop.registered_events
      → is_negative fd ≡ false
      → lookup loop.registered_events fd EventType.sock_read ≡ some ptr
      → ReadMoves loop fd ptr (pollin_read recv [] loop fd err state)
  unfolding pollin_read
  pollin_read-Moves recv loop fd ptr err state law w n h =
      let (p, e, v, same) =
        pop_registered loop.registered_events fd EventType.sock_read ptr w n h in
      let start : Event = record ptr { offset = 0 } in
      let (end, f, k, fails) =
        read_loop-Ends recv law (suc ptr.size) start err state (omega arith) (omega arith) in
      rw (e, read_popped, read_from, f) (finish_read-Moves loop fd ptr p end v same k fails)

  -- Let the queue be one that `req_push` and `req_pop` keep, memory be at hand, recv return at
  -- most as many bytes as asked for, and a socket that is no negative number, with an index below
  -- that of the first acceptor, have a read event. Then reading it, whatever recv returns, ends
  -- with the event at the end of those that have occurred and no longer registered, every other
  -- event where it was; its offset is within the buffer's size, and its error is the one it had or
  -- ERRNO.
  pub pr_create_pollin_event-Moves :
      (recv : ℤ → ℕ → S → Transferred (List ℕ) × S) (accept : ℤ → S → Transferred ℤ × S)
      (loop : EventLoop) (fd : ℤ) (index : ℕ) (ptr : Event) (err : ℕ) (state : S)
      → IsRecv recv
      → IsTable loop.registered_events
      → index < loop.index_acceptors_start
      → is_negative fd ≡ false
      → lookup loop.registered_events fd EventType.sock_read ≡ some ptr
      → ReadMoves loop fd ptr (pr_create_pollin_event recv accept [] loop fd index err state)
  unfolding pr_create_pollin_event
  pr_create_pollin_event-Moves recv accept loop fd index ptr err state law w i n h =
      rw (leb-false loop.index_acceptors_start index i)
        (pollin_read-Moves recv loop fd ptr err state law w n h)
