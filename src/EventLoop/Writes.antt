-- ===== src/EventLoop/Writes.antt =====
-- Where `pr_create_pollout_event` of server/src/lib/event_loop/event_loop.c leaves a write event.
use postman.Prelude.{
  ℕ, suc, ◌≤◌, List, [], ◌∷◌, true, false, Bool-cases, ◌==◌, Option, none, some, ◌≡◌, refl, ◌∙◌,
  ◌⊎◌, inl, inr, arith,
}
use mathlib.Core.Path.{subst}
use postman.EventLoop.Event.{
  ℤ, negsuc, is_negative, same_socket_iff, EventType, same_type_iff, ErrorType, success, Event,
}
use postman.EventLoop.Registered.{RegisteredQueue, req_push}
use postman.EventLoop.Lookup.{lookup, IsTable}
use postman.EventLoop.Table.{Table, put_at, register, Same, Pushed}
use postman.EventLoop.Refine.{req_push-Pushed}
use postman.EventLoop.Loop.{EventLoop}
use postman.EventLoop.Transfer.{Transferred, Ended, eagain, epipe}
use postman.EventLoop.Poll.{
  Outcome, occur, faulty, write_again, after_write, failed_with, checked_by, finish_write,
  pr_create_pollout_event, write_popped, write_from,
}
use postman.EventLoop.Moves.{Occurs, occur-Occurs, pop_registered}
use postman.EventLoop.Bounds.{Keeps, IsSend, write_loop-Ends}

-- A write event that has gone from `ptr` to `e`.
pub record WrittenFrom (ptr e : Event) : Type 0 where
  pub socket : e.socket ≡ ptr.socket
  pub size : e.size ≡ ptr.size
  pub forward : ptr.offset ≤ e.offset
  pub bounded : e.offset ≤ ptr.size

put_at-same : (T : Table) (s : ℤ) (t : EventType) (o : Option Event) → put_at T s t o s t ≡ o
put_at-same T s t o = rw ((same_socket_iff s s).1 refl, (same_type_iff t t).1 refl) refl

put_at-twice :
    (T : Table) (s : ℤ) (t : EventType) (o r : Option Event) (u : ℤ) (v : EventType)
    → put_at (put_at T s t o) s t r u v ≡ put_at T s t r u v
put_at-twice T s t o r u v = ground arith

-- A write event that is not registered is.
register_free :
    (q : RegisteredQueue) (T : Table) (e : Event)
    → IsTable q
    → Same q T
    → is_negative e.socket ≡ false
    → T e.socket EventType.sock_write ≡ none
    → Pushed (req_push EventType.sock_write [] q e.socket e) (
      success,
      put_at T e.socket EventType.sock_write (some (record e { type = EventType.sock_write })),
    )
unfolding register
register_free q T e w same n h =
    subst (Pushed (req_push EventType.sock_write [] q e.socket e)) (rw (n, h) refl)
      (req_push-Pushed q T w same EventType.sock_write e.socket e)

module _ {S : Type 0} where
  -- The write event is registered again, with what has been sent.
  pub record Returns (loop : EventLoop) (fd : ℤ) (e : Event) (o : Outcome S) : Type 0 where
    pub occurred : o.loop.occurred_events ≡ loop.occurred_events
    pub table : IsTable o.loop.registered_events
    pub back :
        Same o.loop.registered_events
          (put_at (lookup loop.registered_events) fd EventType.sock_write (some e))

  abbrev pub WriteMoves : EventLoop → ℤ → Event → Option (Outcome S) → Type 0
  WriteMoves loop fd ptr r =
      (o : Outcome S) × (r ≡ some o)
      × (e : Event) × (Occurs loop fd EventType.sock_write e o ⊎ Returns loop fd e o)
      × WrittenFrom ptr e

  again-Returns :
      (loop : EventLoop) (p : RegisteredQueue) (end : Ended S) (e : Event)
      → IsTable p
      → Same p (put_at (lookup loop.registered_events) e.socket EventType.sock_write none)
      → is_negative e.socket ≡ false
      → Returns loop e.socket
          (record e { type = EventType.sock_write })
          (write_again [] (record loop { registered_events = p }) end e)
  unfolding write_again
  again-Returns loop p end e w same n =
      let T : Table = lookup loop.registered_events in
      let (_, _, v, back) =
        register_free p (put_at T e.socket EventType.sock_write none) e w same n
          (put_at-same T e.socket EventType.sock_write none) in
      record {
        occurred = refl;
        table = v;
        back = λ u t. back u t ∙ put_at-twice T e.socket EventType.sock_write none _ u t;
      }

  again-At :
      (loop : EventLoop) (p : RegisteredQueue) (end : Ended S) (e : Event) (fd : ℤ)
      → e.socket ≡ fd
      → IsTable p
      → Same p (put_at (lookup loop.registered_events) fd EventType.sock_write none)
      → is_negative fd ≡ false
      → Returns loop fd
          (record e { type = EventType.sock_write })
          (write_again [] (record loop { registered_events = p }) end e)
  again-At loop p end e fd h w =
      subst
        (λ x.
          Same p (put_at (lookup loop.registered_events) x EventType.sock_write none)
          → is_negative x ≡ false
          → Returns loop x (record e { type = EventType.sock_write })
              (write_again [] (record loop { registered_events = p }) end e))
        h (again-Returns loop p end e w)

  after_write-WrittenFrom :
      (ptr : Event) (end : Ended S) → Keeps ptr end.event → WrittenFrom ptr (after_write end)
  unfolding after_write
  after_write-WrittenFrom ptr end k = elim (Bool-cases (failed_with epipe end)) [
    | inl b ↦
        rw b (record { socket = k.socket; size = k.size; forward = k.forward; bounded = k.bounded })
    | inr b ↦
        rw b (record { socket = k.socket; size = k.size; forward = k.forward; bounded = k.bounded })
  ]

  faulty-WrittenFrom :
      (ptr : Event) (last : Option ℕ) (end : Ended S)
      → end.last ≡ last
      → WrittenFrom ptr end.event
      → WrittenFrom ptr (faulty end)
  unfolding faulty
  faulty-WrittenFrom ptr none end e k =
      rw e (record { socket = k.socket; size = k.size; forward = k.forward; bounded = k.bounded })
  faulty-WrittenFrom ptr (some n) end e k =
      rw e (record { socket = k.socket; size = k.size; forward = k.forward; bounded = k.bounded })

  checked-Occurs :
      (loop : EventLoop) (fd : ℤ) (t : EventType) (e : Event) (s : ℤ) (r : ErrorType)
      (o : Outcome S)
      → Occurs loop fd t e o
      → Occurs loop fd t e (checked_by r s o)
  checked-Occurs loop fd t e s success o h = h
  checked-Occurs loop fd t e s failure o h = record {
    occurred = h.occurred;
    table = h.table;
    gone = h.gone;
  }

  -- The end of a write.
  finish_write-Moves :
      (loop : EventLoop) (ptr : Event) (p : RegisteredQueue) (end : Ended S) (old : ℕ)
      → IsTable p
      → Same p (put_at (lookup loop.registered_events) ptr.socket EventType.sock_write none)
      → is_negative ptr.socket ≡ false
      → Keeps ptr end.event
      → WriteMoves loop ptr.socket ptr
          (some (finish_write old [] (record loop { registered_events = p }) end))
  unfolding finish_write
  finish_write-Moves loop ptr p end old w same n k =
      let e : Event = after_write end in
      let from : WrittenFrom ptr e = after_write-WrittenFrom ptr end k in
      let bad : Event = faulty (record end { event = e }) in
      elim (Bool-cases (failed_with eagain end)) [
        | inl again ↦ rw again (
          _,
          refl,
          record e { type = EventType.sock_write },
          inr (again-At loop p end e ptr.socket from.socket w same n),
          record {
            socket = from.socket;
            size = from.size;
            forward = from.forward;
            bounded = from.bounded;
          },
        )
        | inr go ↦ elim (Bool-cases (e.offset == old)) [
          | inr sent ↦
              rw (go, sent)
                (
                  _,
                  refl,
                  e,
                  inl (
                      checked-Occurs loop ptr.socket EventType.sock_write e (negsuc 0) success
                        (occur true [] (record loop { registered_events = p }) e [] end.state)
                        (occur-Occurs true loop p ptr.socket EventType.sock_write e [] end.state w
                          same)),
                  from,
                )
          | inl unsent ↦
              rw (go, unsent)
                (
                  _,
                  refl,
                  bad,
                  inl (
                      checked-Occurs loop ptr.socket EventType.sock_write bad bad.socket success
                        (occur true [] (record loop { registered_events = p }) bad
                          ((bad.socket, bad.error) ∷ []) end.state)
                        (occur-Occurs true loop p ptr.socket EventType.sock_write bad
                          ((bad.socket, bad.error) ∷ []) end.state w same)),
                  faulty-WrittenFrom ptr end.last (record end { event = e }) refl from,
                )
        ]
      ]

  -- Let the queue be one that `req_push` and `req_pop` keep, memory be at hand, send return at
  -- most the length of its bytes, and a socket that is no negative number have a write event of
  -- that socket, its offset within its size. Then writing it, whatever send returns, ends with the
  -- event either at the end of those that have occurred and no longer registered, or registered
  -- again in its place: it is not lost, and its offset has not gone back and is within the size.
  pub pr_create_pollout_event-Moves :
      (send : ℤ → List ℕ → S → Transferred ℕ × S) (loop : EventLoop) (ptr : Event) (err : ℕ)
      (state : S)
      → IsSend send
      → IsTable loop.registered_events
      → is_negative ptr.socket ≡ false
      → lookup loop.registered_events ptr.socket EventType.sock_write ≡ some ptr
      → ptr.offset ≤ ptr.size
      → WriteMoves loop ptr.socket ptr (pr_create_pollout_event send [] loop ptr.socket err state)
  unfolding pr_create_pollout_event finish_write after_write faulty
  pr_create_pollout_event-Moves send loop ptr err state law w n h b =
      let (p, e, v, same) =
        pop_registered loop.registered_events ptr.socket EventType.sock_write ptr w n h in
      let (end, f, k) = write_loop-Ends send law (suc ptr.size) ptr err state b (omega arith) in
      rw (e, write_popped, write_from, f) (finish_write-Moves loop ptr p end ptr.offset v same n k)
