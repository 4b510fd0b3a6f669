-- ===== src/EventLoop/Order.antt =====
-- The order of the events in server/src/lib/event_loop/occurred_events_queue.c.
use postman.Prelude.{
  ℕ, zero, suc, List, [], ◌∷◌, ◌++◌, length, Option, none, some, ◌≡◌, refl, sym, ap, ◌∙◌,
  append-nil, append_assoc,
}
use postman.EventLoop.Event.{success, Event, s_malloc}
use postman.EventLoop.Occurred.{
  OccurredQueue, oeq_push_back, oeq_push_begin, oeq_pop_begin, oeq_pop_back,
}

-- The events of `es`, pushed one after the other.
unfoldable pub push_each : OccurredQueue → List Event → OccurredQueue
push_each q [] = q
push_each q (e ∷ es) = push_each (oeq_push_back [] q e).1 es

abbrev pub add_popped : Option Event → List Event → List Event
add_popped none es = es
add_popped (some e) es = e ∷ es

-- The events that are taken from the front, one after the other.
unfoldable pub pop_each : ℕ → OccurredQueue → List Event
pop_each zero q = []
pop_each (suc n) q = add_popped (oeq_pop_begin q).1 (pop_each n (oeq_pop_begin q).2)

push_each-append : (q es : List Event) → push_each q es ≡ q ++ es
unfolding push_each oeq_push_back s_malloc
push_each-append q [] = sym (append-nil q)
push_each-append q (e ∷ es) = push_each-append (q ++ e ∷ []) es ∙ append_assoc q (e ∷ []) es

pop_each-all : (es : List Event) → pop_each (length es) es ≡ es
unfolding pop_each oeq_pop_begin
pop_each-all [] = refl
pop_each-all (e ∷ es) = ap (◌∷◌ e) (pop_each-all es)

pop_back-last : (q : OccurredQueue) (e : Event) → oeq_pop_back (q ++ e ∷ []) ≡ (success, some e, q)
unfolding oeq_pop_back
pop_back-last [] e = refl
pop_back-last (x ∷ []) e = refl
pop_back-last (x ∷ y ∷ q) e = rw (oeq_pop_back, pop_back-last (y ∷ q) e) refl

-- With memory at hand, events that are pushed one after the other to the back of a queue are taken
-- from its front in that order, behind those that were there.
pub pop_each-push_each :
    (q es : List Event) → pop_each (length (push_each q es)) (push_each q es) ≡ q ++ es
pop_each-push_each q es = pop_each-all (push_each q es) ∙ push_each-append q es

-- With memory at hand, a pop at either end undoes the push at that end: it succeeds, gives the
-- event and leaves the queue as it was.
pub oeq_pop-oeq_push :
    (q : OccurredQueue) (e : Event)
    → (oeq_pop_back (oeq_push_back [] q e).1 ≡ (success, some e, q))
      × (oeq_pop_begin (oeq_push_begin [] q e).1 ≡ (success, some e, q))
unfolding oeq_push_back oeq_push_begin oeq_pop_begin s_malloc
oeq_pop-oeq_push q e = (pop_back-last q e, refl)
