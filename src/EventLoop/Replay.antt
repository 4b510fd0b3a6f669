-- ===== src/EventLoop/Replay.antt =====
-- Sequences of calls to server/src/lib/event_loop/registered_events_queue.c.
use postman.Prelude.{List, [], ◌∷◌, Option, none, some, ◌≡◌, refl, find_entry}
use postman.EventLoop.Event.{ℤ, EventType, ErrorType, Event}
use postman.EventLoop.Registered.{RegisteredQueue, pr_req_get_sock, req_push, req_pop}
use postman.EventLoop.Lookup.{IsTable, empty-IsTable}
use postman.EventLoop.Table.{Table, register, collect, Same}
use postman.EventLoop.Refine.{req_push-Pushed, req_pop-Popped}

-- A call.
pub data Request : Type 0 where
  push_event : EventType → ℤ → Event → Request
  pop_event : EventType → ℤ → Request

-- What the caller sees of it.
pub record Answer : Type 0 where
  pub error : ErrorType
  pub event : Option Event

abbrev answer : ErrorType → Option Event → Answer
answer e o = record { error = e; event = o }

abbrev and_then : Answer → Option (List Answer) → Option (List Answer)
and_then a none = none
and_then a (some l) = some (a ∷ l)

unfoldable pub replay : RegisteredQueue → List Request → Option (List Answer)
replay q [] = some []
replay q (push_event t s event ∷ rest) =
    let (e, p, m) = req_push t [] q s event in and_then (answer e none) (replay p rest)
replay q (pop_event t s ∷ rest) = elim (req_pop t q s) [
  | none ↦ none
  | some (e, o, p) ↦ and_then (answer e o) (replay p rest)
]

-- The same calls to the table.
unfoldable pub replay_table : Table → List Request → List Answer
replay_table T [] = []
replay_table T (push_event t s event ∷ rest) =
    let (e, U) = register t T s event in answer e none ∷ replay_table U rest
replay_table T (pop_event t s ∷ rest) =
    let (e, o, U) = collect t T s in answer e o ∷ replay_table U rest

abbrev pub nothing : Table
nothing s t = none

replay-Same :
    (q : RegisteredQueue) (T : Table) (rs : List Request)
    → IsTable q
    → Same q T
    → replay q rs ≡ some (replay_table T rs)
unfolding replay replay_table
replay-Same q T [] w same = refl
replay-Same q T (push_event t s event ∷ rs) w same =
    let (e, m, v, p) = req_push-Pushed q T w same t s event in
    rw (replay-Same (req_push t [] q s event).1 (register t T s event).1 rs v p, e) refl
replay-Same q T (pop_event t s ∷ rs) w same =
    let (p, e, v, f) = req_pop-Popped q T w same t s in
    rw (replay, e, replay-Same p (collect t T s).2 rs v f) refl

empty-Same : Same [] nothing
unfolding pr_req_get_sock find_entry
empty-Same u v = refl

-- With memory at hand, any sequence of `req_push` and `req_pop` on an empty queue, errors
-- included, gives its callers the answers that a table gives with at most one event for a socket
-- and a type: an event that is there is not replaced, an event is collected once, and no use of
-- NULL occurs.
pub replay-replay_table : (rs : List Request) → replay [] rs ≡ some (replay_table nothing rs)
replay-replay_table rs = replay-Same [] nothing rs empty-IsTable empty-Same
