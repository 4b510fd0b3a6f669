-- ===== src/EventLoop/Pollfd.antt =====
-- The array for poll: `pr_create_pollfd` of server/src/lib/event_loop/event_loop.c.
use postman.Prelude.{
  ℕ, zero, suc, ◌+◌, List, [], ◌∷◌, ◌++◌, length, length-append, Bool, true, false, Option, none,
  some, if◌then◌else◌, ◌≡◌, refl, ap, arith,
}
use postman.EventLoop.Event.{ℤ, pos, EventType, ErrorType, success, fatal, Memory, s_malloc}
use postman.EventLoop.EventsQueue.{EventsQueue}
use postman.EventLoop.Registered.{RegisteredQueue}
use postman.EventLoop.Sockets.{SocketEntry, SocketsQueue}
use postman.EventLoop.Loop.{EventLoop}

-- `struct pollfd`, the bits of its `events` apart.
pub record PollFd : Type 0 where
  pub fd : ℤ
  pub pollin : Bool
  pub pollout : Bool
  pub pollhup : Bool

-- An element as `s_malloc` leaves it.
abbrev pub unused : PollFd
unused = record { fd = pos 0; pollin = false; pollout = false; pollhup = false }

abbrev pub unused_list : ℕ → List PollFd
unused_list zero = []
unused_list (suc n) = unused ∷ unused_list n

unfoldable pub add_events : EventsQueue → PollFd → Option PollFd
add_events [] p = some p
add_events (e ∷ es) p = elim e.type [
  | EventType.sock_write ↦ add_events es (record p { pollout = true; pollhup = true })
  | EventType.sock_read ↦ add_events es (record p { pollin = true; pollhup = true })
  | _ ↦ none
]

-- The first entry and the rest; the loop stops at the first error.
abbrev pub entry_then :
    Option PollFd → Option (Option (List PollFd)) → Option (Option (List PollFd))
entry_then none rest = some none
entry_then (some p) none = none
entry_then (some p) (some none) = some none
entry_then (some p) (some (some ps)) = some (some (p ∷ ps))

-- The sockets with events. `some none` is the error for an event of another type than read and
-- write, `none` the use of NULL as the events of a socket.
unfoldable pub poll_registered : RegisteredQueue → Option (Option (List PollFd))
unfolding add_events
poll_registered [] = some (some [])
poll_registered (e ∷ q) = elim e.events [
  | none ↦ none
  | some es ↦ entry_then (add_events es (record unused { fd = e.sock })) (poll_registered q)
]

unfoldable pub set_at : ℕ → PollFd → List PollFd → List PollFd
set_at i p [] = []
set_at zero p (x ∷ xs) = p ∷ xs
set_at (suc i) p (x ∷ xs) = x ∷ set_at i p xs

abbrev pub listening : SocketEntry → PollFd
listening a = record { fd = a.socket; pollin = true; pollout = false; pollhup = false }

-- The loop over the acceptors, which does not advance the index.
unfoldable pub poll_acceptors : ℕ → List PollFd → SocketsQueue → List PollFd
unfolding set_at
poll_acceptors i array [] = array
poll_acceptors i array (a ∷ q) = poll_acceptors i (set_at i (listening a) array) q

pub record Polls : Type 0 where
  pub error : ErrorType
  pub array : Option (List PollFd)
  pub size : ℕ
  pub loop : EventLoop

abbrev pub without_array : ErrorType → EventLoop → Polls
without_array e loop = record {
  error = e;
  array = none;
  size = length loop.registered_events + length loop.acceptors_queue;
  loop = loop;
}

abbrev pub fill : EventLoop → Option (List PollFd) → Polls
fill loop none = without_array fatal loop
fill loop (some ps) =
    let room : List PollFd = ps ++ unused_list (length loop.acceptors_queue) in
    record {
      error = success;
      array = some (poll_acceptors (length ps) room loop.acceptors_queue);
      size = length loop.registered_events + length loop.acceptors_queue;
      loop = record loop { index_acceptors_start = length ps };
    }

-- Where memory lacks, the error is overwritten by success.
unfoldable pub pr_create_pollfd : Memory → EventLoop → Option Polls
unfolding s_malloc poll_registered poll_acceptors
pr_create_pollfd memory loop =
    if (s_malloc memory).0
    then elim (poll_registered loop.registered_events) [
      | none ↦ none
      | some array ↦ some (fill loop array)
    ]
    else some (without_array success loop)

add-one : (n : ℕ) → n + 1 ≡ suc n
add-one n = omega arith

set_at-middle :
    (p x : PollFd) (ps xs : List PollFd) → set_at (length ps) p (ps ++ x ∷ xs) ≡ ps ++ p ∷ xs
unfolding set_at
set_at-middle p x [] xs = refl
set_at-middle p x (y ∷ ps) xs = ap (◌∷◌ y) (set_at-middle p x ps xs)

poll_acceptors-last :
    (ps xs : List PollFd) (x : PollFd) (before : SocketsQueue) (a : SocketEntry)
    → poll_acceptors (length ps) (ps ++ x ∷ xs) (before ++ a ∷ []) ≡ ps ++ listening a ∷ xs
unfolding poll_acceptors
poll_acceptors-last ps xs x [] a = set_at-middle (listening a) x ps xs
poll_acceptors-last ps xs x (b ∷ before) a =
    rw (poll_acceptors, set_at-middle (listening b) x ps xs)
      (poll_acceptors-last ps xs (listening b) before a)

-- The array is the given one.
abbrev pub HasArray : Option Polls → List PollFd → Type 0
HasArray o ps = (r : Polls) × (o ≡ some r) × (r.error ≡ success) × (r.array ≡ some ps)

-- With memory at hand and sockets whose events are all reads and writes, the array for poll holds
-- these sockets, then the last acceptor, and an unused element for each acceptor before it: of
-- several acceptors only the last is polled.
pub pr_create_pollfd-last :
    (loop : EventLoop) (ps : List PollFd) (others : SocketsQueue) (a : SocketEntry)
    → poll_registered loop.registered_events ≡ some (some ps)
    → loop.acceptors_queue ≡ others ++ a ∷ []
    → HasArray (pr_create_pollfd [] loop) (ps ++ listening a ∷ unused_list (length others))
unfolding pr_create_pollfd s_malloc
pr_create_pollfd-last loop ps others a h k = rw h (
  _,
  refl,
  refl,
  rw (k, length-append others (a ∷ []), add-one (length others))
      (ap some (poll_acceptors-last ps (unused_list (length others)) unused others a)),
)
