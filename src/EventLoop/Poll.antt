-- ===== src/EventLoop/Poll.antt =====
-- What happens to a socket that poll reports ready: `pr_create_pollin_event` and
-- `pr_create_pollout_event` of server/src/lib/event_loop/event_loop.c. accept is a parameter too.
-- A read or a write that is not registered is a use of NULL, with no result.
use postman.Prelude.{
  ℕ, suc, leb, List, [], ◌∷◌, ◌++◌, Bool, true, false, ◌||◌, not, ◌==◌, Option, none, some,
  if◌then◌else◌,
}
use postman.EventLoop.Event.{
  ℤ, negsuc, EventType, ErrorType, success, fatal, errno, ClientStatus, connected, disconnected,
  Event, Memory, s_malloc,
}
use postman.EventLoop.Registered.{RegisteredQueue, req_push, req_pop}
use postman.EventLoop.Occurred.{oeq_push_back}
use postman.EventLoop.Sockets.{sq_get}
use postman.EventLoop.Loop.{EventLoop, made_event}
use postman.EventLoop.Transfer.{
  Transferred, done, failed, Ended, eagain, epipe, read_loop, write_loop,
}

-- What a call leaves: the value returned, the error of its last queue operation (which
-- `pr_create_pollout_event` does not pass on), the loop, what was reported to the global
-- handler, and the state of the system.
pub record Outcome (S : Type 0) : Type 0 where
  pub returned : Bool
  pub error : ErrorType
  pub loop : EventLoop
  pub memory : Memory
  pub reports : List (ℤ × ErrorType)
  pub state : S

unfoldable pub is_disconnected : ClientStatus → Bool
is_disconnected connected = false
is_disconnected disconnected = true

module _ {S : Type 0} where
  -- `oeq_push_back` to the occurred events.
  unfoldable pub occur : Bool → Memory → EventLoop → Event → List (ℤ × ErrorType) → S → Outcome S
  unfolding oeq_push_back
  occur returned memory loop event reports state =
      let (e, q, m) = oeq_push_back memory loop.occurred_events event in
      record {
        returned = returned;
        error = e;
        loop = record loop { occurred_events = q };
        memory = m;
        reports = reports;
        state = state;
      }

  -- The error that an event has if the last call of a loop failed, and if it did not.
  unfoldable pub faulty : Ended S → Event
  faulty end = elim end.last [
    | none ↦ record end.event { error = errno; errno_value = end.errno_value }
    | some _ ↦ record end.event { error = fatal }
  ]

  unfoldable pub is_read : Ended S → Bool
  unfolding is_disconnected
  is_read end =
      (end.event.offset == end.event.size)
      || ((end.errno_value == eagain) || is_disconnected end.event.status)

  unfoldable pub finish_read : Memory → EventLoop → Ended S → Outcome S
  unfolding occur faulty is_read
  finish_read memory loop end =
      let ptr : Event = faulty end in
      if is_read end
      then occur true memory loop end.event [] end.state
      else occur false memory loop ptr ((ptr.socket, ptr.error) ∷ (ptr.socket, ptr.error) ∷ [])
          end.state

  -- The write event goes back to the registered ones.
  unfoldable pub write_again : Memory → EventLoop → Ended S → Event → Outcome S
  unfolding req_push
  write_again memory loop end ptr =
      let (e, q, m) = req_push EventType.sock_write memory loop.registered_events ptr.socket ptr in
      record {
        returned = elim e [ success ↦ true | _ ↦ false ];
        error = e;
        loop = record loop { registered_events = q };
        memory = m;
        reports = elim e [ success ↦ [] | failure ↦ (negsuc 0, failure) ∷ [] ];
        state = end.state;
      }

  abbrev pub checked_by : ErrorType → ℤ → Outcome S → Outcome S
  checked_by success socket o = o
  checked_by failure socket o = record o {
    returned = false;
    reports = o.reports ++ (socket, failure) ∷ [];
  }

  -- An error of `oeq_push_back` is reported, and fails the call.
  abbrev pub checked : ℤ → Outcome S → Outcome S
  checked socket o = checked_by o.error socket o

  abbrev pub failed_with : ℕ → Ended S → Bool
  failed_with e end = elim end.last [ none ↦ end.errno_value == e | some _ ↦ false ]

  unfoldable pub after_write : Ended S → Event
  after_write end =
      if failed_with epipe end then record end.event { status = disconnected } else end.event

  unfoldable pub finish_write : ℕ → Memory → EventLoop → Ended S → Outcome S
  unfolding write_again occur after_write faulty
  finish_write old_offset memory loop end =
      let ptr : Event = after_write end in
      let bad : Event = faulty (record end { event = ptr }) in
      if failed_with eagain end
      then write_again memory loop end ptr
      else (if not (ptr.offset == old_offset)
          then checked (negsuc 0) (occur true memory loop ptr [] end.state)
          else checked bad.socket
              (occur true memory loop bad ((bad.socket, bad.error) ∷ []) end.state))

module _ {S : Type 0} (recv : ℤ → ℕ → S → Transferred (List ℕ) × S) where
  abbrev pub read_from :
      Memory → EventLoop → ℕ → S → Option Event → RegisteredQueue → Option (Outcome S)
  read_from memory loop err state none q = none
  read_from memory loop err state (some ptr) q =
      elim (read_loop recv (suc ptr.size) (record ptr { offset = 0 }) err state) [
        | none ↦ none
        | some end ↦ some (finish_read memory (record loop { registered_events = q }) end)
      ]

  abbrev pub read_popped :
      Memory
      → EventLoop
      → ℕ
      → S
      → Option (ErrorType × Option Event × RegisteredQueue)
      → Option (Outcome S)
  read_popped memory loop err state none = none
  read_popped memory loop err state (some popped) =
      read_from memory loop err state popped.1 popped.2

  -- The branch of `pr_create_pollin_event` for a socket that is no acceptor.
  unfoldable pub pollin_read : Memory → EventLoop → ℤ → ℕ → S → Option (Outcome S)
  unfolding read_loop finish_read req_pop
  pollin_read memory loop fd err state =
      read_popped memory loop err state (req_pop EventType.sock_read loop.registered_events fd)

module _ {S : Type 0} (send : ℤ → List ℕ → S → Transferred ℕ × S) where
  abbrev pub write_from :
      Memory → EventLoop → ℕ → S → Option Event → RegisteredQueue → Option (Outcome S)
  write_from memory loop err state none q = none
  write_from memory loop err state (some ptr) q =
      elim (write_loop send (suc ptr.size) ptr err state) [
        | none ↦ none
        | some end ↦
            some (finish_write ptr.offset memory (record loop { registered_events = q }) end)
      ]

  abbrev pub write_popped :
      Memory
      → EventLoop
      → ℕ
      → S
      → Option (ErrorType × Option Event × RegisteredQueue)
      → Option (Outcome S)
  write_popped memory loop err state none = none
  write_popped memory loop err state (some popped) =
      write_from memory loop err state popped.1 popped.2

  unfoldable pub pr_create_pollout_event : Memory → EventLoop → ℤ → ℕ → S → Option (Outcome S)
  unfolding write_loop finish_write req_pop
  pr_create_pollout_event memory loop fd err state =
      write_popped memory loop err state (req_pop EventType.sock_write loop.registered_events fd)

module _ {S : Type 0} (accept : ℤ → S → Transferred ℤ × S) where
  abbrev refused : EventLoop → Memory → ℤ → ErrorType → S → Outcome S
  refused loop memory fd e state = record {
    returned = false;
    error = success;
    loop = loop;
    memory = memory;
    reports = (fd, e) ∷ [];
    state = state;
  }

  -- The event of a connection; one with an error is for a call of accept that failed.
  unfoldable pub accepted : Memory → EventLoop → ℤ → ℕ → S → Outcome S
  unfolding occur
  accepted memory loop fd handler state =
      let event : Event = made_event EventType.sock_accept fd handler [] 0 in
      let (result, next) = accept fd state in
      elim result [
        | done client ↦ occur true memory loop (record event { client_socket = client }) [] next
        | failed e ↦
            occur true memory loop
              (record event { error = errno; errno_value = e; client_socket = negsuc 0 })
              ((fd, errno) ∷ []) next
      ]

  -- The branch for an acceptor; the error of an early return is not passed on.
  unfoldable pub pollin_accept : Memory → EventLoop → ℤ → S → Outcome S
  unfolding sq_get s_malloc accepted
  pollin_accept memory loop fd state =
      let (e, found) = sq_get loop.acceptors_queue fd in
      elim found [
        | none ↦ refused loop memory fd e state
        | some handler ↦
            let (got, m) = s_malloc memory in
            if got then accepted m loop fd handler state else refused loop m fd fatal state
      ]

module _ {S : Type 0} (recv : ℤ → ℕ → S → Transferred (List ℕ) × S)
    (accept : ℤ → S → Transferred ℤ × S) where
  -- The sockets from the index of the first acceptor on are acceptors.
  unfoldable pub pr_create_pollin_event : Memory → EventLoop → ℤ → ℕ → ℕ → S → Option (Outcome S)
  unfolding pollin_accept pollin_read
  pr_create_pollin_event memory loop fd index err state =
      if leb loop.index_acceptors_start index
      then some (pollin_accept accept memory loop fd state)
      else pollin_read recv memory loop fd err state
