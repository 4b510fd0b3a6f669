-- ===== src/EventLoop/Transfer.antt =====
-- The reading and the writing of a socket that poll reports ready: `pr_create_pollin_event` and
-- `pr_create_pollout_event` of server/src/lib/event_loop/event_loop.c. recv and send are
-- parameters, with a state of the system that they change. The calls of the error handler and the
-- allocation of queue entries behind `Memory` are kept.
use postman.Prelude.{
  ℕ, zero, suc, ◌+◌, ◌-◌, List, ◌++◌, length, take, drop, ◌==◌, Option, none, some, if◌then◌else◌,
}
use postman.EventLoop.Event.{ℤ, disconnected, Event}

-- recv and send return a number, or -1 with errno set.
pub data Transferred (A : Type 0) : Type 0 where
  done : A → Transferred A
  failed : ℕ → Transferred A

-- The errno values that the code asks for.
abbrev pub eagain : ℕ
eagain = 11

abbrev pub epipe : ℕ
epipe = 32

-- The bytes behind the offset, replaced.
abbrev pub write_at : ℕ → List ℕ → List ℕ → List ℕ
write_at offset chunk buffer = take offset buffer ++ (chunk ++ drop (offset + length chunk) buffer)

-- How a loop ends: the event, the result of the last call and errno.
pub record Ended (S : Type 0) : Type 0 where
  pub event : Event
  pub last : Option ℕ
  pub errno_value : ℕ
  pub state : S

module _ {S : Type 0} (recv : ℤ → ℕ → S → Transferred (List ℕ) × S) where
  -- The loop over recv, on fuel: `none` where it does not suffice.
  unfoldable pub read_loop : ℕ → Event → ℕ → S → Option (Ended S)
  read_loop zero ptr err state = none
  read_loop (suc fuel) ptr err state =
      let (result, next) = recv ptr.socket (ptr.size - ptr.offset) state in
      elim result [
        | failed e ↦ some (record { event = ptr; last = none; errno_value = e; state = next })
        | done chunk ↦
            let res = length chunk in
            let moved = record ptr {
              offset = ptr.offset + res;
              buffer = write_at ptr.offset chunk ptr.buffer;
            } in
            let rest = read_loop fuel moved err next in
            if moved.offset == ptr.size
            then some (record { event = moved; last = some res; errno_value = err; state = next })
            else (if res == 0
                then some (record {
                  event = record moved { status = disconnected };
                  last = some res;
                  errno_value = err;
                  state = next;
                })
                else rest)
      ]

module _ {S : Type 0} (send : ℤ → List ℕ → S → Transferred ℕ × S) where
  -- The loop over send, on fuel.
  unfoldable pub write_loop : ℕ → Event → ℕ → S → Option (Ended S)
  write_loop zero ptr err state = none
  write_loop (suc fuel) ptr err state =
      let (result, next) =
        send ptr.socket (take (ptr.size - ptr.offset) (drop ptr.offset ptr.buffer)) state in
      elim result [
        | failed e ↦ some (record { event = ptr; last = none; errno_value = e; state = next })
        | done res ↦
            let moved = record ptr { offset = ptr.offset + res } in
            let rest = write_loop fuel moved err next in
            if res == 0
            then some (record { event = ptr; last = some res; errno_value = err; state = next })
            else (if moved.offset == ptr.size
                then some
                    (record { event = moved; last = some res; errno_value = err; state = next })
                else rest)
      ]
