-- ===== src/Server/Tests.antt =====
-- Runs of the model of the server on small inputs: the users, the timers and the handlers.
use postman.Prelude.{
  ℕ, List, [], ◌∷◌, ◌++◌, find_entry, none, some, Bool, true, false, inl, inr, ◌≡◌, ◌≢◌, refl,
  arith,
}
use postman.EventLoop.Event.{ℤ, pos, is_negative, same_socket, connected, sock_accept, Event}
use postman.EventLoop.Registered.{pr_req_get_sock}
use postman.EventLoop.Lookup.{empty-IsTable}
use postman.EventLoop.Loop.{EventLoop, made_event}
use postman.Vector.Growth.{IsValid}
use postman.Vector.{Vector}
use postman.Smtp.State.{SmtpState, bytes, ok}
use postman.Smtp.Fsm.{AutofsmState}
use postman.Smtp.Sample.{sample}
use postman.Text.Search.{crlf}
use postman.Maildir.Sample.{Files, disk}
use postman.Server.Users.{
  UserContext, UsersList, user_find_by_sock, user_accessor_release, is_exist,
}
use postman.Server.Access.{IsUsers, user_of, with_user, find_by_sock-release}
use postman.Server.Timers.{TimersList}
use postman.Server.State.{Configuration, Server, TimerEvent, handler_accept_at, handler_timer_at}
use postman.Server.Handlers.{handler_accept, handler_timer, touch, read_next}
use postman.Server.Read.{Served, out_of_fuel, fault, served, handler_read}
use postman.Server.Turns.{handler_read-ends}
use postman.Server.Keeps.{IsPaired}
use postman.Server.Dispatch.{el_run}
use postman.Server.Quiet.{first_handled, el_run-quiet}
use postman.Server.Steps.{accepts, times, starts, goes, Reachable-IsPaired}
use postman.Server.Alive.{IsIdle, Awaits, handler_read-Awaits}
use postman.Server.Turn.{replied}
use postman.Server.Reply.{handler_smtp}
use postman.Server.Lines.{handler_read-line, handler_read-part, handler_read-short}

abbrev dialogue : SmtpState
dialogue = record {
  fsm_state = AutofsmState.init;
  rcpt_list = record { array = []; allocated = 5 };
  mail_from = none;
  hello_addr = none;
  mail_data = record { array = []; allocated = 5 };
  buffer = record { text = none; size = 0 };
  status = ok;
}

-- A user whose buffer holds some bytes.
abbrev user_with : List ℕ → UserContext
user_with bs = record {
  smtp = dialogue;
  buffer = record { array = bs; allocated = 10 };
  read_buffer = [];
  write_buffer = record { array = []; allocated = 5 };
  socket = pos 4;
  addr = record { ip = bytes "1"; port = 1 };
}

abbrev changed : UserContext
changed = record (user_with []) { write_buffer = record { array = []; allocated = 9 } }

abbrev idle : EventLoop
idle = record {
  acceptors_queue = [];
  index_acceptors_start = 0;
  registered_events = [];
  occurred_events = [];
}

abbrev server_of : UsersList → TimersList → Server Files
server_of users timers = record {
  users = users;
  timers = timers;
  loop = idle;
  timer_events = [];
  memory = [];
  disk = λ p. none;
  closed = [];
}

abbrev settings : Configuration
settings = record {
  md = bytes "/m";
  self_server_name = bytes "s";
  hello_msg = bytes "220";
  hello_msg_size = 3;
  timer_period = 60;
}

one_user-IsUsers : IsUsers (user_with [] ∷ [])
unfolding find_entry
one_user-IsUsers sock = (λ _. refl, tt)

find_by_sock-release_example :
    let (found, rest) = user_find_by_sock (user_with [] ∷ []) (pos 4) in
    let (back, accessor) = user_accessor_release rest (some changed) in
    (found ≡ some (user_with []))
    × (is_exist rest (pos 4) ≡ false)
    × ((user_find_by_sock rest (pos 4)).0 ≡ none)
    × (accessor ≡ none)
    × IsUsers back
    × ((t : ℤ) → user_of back t ≡ with_user changed (user_with [] ∷ []) t)
unfolding find_entry same_socket
find_by_sock-release_example =
    find_by_sock-release (user_with [] ∷ []) (pos 4) (user_with []) changed one_user-IsUsers refl
      refl

abbrev timers : TimersList
timers =
    record { t = record { socket = pos 4; last_update = 3 }; is_delete = false; num_iterators = 0 }
    ∷ []

abbrev after_accept : Server Files
after_accept =
    handler_accept settings 5 (server_of [] []) (user_with []) (pos 4)
      (record { ip = bytes "1"; port = 1 })

nobody : is_exist [] (pos 4) ≡ false
unfolding is_exist find_entry
nobody = refl

Reachable-IsPaired_example : IsPaired (handler_timer settings 66 after_accept (pos 4) 0)
Reachable-IsPaired_example = Reachable-IsPaired disk settings sample (
    goes
      (goes (starts (server_of [] []))
        (accepts 5 (user_with []) (pos 4) (record { ip = bytes "1"; port = 1 }) nobody))
      (times 66 (pos 4) 0))

abbrev state_of : Served Files → Server Files
state_of (served srv) = srv
state_of _ = server_of [] []

-- A connection that was accepted, and the pass that hands it to the server.
abbrev called : Event
called = record (made_event sock_accept (pos 3) handler_accept_at [] 0) { client_socket = pos 4 }

abbrev ringing : Server Files
ringing = record (server_of [] []) { loop = record idle { occurred_events = called ∷ [] } }

-- A timer of handler_timer, by whether it was deleted, what remains to be done of it, and its start.
abbrev timer_event : Bool → Bool → ℕ → TimerEvent
timer_event deleted in_use start = record {
  socket = pos 4;
  period = 60;
  handler = handler_timer_at;
  time_start = start;
  is_processed = in_use;
  has_delete = deleted;
}

-- A pass at the time 100, with a timer that is due but deleted before one that is not due.
abbrev some_timers : List TimerEvent
some_timers = timer_event true false 3 ∷ (timer_event false false 90 ∷ [])

abbrev with_timers : List TimerEvent → Server Files
with_timers events = record ringing { timer_events = events }

el_run-quiet_example :
    el_run disk settings 100 sample
      (user_with [])
      (record { ip = bytes "1"; port = 1 })
      (with_timers some_timers)
    ≡ first_handled disk settings 100 sample
        (user_with [])
        (record { ip = bytes "1"; port = 1 })
        (with_timers (timer_event false false 90 ∷ []))
        (called ∷ [])
el_run-quiet_example =
    el_run-quiet disk settings 100 sample (user_with []) (record { ip = bytes "1"; port = 1 })
      (with_timers some_timers) refl (inr refl, (inl (omega arith), tt))

handler_read-ends_example :
    handler_read disk settings 9 sample
      (server_of (user_with [] ∷ []) timers)
      (pos 4)
      (bytes "NOOP" ++ crlf ++ crlf)
      8
      connected
    ≢ out_of_fuel
handler_read-ends_example =
    handler_read-ends disk settings 9 sample (server_of (user_with [] ∷ []) timers) (pos 4)
      (bytes "NOOP" ++ crlf ++ crlf) 8 connected

abbrev waiting : Server Files
waiting = state_of (
    handler_read disk settings 9 sample (server_of (user_with [] ∷ []) timers) (pos 4) (bytes "NO")
      2 connected)

idle-IsIdle : IsIdle [] idle (pos 4)
unfolding pr_req_get_sock find_entry is_negative
idle-IsIdle = record {
  at_hand = refl;
  table = empty-IsTable;
  natural = refl;
  no_read = refl;
  no_write = refl;
}

handler_read-Awaits_example : Awaits waiting (pos 4)
unfolding handler_read find_entry same_socket
handler_read-Awaits_example =
    handler_read-Awaits disk settings 9 sample (server_of (user_with [] ∷ []) timers) waiting
      (pos 4) (bytes "NO") 2 (user_with []) idle-IsIdle refl refl

abbrev none_left : UsersList
none_left = (user_find_by_sock (user_with (bytes "NO") ∷ []) (pos 4)).1

handler_read-line_example :
    (v : Vector ℕ) × (v.array ≡ bytes "NOOP" ++ crlf)
    × (handler_read disk settings 9 sample
          (server_of (user_with (bytes "NO") ∷ []) timers)
          (pos 4)
          (bytes "OP" ++ crlf)
          4
          connected
        ≡ replied 9
            (touch 9 (server_of (user_with (bytes "NO") ∷ []) timers) (pos 4))
            (pos 4)
            none_left
            (handler_smtp disk settings sample
              (record (user_with (bytes "NO")) { buffer = v })
              (λ p. none)
              (bytes "NOOP" ++ crlf)))
unfolding find_entry same_socket
handler_read-line_example =
    handler_read-line disk settings 9 sample (server_of (user_with (bytes "NO") ∷ []) timers)
      (pos 4) (bytes "OP" ++ crlf) 4 (user_with (bytes "NO")) refl
      (record { room = omega arith; grows = omega arith }) (bytes "NOOP") refl
      (λ p. cc, (λ p. cc, (λ p. cc, (λ p. cc, tt)))) (λ p. cc, (λ p. cc, (λ p. cc, (λ p. cc, tt))))

handler_read-part_example :
    (v : Vector ℕ) × (v.array ≡ bytes "NO")
    × IsValid v
    × (handler_read disk settings 9 sample
          (server_of (user_with [] ∷ []) timers)
          (pos 4)
          (bytes "NO")
          2
          connected
        ≡ served (
            touch 9
              (read_next
                (touch 9 (server_of (user_with [] ∷ []) timers) (pos 4))
                (pos 4)
                (record (user_with []) { buffer = v })
                (user_find_by_sock (user_with [] ∷ []) (pos 4)).1)
              (pos 4)))
unfolding find_entry same_socket
handler_read-part_example =
    handler_read-part disk settings 9 sample (server_of (user_with [] ∷ []) timers) (pos 4)
      (bytes "NO") 2 (user_with []) refl (record { room = omega arith; grows = omega arith })
      (λ p. cc, (λ p. cc, tt)) (omega arith)

handler_read-short_example :
    handler_read disk settings 9 sample
      (server_of (user_with [] ∷ []) timers)
      (pos 4)
      (bytes "N")
      1
      connected
    ≡ fault
unfolding find_entry same_socket
handler_read-short_example =
    handler_read-short disk settings 9 sample (server_of (user_with [] ∷ []) timers) (pos 4)
      (bytes "N") 1 (user_with []) refl (record { room = omega arith; grows = omega arith })
      (omega arith)
