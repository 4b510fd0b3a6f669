-- ===== src/Server/State.antt =====
-- The state that the handlers of server/src/lib/server/server.c share, and what they ask of the event
-- loop: server/include/server/config.h, the timers of server/include/event_loop/event_loop.h and of
-- server/src/lib/event_loop/event_loop.c.
use postman.Prelude.{
  ℕ, zero, suc, List, [], ◌∷◌, ◌++◌, Bool, true, false, Option, some, if◌then◌else◌,
}
use postman.EventLoop.Event.{ℤ, Memory, s_malloc}
use postman.EventLoop.Loop.{EventLoop, el_async_read, el_async_write}
use postman.Maildir.{Maildir}
use postman.Server.Users.{UsersList}
use postman.Server.Timers.{TimersList}

-- The addresses of the handlers.
abbrev pub handler_hello_write_at : ℕ
handler_hello_write_at = 1

abbrev pub handler_read_at : ℕ
handler_read_at = 2

abbrev pub handler_write_at : ℕ
handler_write_at = 3

abbrev pub handler_write_msg_at : ℕ
handler_write_msg_at = 4

abbrev pub handler_close_socket_at : ℕ
handler_close_socket_at = 5

abbrev pub handler_timer_at : ℕ
handler_timer_at = 6

abbrev pub handler_accept_at : ℕ
handler_accept_at = 7

-- struct server_configuration, the part that does not change.
pub record Configuration : Type 0 where
  pub md : Maildir
  pub self_server_name : List ℕ
  pub hello_msg : List ℕ
  pub hello_msg_size : ℕ
  pub timer_period : ℕ

-- `timer_event`.
pub record TimerEvent : Type 0 where
  pub socket : ℤ
  pub period : ℕ
  pub handler : ℕ
  pub time_start : ℕ
  pub is_processed : Bool
  pub has_delete : Bool

-- The rest of it, with the event loop, its timers, the memory, the disk, and the descriptors that
-- the handlers closed.
pub record Server (D : Type 0) : Type 0 where
  pub users : UsersList
  pub timers : TimersList
  pub loop : EventLoop
  pub timer_events : List TimerEvent
  pub memory : Memory
  pub disk : D
  pub closed : List ℤ

-- `el_timer` of a loop and a descriptor that are not NULL. The descriptor is the index of the new
-- event.
unfoldable pub el_timer : ℕ → Memory → List TimerEvent → ℤ → ℕ → ℕ → Bool × List TimerEvent × Memory
unfolding s_malloc
el_timer now memory events sock seconds handler =
    let (got, m) = s_malloc memory in
    if got
    then (
      true,
      events
          ++ record {
            socket = sock;
            period = seconds;
            handler = handler;
            time_start = now;
            is_processed = false;
            has_delete = false;
          }
            ∷ [],
      m,
    )
    else (false, events, m)

-- The event behind a descriptor is marked.
unfoldable pub el_timer_free : List TimerEvent → ℕ → List TimerEvent
el_timer_free [] descriptor = []
el_timer_free (e ∷ events) zero = record e { has_delete = true } ∷ events
el_timer_free (e ∷ events) (suc descriptor) = e ∷ el_timer_free events descriptor

module _ {D : Type 0} where
  -- `el_async_read` whose error is only logged.
  unfoldable pub async_read : Server D → ℤ → List ℕ → ℕ → ℕ → Server D
  unfolding el_async_read
  async_read srv sock buffer size handler =
      let (_, loop, m) = el_async_read srv.memory srv.loop sock (some buffer) size handler in
      record srv { loop = loop; memory = m }

  unfoldable pub async_write : Server D → ℤ → Option (List ℕ) → ℕ → ℕ → Server D
  unfolding el_async_write
  async_write srv sock buffer size handler =
      let (_, loop, m) = el_async_write srv.memory srv.loop sock buffer size handler in
      record srv { loop = loop; memory = m }
