-- ===== src/Server/Steps.antt =====
-- The server as a machine: a step is a call of a handler of server/src/lib/server/server.c by the
-- event loop, or what the loop does between two calls.
use postman.Prelude.{ℕ, List, [], false, some, ◌≡◌}
use postman.EventLoop.Event.{ℤ, ClientStatus, Memory}
use postman.EventLoop.Loop.{EventLoop, el_socket_close}
use postman.Smtp.Regex.{Matcher}
use postman.Maildir.{FileSystem}
use postman.Server.Users.{ClientAddr, UserContext, is_exist}
use postman.Server.State.{Configuration, Server, TimerEvent, handler_close_socket_at}
use postman.Server.Handlers.{
  handler_close_socket, handler_write_msg_of_close_connection_by_timeout, handler_accept,
  handler_hello_write, handler_write, handler_timer,
}
use postman.Server.Read.{served, handler_read}
use postman.Server.Paired.{empty-Paired}
use postman.Server.Keeps.{
  IsPaired, user_disconnected-IsPaired, handler_hello_write-IsPaired, handler_write-IsPaired,
  handler_accept-IsPaired, handler_timer-IsPaired, closing-IsPaired,
}
use postman.Server.ReadKeeps.{handler_read-IsPaired}

module _ {D : Type 0} (fs : FileSystem D) (config : Configuration) (regexec : Matcher) where
  -- A connection is accepted on a descriptor that no user has.
  pub data Step : Server D → Server D → Type 0 where
    accepts :
        {srv : Server D} (now : ℕ) (context : UserContext) (sock : ℤ) (addr : ClientAddr)
        → is_exist srv.users sock ≡ false
        → Step srv (handler_accept config now srv context sock addr)
    greets :
        {srv : Server D} (now : ℕ) (sock : ℤ) (status : ClientStatus)
        → Step srv (handler_hello_write now srv sock status)
    writes :
        {srv : Server D} (now : ℕ) (sock : ℤ) (status : ClientStatus)
        → Step srv (handler_write now srv sock status)
    reads :
        {srv next : Server D} (now : ℕ) (sock : ℤ) (buffer : List ℕ) (size : ℕ)
        (status : ClientStatus)
        → handler_read fs config now regexec srv sock buffer size status ≡ served next
        → Step srv next
    times :
        {srv : Server D} (now : ℕ) (sock : ℤ) (descriptor : ℕ)
        → Step srv (handler_timer config now srv sock descriptor)
    times_out :
        {srv next : Server D} (sock : ℤ)
        → handler_write_msg_of_close_connection_by_timeout srv sock ≡ some next
        → Step srv next
    closes : {srv : Server D} (sock : ℤ) → Step srv (handler_close_socket srv sock)
    moves :
        {srv : Server D} (loop : EventLoop) (timer_events : List TimerEvent) (memory : Memory)
        → Step srv (record srv { loop = loop; timer_events = timer_events; memory = memory })

  pub data Reachable : Server D → Type 0 where
    starts : (srv : Server D) → Reachable (record srv { users = []; timers = [] })
    goes : {srv next : Server D} → Reachable srv → Step srv next → Reachable next

  Step-IsPaired : {srv next : Server D} → Step srv next → IsPaired srv → IsPaired next
  unfolding handler_close_socket handler_write_msg_of_close_connection_by_timeout
  Step-IsPaired {srv = srv} (accepts now context sock addr e) h =
      handler_accept-IsPaired config now srv context sock addr e h
  Step-IsPaired {srv = srv} (greets now sock status) h =
      handler_hello_write-IsPaired now srv sock status h
  Step-IsPaired {srv = srv} (writes now sock status) h =
      handler_write-IsPaired now srv sock status h
  Step-IsPaired {srv = srv} {next = next} (reads now sock buffer size status e) h =
      handler_read-IsPaired fs config now regexec srv next sock buffer size status h e
  Step-IsPaired {srv = srv} (times now sock descriptor) h =
      handler_timer-IsPaired config now srv sock descriptor h
  Step-IsPaired {srv = srv} {next = next} (times_out sock e) h =
      closing-IsPaired srv next sock
        (el_socket_close srv.memory srv.loop sock handler_close_socket_at) e h
  Step-IsPaired {srv = srv} (closes sock) h = user_disconnected-IsPaired srv sock h
  Step-IsPaired (moves loop timer_events memory) h = h

  -- In every state that the handlers reach from no users and no timers, where a connection is
  -- accepted only on a descriptor that no user has and the event loop may change at any time, each
  -- socket has one user at most and one timer at most, and it has a user exactly if it has a
  -- timer.
  pub Reachable-IsPaired : {srv : Server D} → Reachable srv → IsPaired srv
  Reachable-IsPaired (starts srv) = empty-Paired
  Reachable-IsPaired (goes r s) = Step-IsPaired s (Reachable-IsPaired r)
