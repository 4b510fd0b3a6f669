-- ===== src/Server/Handlers.antt =====
-- The handlers of server/src/lib/server/server.c but `handler_read`, and `user_init`. A handler runs
-- as one step and `now` is what time() returns in it; an error that is only logged is left out.
use postman.Prelude.{
  ℕ, List, ◌∷◌, ◌++◌, length, Bool, true, false, Option, none, some, if◌then◌else◌,
}
use postman.Vector
use postman.EventLoop.Event.{ℤ, ErrorType, ClientStatus, connected, disconnected}
use postman.EventLoop.Loop.{EventLoop, el_socket_close}
use postman.EventLoop.Event.{Memory}
use postman.Smtp.State.{SmtpStatus, exit, smtp_init, bytes, digits}
use postman.Server.Users.{
  ClientAddr, UserContext, UserAccessor, UsersList, users_list_add, user_find_by_sock, is_exist,
  user_accessor_release, delete_user,
}
use postman.Server.Timers.{
  timers_make_for_socket, timers_remove_for_socket, timers_update_by_socket,
  timers_is_elapsed_for_socket, timers_is_exist_for_socket,
}
use postman.Server.State.{
  handler_hello_write_at, handler_read_at, handler_write_msg_at, handler_close_socket_at,
  handler_timer_at, Configuration, Server, el_timer, el_timer_free, async_read, async_write,
}

-- TEMPORARY_BUFFER_SIZE.
abbrev pub temporary_buffer_size : ℕ
temporary_buffer_size = 512

-- Over memory that malloc gave, with the client's address as `get_addr` prints it.
unfoldable pub user_init : UserContext → ClientAddr → ℤ → UserContext
unfolding smtp_init Vector.init
user_init context addr sock = record context {
  smtp = smtp_init context.smtp;
  buffer = Vector.init;
  write_buffer = Vector.init;
  socket = sock;
  addr = addr;
}

unfoldable pub is_exit : SmtpStatus → Bool
is_exit exit = true
is_exit _ = false

abbrev pub timeout_msg : List ℕ
timeout_msg = digits 421 ++ bytes " timeout error; close connection"

module _ {D : Type 0} where
  -- The user that was taken out of the list goes with its timer.
  unfoldable pub drop_user : Server D → ℤ → UserAccessor → UsersList → Server D
  unfolding delete_user timers_remove_for_socket
  drop_user srv sock none rest = srv
  drop_user srv sock (some user) rest = record srv {
    users = (delete_user rest (some user)).0;
    timers = timers_remove_for_socket srv.timers sock;
  }

  unfoldable pub user_disconnected : Server D → ℤ → Server D
  unfolding drop_user user_find_by_sock
  user_disconnected srv sock =
      let (accessor, rest) = user_find_by_sock srv.users sock in drop_user srv sock accessor rest

  unfoldable pub handler_close_socket : Server D → ℤ → Server D
  unfolding user_disconnected
  handler_close_socket srv sock = user_disconnected srv sock

  unfoldable pub closing :
      Server D → ℤ → Option (ErrorType × EventLoop × Memory) → Option (Server D)
  closing srv sock none = none
  closing srv sock (some (_, loop, m)) =
      some (record srv { loop = loop; memory = m; closed = sock ∷ srv.closed })

  -- The loop closes the descriptor. A use of NULL in it is `none`.
  unfoldable pub handler_write_msg_of_close_connection_by_timeout : Server D → ℤ → Option (Server D)
  unfolding closing el_socket_close
  handler_write_msg_of_close_connection_by_timeout srv sock =
      closing srv sock (el_socket_close srv.memory srv.loop sock handler_close_socket_at)

  -- The user comes back to the list, and what it sends next is read into its buffer.
  unfoldable pub read_next : Server D → ℤ → UserContext → UsersList → Server D
  unfolding async_read user_accessor_release
  read_next srv sock user rest =
      async_read (record srv { users = (user_accessor_release rest (some user)).0 }) sock
        user.read_buffer temporary_buffer_size handler_read_at

  unfoldable pub hello_written : Server D → ℤ → UserAccessor → UsersList → Server D
  unfolding read_next
  hello_written srv sock none rest = srv
  hello_written srv sock (some user) rest = read_next srv sock user rest

  -- After the reply to QUIT the connection is closed.
  unfoldable pub reply_written : Server D → ℤ → UserAccessor → UsersList → Server D
  unfolding read_next is_exit delete_user timers_remove_for_socket
  reply_written srv sock none rest = srv
  reply_written srv sock (some user) rest =
      if is_exit user.smtp.status
      then record srv {
        closed = sock ∷ srv.closed;
        users = (delete_user rest (some user)).0;
        timers = timers_remove_for_socket srv.timers sock;
      }
      else read_next srv sock user rest

module _ {D : Type 0} (now : ℕ) where
  unfoldable pub touch : Server D → ℤ → Server D
  unfolding timers_update_by_socket
  touch srv sock = record srv { timers = timers_update_by_socket now srv.timers sock }

  unfoldable pub handler_hello_write : Server D → ℤ → ClientStatus → Server D
  unfolding touch hello_written user_disconnected user_find_by_sock
  handler_hello_write srv sock disconnected = user_disconnected srv sock
  handler_hello_write srv sock connected =
      let (accessor, rest) = user_find_by_sock srv.users sock in
      touch (hello_written (touch srv sock) sock accessor rest) sock

  unfoldable pub handler_write : Server D → ℤ → ClientStatus → Server D
  unfolding touch reply_written user_disconnected user_find_by_sock
  handler_write srv sock disconnected = user_disconnected srv sock
  handler_write srv sock connected =
      let (accessor, rest) = user_find_by_sock srv.users sock in
      touch (reply_written (touch srv sock) sock accessor rest) sock

  -- The user's timer and the timer of the event loop.
  unfoldable pub start_timers : Server D → ℤ → Server D
  unfolding timers_make_for_socket el_timer
  start_timers srv sock =
      let (_, events, m) = el_timer now srv.memory srv.timer_events sock 15 handler_timer_at in
      record srv {
        timers = timers_make_for_socket now srv.timers sock;
        timer_events = events;
        memory = m;
      }

module _ {D : Type 0} where
  -- A user that is being served keeps its timer.
  unfoldable pub time_out : Server D → ℤ → ℕ → Server D
  unfolding is_exist el_timer_free async_write
  time_out srv sock descriptor =
      if is_exist srv.users sock
      then async_write (record srv { timer_events = el_timer_free srv.timer_events descriptor })
          sock (some timeout_msg) (length timeout_msg) handler_write_msg_at
      else srv

module _ {D : Type 0} (config : Configuration) (now : ℕ) where
  unfoldable pub handler_accept : Server D → UserContext → ℤ → ClientAddr → Server D
  unfolding user_init users_list_add async_write start_timers
  handler_accept srv context sock addr =
      let users = users_list_add srv.users (user_init context addr sock) in
      let written =
        async_write (record srv { users = users }) sock (some config.hello_msg)
          config.hello_msg_size handler_hello_write_at in
      start_timers now written sock

  unfoldable pub handler_timer : Server D → ℤ → ℕ → Server D
  unfolding time_out timers_is_exist_for_socket timers_is_elapsed_for_socket el_timer_free
  handler_timer srv sock descriptor =
      if timers_is_exist_for_socket srv.timers sock
      then (if timers_is_elapsed_for_socket now srv.timers sock config.timer_period
          then time_out srv sock descriptor
          else srv)
      else record srv { timer_events = el_timer_free srv.timer_events descriptor }
