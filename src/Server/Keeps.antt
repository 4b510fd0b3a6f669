-- ===== src/Server/Keeps.antt =====
-- The handlers of server/src/lib/server/server.c but `handler_read` keep users and timers in pairs.
use postman.Prelude.{ℕ, false, Bool-cases, Option, none, some, ◌≡◌, refl, inl, inr}
use mathlib.Core.Path.{subst}
use postman.EventLoop.Event.{ℤ, ErrorType, ClientStatus, connected, disconnected, Memory}
use postman.EventLoop.Loop.{EventLoop}
use postman.Server.Users.{
  ClientAddr, UserContext, UserAccessor, UsersList, is_exist, user_find_by_sock, delete_user,
}
use postman.Server.Timers.{timers_is_exist_for_socket, timers_is_elapsed_for_socket}
use postman.Server.Access.{user_of, user_of-socket}
use postman.Server.Paired.{Paired, update-Paired, leave-Paired, arrive-Paired, release-Paired}
use postman.Server.State.{Configuration, Server, async_read, async_write}
use postman.Server.Handlers.{
  drop_user, user_disconnected, handler_accept, handler_hello_write, handler_write, handler_timer,
  hello_written, reply_written, time_out, read_next, touch, is_exit, closing, user_init,
  start_timers,
}

module _ {D : Type 0} where
  abbrev pub IsPaired : Server D → Type 0
  IsPaired srv = Paired srv.users srv.timers

  pub server_injective : {s t : Server D} → some s ≡ some t → s ≡ t
  server_injective e = cc

  drop_user-IsPaired :
      (srv : Server D) (sock : ℤ) (a : UserAccessor)
      → IsPaired srv
      → IsPaired (drop_user srv sock a (user_find_by_sock srv.users sock).1)
  unfolding drop_user
  drop_user-IsPaired srv sock none h = h
  drop_user-IsPaired srv sock (some u) h = leave-Paired srv.users srv.timers sock h

  pub user_disconnected-IsPaired :
      (srv : Server D) (sock : ℤ) → IsPaired srv → IsPaired (user_disconnected srv sock)
  unfolding user_disconnected
  user_disconnected-IsPaired srv sock h = drop_user-IsPaired srv sock _ h

  -- The accessor that the search gives.
  abbrev pub Found : Server D → ℤ → UserAccessor → Type 0
  Found srv sock a = user_of srv.users sock ≡ a

  abbrev pub rest_of : Server D → ℤ → UsersList
  rest_of srv sock = (user_find_by_sock srv.users sock).1

  pub read_next-IsPaired :
      (srv : Server D) (sock : ℤ) (u v : UserContext)
      → Found srv sock (some u)
      → v.socket ≡ sock
      → IsPaired srv
      → IsPaired (read_next srv sock v (rest_of srv sock))
  unfolding read_next async_read
  read_next-IsPaired srv sock u v k p h = release-Paired srv.users srv.timers sock u v k p h

  pub touch-IsPaired :
      (now : ℕ) (srv : Server D) (sock : ℤ) → IsPaired srv → IsPaired (touch now srv sock)
  unfolding touch
  touch-IsPaired now srv sock h = update-Paired srv.users srv.timers now sock h

  hello_written-IsPaired :
      (srv : Server D) (sock : ℤ) (a : UserAccessor)
      → Found srv sock a
      → IsPaired srv
      → IsPaired (hello_written srv sock a (rest_of srv sock))
  unfolding hello_written
  hello_written-IsPaired srv sock none k h = h
  hello_written-IsPaired srv sock (some u) k h =
      read_next-IsPaired srv sock u u k (user_of-socket srv.users sock u k) h

  reply_written-IsPaired :
      (srv : Server D) (sock : ℤ) (a : UserAccessor)
      → Found srv sock a
      → IsPaired srv
      → IsPaired (reply_written srv sock a (rest_of srv sock))
  unfolding reply_written delete_user
  reply_written-IsPaired srv sock none k h = h
  reply_written-IsPaired srv sock (some u) k h = elim (Bool-cases (is_exit u.smtp.status)) [
    | inl e ↦ rw e (leave-Paired srv.users srv.timers sock h)
    | inr e ↦ rw e (read_next-IsPaired srv sock u u k (user_of-socket srv.users sock u k) h)
  ]

  pub handler_hello_write-IsPaired :
      (now : ℕ) (srv : Server D) (sock : ℤ) (status : ClientStatus)
      → IsPaired srv
      → IsPaired (handler_hello_write now srv sock status)
  unfolding handler_hello_write touch user_find_by_sock
  handler_hello_write-IsPaired now srv sock disconnected h = user_disconnected-IsPaired srv sock h
  handler_hello_write-IsPaired now srv sock connected h =
      touch-IsPaired now
        (hello_written (touch now srv sock) sock (user_find_by_sock srv.users sock).0
          (rest_of srv sock))
        sock
        (hello_written-IsPaired (touch now srv sock) sock _ refl (touch-IsPaired now srv sock h))

  pub handler_write-IsPaired :
      (now : ℕ) (srv : Server D) (sock : ℤ) (status : ClientStatus)
      → IsPaired srv
      → IsPaired (handler_write now srv sock status)
  unfolding handler_write touch user_find_by_sock
  handler_write-IsPaired now srv sock disconnected h = user_disconnected-IsPaired srv sock h
  handler_write-IsPaired now srv sock connected h =
      touch-IsPaired now
        (reply_written (touch now srv sock) sock (user_find_by_sock srv.users sock).0
          (rest_of srv sock))
        sock
        (reply_written-IsPaired (touch now srv sock) sock _ refl (touch-IsPaired now srv sock h))

  pub handler_accept-IsPaired :
      (config : Configuration) (now : ℕ) (srv : Server D) (context : UserContext) (sock : ℤ)
      (addr : ClientAddr)
      → is_exist srv.users sock ≡ false
      → IsPaired srv
      → IsPaired (handler_accept config now srv context sock addr)
  unfolding handler_accept start_timers async_write user_init
  handler_accept-IsPaired config now srv context sock addr e h =
      arrive-Paired srv.users srv.timers now (user_init context addr sock) e h

  time_out-IsPaired :
      (srv : Server D) (sock : ℤ) (descriptor : ℕ)
      → IsPaired srv
      → IsPaired (time_out srv sock descriptor)
  unfolding time_out async_write
  time_out-IsPaired srv sock descriptor h = elim (Bool-cases (is_exist srv.users sock)) [
    | inl e ↦ rw e h
    | inr e ↦ rw e h
  ]

  pub handler_timer-IsPaired :
      (config : Configuration) (now : ℕ) (srv : Server D) (sock : ℤ) (descriptor : ℕ)
      → IsPaired srv
      → IsPaired (handler_timer config now srv sock descriptor)
  unfolding handler_timer
  handler_timer-IsPaired config now srv sock descriptor h =
      elim (Bool-cases (timers_is_exist_for_socket srv.timers sock)) [
        | inl e ↦
            elim (Bool-cases
              (timers_is_elapsed_for_socket now srv.timers sock config.timer_period)) [
                | inl f ↦ rw (e, f) (time_out-IsPaired srv sock descriptor h)
                | inr f ↦ rw (e, f) h
              ]
        | inr e ↦ rw e h
      ]

  pub closing-IsPaired :
      (srv next : Server D) (sock : ℤ) (o : Option (ErrorType × EventLoop × Memory))
      → closing srv sock o ≡ some next
      → IsPaired srv
      → IsPaired next
  unfolding closing
  closing-IsPaired srv next sock none e h = absurd (cc e)
  closing-IsPaired srv next sock (some (_, loop, m)) e h = subst IsPaired (server_injective e) h
