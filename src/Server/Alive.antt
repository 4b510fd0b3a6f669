-- ===== src/Server/Alive.antt =====
-- After `handler_read` of server/src/lib/server/server.c the event loop waits for the client again.
use postman.Prelude.{
  ℕ, zero, suc, List, [], length, take, false, Option, none, some, ◌≡◌, ◌⊎◌, inl, inr, refl, sym,
  ap, ◌∙◌,
}
use mathlib.Core.Path.{subst}
use postman.Vector.{Vector, push_all}
use postman.Vector
use postman.Text.Search.{SubStrIterator, sub_str_iterate}
use postman.EventLoop.Event.{ℤ, is_negative, same_type_iff, EventType, Memory, connected, Event}
use postman.EventLoop.Lookup.{lookup, IsTable}
use postman.EventLoop.Async.{Registers, el_async-Registers}
use postman.EventLoop.Loop.{EventLoop, Result, el_async_read, el_async_write, made_event}
use postman.Smtp.Regex.{Matcher}
use postman.Maildir.{FileSystem}
use postman.Server.Users.{UserContext, UsersList, user_find_by_sock, user_accessor_release}
use postman.Server.Access.{user_of, same_socket_refl}
use postman.Server.State.{
  Configuration, Server, async_read, async_write, handler_read_at, handler_write_at,
}
use postman.Server.Handlers.{touch, read_next}
use postman.Server.ReadKeeps.{served_injective}
use postman.Server.Read.{
  served, after_line, after_part, read_lines, received, read_user, handler_read, start_of,
}
use postman.Server.Turn.{lost, part, last, again, turn}

-- The loop has neither a read nor a write event of the socket, and memory is at hand.
pub record IsIdle (memory : Memory) (loop : EventLoop) (sock : ℤ) : Type 0 where
  pub at_hand : memory ≡ []
  pub table : IsTable loop.registered_events
  pub natural : is_negative sock ≡ false
  pub no_read : lookup loop.registered_events sock EventType.sock_read ≡ none
  pub no_write : lookup loop.registered_events sock EventType.sock_write ≡ none

module _ {D : Type 0} where
  -- An event of a type and a socket is registered, with the handler for it.
  abbrev pub HasEvent : Server D → ℤ → EventType → ℕ → Type 0
  HasEvent srv sock t handler =
      (e : Event) × (lookup srv.loop.registered_events sock t ≡ some e)
      × (e.type ≡ t)
      × (e.socket ≡ sock)
      × (e.handler ≡ handler)

  -- The client will be read from by `handler_read`, or written to with `handler_write` behind it.
  abbrev pub Awaits : Server D → ℤ → Type 0
  Awaits srv sock =
      HasEvent srv sock EventType.sock_read handler_read_at
      ⊎ HasEvent srv sock EventType.sock_write handler_write_at

  Registers-lookup :
      (t : EventType) (srv : Server D) (sock : ℤ) (buffer : List ℕ) (size handler : ℕ) (r : Result)
      → Registers t srv.loop sock buffer size handler r
      → lookup r.1.registered_events sock t ≡ some (made_event t sock handler buffer size)
  Registers-lookup t srv sock buffer size handler r (q, e, table, same) =
      ap (λ x. lookup x.1.registered_events sock t) e
      ∙ same sock t
      ∙ rw (same_socket_refl sock, (same_type_iff t t).1 refl) refl

  async_read-HasEvent :
      (srv : Server D) (sock : ℤ) (buffer : List ℕ) (size handler : ℕ)
      → IsIdle srv.memory srv.loop sock
      → HasEvent (async_read srv sock buffer size handler) sock EventType.sock_read handler
  unfolding async_read
  async_read-HasEvent srv sock buffer size handler h =
      let registers =
        (el_async-Registers srv.loop sock buffer size handler h.table h.natural h.no_read
          h.no_write).0 in
      (
        made_event EventType.sock_read sock handler buffer size,
        subst
            (λ m.
              lookup (el_async_read m srv.loop sock (some buffer) size handler).1.registered_events
                sock EventType.sock_read
              ≡ some (made_event EventType.sock_read sock handler buffer size))
            (sym h.at_hand)
            (Registers-lookup EventType.sock_read srv sock buffer size handler _ registers),
        refl,
        refl,
        refl,
      )

  async_write-HasEvent :
      (srv : Server D) (sock : ℤ) (buffer : List ℕ) (size handler : ℕ)
      → IsIdle srv.memory srv.loop sock
      → HasEvent (async_write srv sock (some buffer) size handler) sock EventType.sock_write handler
  unfolding async_write
  async_write-HasEvent srv sock buffer size handler h =
      let registers =
        (el_async-Registers srv.loop sock buffer size handler h.table h.natural h.no_read
          h.no_write).1 in
      (
        made_event EventType.sock_write sock handler buffer size,
        subst
            (λ m.
              lookup (el_async_write m srv.loop sock (some buffer) size handler).1.registered_events
                sock EventType.sock_write
              ≡ some (made_event EventType.sock_write sock handler buffer size))
            (sym h.at_hand)
            (Registers-lookup EventType.sock_write srv sock buffer size handler _ registers),
        refl,
        refl,
        refl,
      )

module _ {D : Type 0} (now : ℕ) (srv next : Server D) (sock : ℤ) (v : UserContext)
    (rest : UsersList) (h : IsIdle srv.memory srv.loop sock) where
  read_again-Awaits : (w : UserContext) → Awaits (touch now (read_next srv sock w rest) sock) sock
  unfolding touch read_next
  read_again-Awaits w = inl (
      async_read-HasEvent (record srv { users = (user_accessor_release rest (some w)).0 }) sock
        w.read_buffer 512 handler_read_at h)

  after_line-Awaits : (reply : Option (List ℕ)) → Awaits (after_line now srv sock v rest reply) sock
  unfolding after_line touch
  after_line-Awaits none = read_again-Awaits (record v { buffer = Vector.clear v.buffer })
  after_line-Awaits (some reply) = inr (
      async_write-HasEvent
        (record srv {
          users =
              (user_accessor_release rest (some (record v { buffer = Vector.clear v.buffer }))).0;
        })
        sock reply (length reply) handler_write_at h)

  after_part-Awaits :
      (o : Option (Vector ℕ)) → after_part now srv sock v rest o ≡ served next → Awaits next sock
  unfolding after_part
  after_part-Awaits none e = absurd (cc e)
  after_part-Awaits (some w) e =
      subst (λ s. Awaits s sock) (served_injective e) (read_again-Awaits (record v { buffer = w }))

module _ {D : Type 0} (fs : FileSystem D) (config : Configuration) (now : ℕ) (regexec : Matcher)
    (next : Server D) (sock : ℤ) (rest : UsersList) where
  read_lines-Awaits :
      (srv : Server D) (v : UserContext) (it : SubStrIterator) (fuel : ℕ)
      → IsIdle srv.memory srv.loop sock
      → read_lines fs config now regexec fuel srv sock v rest it ≡ served next
      → Awaits next sock
  unfolding read_lines
  read_lines-Awaits srv v it zero h e = absurd (cc e)
  read_lines-Awaits srv v it (suc fuel) h e =
      elim (turn fs config now regexec srv sock v rest it fuel) [
        | lost f ↦ absurd (cc (sym e ∙ f))
        | part a f ↦ after_part-Awaits now srv next sock v rest h _ (sym f ∙ e)
        | last w disk pair b f ↦
            subst (λ s. Awaits s sock) (served_injective (sym f ∙ e))
              (after_line-Awaits now (record srv { disk = disk }) next sock w rest h pair.buffer)
        | again w disk pair b s n f ↦
            read_lines-Awaits (record srv { disk = disk }) w (sub_str_iterate it).0 fuel h
              (sym f ∙ e)
      ]

  received-Awaits :
      (srv : Server D) (u : UserContext) (o : Option (Vector ℕ))
      → IsIdle srv.memory srv.loop sock
      → received fs config now regexec srv sock u rest o ≡ served next
      → Awaits next sock
  unfolding received
  received-Awaits srv u none h e = absurd (cc e)
  received-Awaits srv u (some v) h e =
      read_lines-Awaits srv (record u { buffer = v }) (start_of (record u { buffer = v }))
        (suc (length v.array)) h e

-- With memory at hand, for a queue that `req_push` and `req_pop` keep, a socket that is no
-- negative number, has neither a read nor a write event and has a user that is not being served:
-- if `handler_read` comes to an end without a fault, then of the socket a read event with
-- `handler_read` as its handler is registered, or a write event with `handler_write` as its
-- handler.
pub handler_read-Awaits :
    {D : Type 0} (fs : FileSystem D) (config : Configuration) (now : ℕ) (regexec : Matcher)
    (srv next : Server D) (sock : ℤ) (buffer : List ℕ) (size : ℕ) (u : UserContext)
    → IsIdle srv.memory srv.loop sock
    → user_of srv.users sock ≡ some u
    → handler_read fs config now regexec srv sock buffer size connected ≡ served next
    → Awaits next sock
unfolding handler_read read_user user_find_by_sock touch
handler_read-Awaits fs config now regexec srv next sock buffer size u h k e =
    let rest = (user_find_by_sock srv.users sock).1 in
    received-Awaits fs config now regexec next sock rest (touch now srv sock) u
      (push_all u.buffer (take size buffer)) h
      (sym (
          ap
            (λ a.
              read_user fs config now regexec (touch now srv sock) sock a rest (take size buffer))
            k)
        ∙ e)
