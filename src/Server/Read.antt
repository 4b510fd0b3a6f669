-- ===== src/Server/Read.antt =====
-- `handler_read` of server/src/lib/server/server.c: what becomes of the bytes that a client sent.
-- `none` or `fault` stands for a use of memory out of range or of NULL.
use postman.Prelude.{
  ℕ, zero, suc, ◌-◌, List, length, get_elem?, take, drop, Bool, true, false, not, ◌&&◌, Option,
  none, some, ltb, ◌==◌, if◌then◌else◌,
}
use postman.Vector.{Vector}
use postman.Vector
use postman.Text.{c_string}
use postman.Text.Search.{SubStrIterator, sub_str_iterate, crlf}
use postman.EventLoop.Event.{ℤ, ClientStatus, connected, disconnected}
use postman.Smtp.Regex.{Matcher}
use postman.Smtp.State.{SmtpStatus, continue}
use postman.Maildir.{FileSystem}
use postman.Server.Users.{
  UserContext, UserAccessor, UsersList, user_find_by_sock, user_accessor_release,
}
use postman.Server.State.{handler_write_at, Configuration, Server, async_write}
use postman.Server.Reply.{Handling, handler_smtp}
use postman.Server.Handlers.{user_disconnected, touch, read_next}

-- Of the two bytes before the index `end`; the second is read only behind a CR.
unfoldable pub is_line_and : List ℕ → ℕ → Option Bool
is_line_and buffer end = if ltb end 2 then none else elim (get_elem? buffer (end - 2)) [
  | none ↦ none
  | some c ↦
      if c == 0x0d
      then elim (get_elem? buffer (end - 1)) [ none ↦ none | some d ↦ some (d == 0x0a) ]
      else some false
]

-- The command: the zero that is set behind it for the call, or one within it, ends the string.
unfoldable pub command_at : List ℕ → SubStrIterator → List ℕ
unfolding c_string
command_at buffer it = c_string (drop it.begin (take it.end buffer))

-- The iterator before the loop.
abbrev pub start_of : UserContext → SubStrIterator
start_of user = record { begin = 0; end = 0; str = user.buffer.array; sep = crlf }

unfoldable pub is_continue : SmtpStatus → Bool
is_continue continue = true
is_continue _ = false

-- How the loop ends.
pub data Served (D : Type 0) : Type 0 where
  out_of_fuel : Served D
  fault : Served D
  served : Server D → Served D

-- The part from `begin` on moves to the front of the buffer, where it does not start there.
unfoldable pub kept : UserContext → SubStrIterator → Option (Vector ℕ)
unfolding Vector.push_all Vector.clear
kept user it =
    if it.begin == 0
    then some user.buffer
    else Vector.push_all (Vector.clear user.buffer) (drop it.begin (take it.end user.buffer.array))

module _ {D : Type 0} (now : ℕ) where
  -- A reply is written; without one the next lines are read. The buffer is emptied.
  unfoldable pub after_line : Server D → ℤ → UserContext → UsersList → Option (List ℕ) → Server D
  unfolding user_accessor_release async_write touch read_next Vector.clear
  after_line srv sock user rest (some reply) =
      let emptied = record user { buffer = Vector.clear user.buffer } in
      let users = (user_accessor_release rest (some emptied)).0 in
      touch now
        (async_write (record srv { users = users }) sock (some reply) (length reply)
          handler_write_at)
        sock
  after_line srv sock user rest none =
      touch now (read_next srv sock (record user { buffer = Vector.clear user.buffer }) rest) sock

  -- An incomplete line waits for more.
  unfoldable pub after_part : Server D → ℤ → UserContext → UsersList → Option (Vector ℕ) → Served D
  unfolding touch read_next
  after_part srv sock user rest none = fault
  after_part srv sock user rest (some v) =
      served (touch now (read_next srv sock (record user { buffer = v }) rest) sock)

module _ {D : Type 0} (fs : FileSystem D) (config : Configuration) (now : ℕ)
    (regexec : Matcher) where
  -- The command up to `end`. The zero is written at that index, so its cell must be there.
  unfoldable pub handle_line : UserContext → D → SubStrIterator → Handling D
  unfolding handler_smtp command_at
  handle_line user disk it =
      if ltb it.end user.buffer.allocated
      then handler_smtp fs config regexec user disk (command_at user.buffer.array it)
      else none

  -- The loop over the lines of the buffer, on fuel.
  unfoldable pub read_lines : ℕ → Server D → ℤ → UserContext → UsersList → SubStrIterator → Served D
  unfolding sub_str_iterate is_line_and handle_line is_continue after_line kept after_part
  read_lines zero srv sock user rest it = out_of_fuel
  read_lines (suc fuel) srv sock user rest it =
      let next = (sub_str_iterate it).0 in
      elim (is_line_and user.buffer.array next.end) [
        | none ↦ fault
        | some false ↦ after_part now srv sock user rest (kept user next)
        | some true ↦ elim (handle_line user srv.disk next) [
          | none ↦ fault
          | some (handled, disk, pair) ↦
              let here = record srv { disk = disk } in
              let later = read_lines fuel here sock handled rest next in
              if is_continue pair.status && not (next.end == length next.str)
              then later
              else served (after_line now here sock handled rest pair.buffer)
        ]
      ]

  -- The bytes join those of the buffer; each turn of the loop takes one of them at least, up to the
  -- last, so it has as many turns as there are, and one more.
  unfoldable pub received : Server D → ℤ → UserContext → UsersList → Option (Vector ℕ) → Served D
  unfolding read_lines
  received srv sock user rest none = fault
  received srv sock user rest (some v) =
      let filled = record user { buffer = v } in
      read_lines (suc (length v.array)) srv sock filled rest (start_of filled)

  unfoldable pub read_user : Server D → ℤ → UserAccessor → UsersList → List ℕ → Served D
  unfolding received Vector.push_all
  read_user srv sock none rest bytes_read = served srv
  read_user srv sock (some user) rest bytes_read =
      received srv sock user rest (Vector.push_all user.buffer bytes_read)

  unfoldable pub handler_read : Server D → ℤ → List ℕ → ℕ → ClientStatus → Served D
  unfolding read_user touch user_disconnected user_find_by_sock
  handler_read srv sock buffer size disconnected = served (user_disconnected srv sock)
  handler_read srv sock buffer size connected =
      let (accessor, rest) = user_find_by_sock srv.users sock in
      read_user (touch now srv sock) sock accessor rest (take size buffer)
