-- ===== src/Server/Turn.antt =====
-- What one turn of the loop of `handler_read` in server/src/lib/server/server.c does.
use postman.Prelude.{
  ℕ, suc, length, Bool, true, false, not, ◌&&◌, Bool-cases, none, some, Option-cases, ◌==◌, ==_iff,
  ◌≡◌, ◌≢◌, refl, inl, inr, arith,
}
use postman.Text.Search.{SubStrIterator, sub_str_iterate}
use postman.EventLoop.Event.{ℤ}
use postman.Smtp.Regex.{Matcher}
use postman.Maildir.{FileSystem}
use postman.Server.Users.{UserContext, UsersList}
use postman.Server.State.{Configuration, Server}
use postman.Server.Reply.{Pair, Handling}
use postman.Server.Read.{
  Served, fault, served, is_line_and, read_lines, handle_line, is_continue, after_line, kept,
  after_part,
}

both_hold : (b : Bool) (m n : ℕ) → (b && not (m == n)) ≡ true → (b ≡ true) × (m ≢ n)
both_hold true m n h = (refl, λ e. ground (arith, ==_iff m n, h, e))
both_hold false m n h = cc h

-- What a command leads to once the end of the buffer is reached.
abbrev pub replied : {D : Type 0} → ℕ → Server D → ℤ → UsersList → Handling D → Served D
replied now srv sock rest none = fault
replied now srv sock rest (some (u, disk, pair)) =
    served (after_line now (record srv { disk = disk }) sock u rest pair.buffer)

module _ {D : Type 0} (fs : FileSystem D) (config : Configuration) (now : ℕ) (regexec : Matcher)
    (srv : Server D) (sock : ℤ) (user : UserContext) (rest : UsersList) (it : SubStrIterator)
    (fuel : ℕ) where
  abbrev next : SubStrIterator
  next = (sub_str_iterate it).0

  -- The user, the disk and the pair that the command left.
  abbrev pub Handled : UserContext → D → Pair → Type 0
  Handled u disk pair =
      (is_line_and user.buffer.array (sub_str_iterate it).0.end ≡ some true)
      × (handle_line fs config now regexec user srv.disk (sub_str_iterate it).0
          ≡ some (u, disk, pair))

  abbrev result : Served D
  result = read_lines fs config now regexec (suc fuel) srv sock user rest it

  -- The ways a turn goes.
  pub data Turn : Type 0 where
    lost : result ≡ fault → Turn
    part :
        is_line_and user.buffer.array (sub_str_iterate it).0.end ≡ some false
        → result ≡ after_part now srv sock user rest (kept user (sub_str_iterate it).0)
        → Turn
    last :
        (u : UserContext) (disk : D) (pair : Pair)
        → Handled u disk pair
        → result ≡ served (after_line now (record srv { disk = disk }) sock u rest pair.buffer)
        → Turn
    again :
        (u : UserContext) (disk : D) (pair : Pair)
        → Handled u disk pair
        → is_continue pair.status ≡ true
        → (sub_str_iterate it).0.end ≢ length (sub_str_iterate it).0.str
        → result
          ≡ read_lines fs config now regexec fuel
              (record srv { disk = disk })
              sock
              u
              rest
              (sub_str_iterate it).0
        → Turn

  stops :
      (u : UserContext) (disk : D) (pair : Pair)
      → Handled u disk pair
      → (is_continue pair.status && not (next.end == length next.str)) ≡ false
      → Turn
  unfolding read_lines
  stops u disk pair (a, b) e = last u disk pair (a, b) (rw (a, b, e, read_lines) refl)

  goes_on :
      (u : UserContext) (disk : D) (pair : Pair)
      → Handled u disk pair
      → (is_continue pair.status && not (next.end == length next.str)) ≡ true
      → Turn
  unfolding read_lines
  goes_on u disk pair (a, b) e =
      let (c, n) = both_hold (is_continue pair.status) next.end (length next.str) e in
      again u disk pair (a, b) c n (rw (a, b, e, read_lines) refl)

  handled : (u : UserContext) (disk : D) (pair : Pair) → Handled u disk pair → Turn
  handled u disk pair h =
      elim (Bool-cases (is_continue pair.status && not (next.end == length next.str))) [
        | inl e ↦ goes_on u disk pair h e
        | inr e ↦ stops u disk pair h e
      ]

  line : is_line_and user.buffer.array next.end ≡ some true → Turn
  unfolding read_lines
  line a = elim (Option-cases (handle_line fs config now regexec user srv.disk next)) [
    | inl b ↦ lost (rw (a, b, read_lines) refl)
    | inr ((u, disk, pair), b) ↦ handled u disk pair (a, b)
  ]

  pub turn : Turn
  unfolding read_lines
  turn = elim (Option-cases (is_line_and user.buffer.array next.end)) [
    | inl a ↦ lost (rw (a, read_lines) refl)
    | inr (true, a) ↦ line a
    | inr (false, a) ↦ part a (rw (a, read_lines) refl)
  ]

  at_the_end :
      (b : Bool) → next.end ≡ length next.str → (b && not (next.end == length next.str)) ≡ false
  at_the_end b e = ground (arith, ==_iff next.end (length next.str), e)

  pub line_turn :
      is_line_and user.buffer.array (sub_str_iterate it).0.end ≡ some true
      → (sub_str_iterate it).0.end ≡ length (sub_str_iterate it).0.str
      → read_lines fs config now regexec (suc fuel) srv sock user rest it
        ≡ replied now srv sock rest
            (handle_line fs config now regexec user srv.disk (sub_str_iterate it).0)
  unfolding read_lines
  line_turn a e = elim (Option-cases (handle_line fs config now regexec user srv.disk next)) [
    | inl b ↦ rw (a, b, read_lines) refl
    | inr ((u, disk, pair), b) ↦ rw (a, b, at_the_end (is_continue pair.status) e, read_lines) refl
  ]

  pub part_turn :
      is_line_and user.buffer.array (sub_str_iterate it).0.end ≡ some false
      → read_lines fs config now regexec (suc fuel) srv sock user rest it
        ≡ after_part now srv sock user rest (kept user (sub_str_iterate it).0)
  unfolding read_lines
  part_turn a = rw (a, read_lines) refl

  pub fault_turn :
      is_line_and user.buffer.array (sub_str_iterate it).0.end ≡ none
      → read_lines fs config now regexec (suc fuel) srv sock user rest it ≡ fault
  unfolding read_lines
  fault_turn a = rw (a, read_lines) refl
