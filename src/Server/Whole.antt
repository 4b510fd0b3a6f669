-- ===== src/Server/Whole.antt =====
-- The loop of `handler_read` in server/src/lib/server/server.c over a buffer that holds one line, a
-- part of one, or a single byte.
use postman.Prelude.{
  ℕ, zero, suc, ◌+◌, ◌-◌, ◌<◌, ◌≤◌, List, [], ◌∷◌, ◌++◌, length, length-append, get_elem?, take,
  true, false, Option, none, some, ltb, ◌≡◌, ◌≢◌, refl, sym, ap, ◌∙◌, arith,
}
use native.Mathlib.Nat.{zero-add}
use postman.Vector.Growth.{IsValid}
use postman.Text.Search.{
  sub_str_iterate, find_first_entry_str, find_first_entry_str-crlf, find_first_entry_str-Lacks,
  part_end, crlf, Lacks,
}
use postman.EventLoop.Event.{ℤ}
use postman.Smtp.Regex.{Matcher}
use postman.Maildir.{FileSystem}
use postman.Server.Users.{UserContext, UsersList}
use postman.Server.State.{Configuration, Server}
use postman.Server.Reply.{handler_smtp}
use postman.Server.Handlers.{touch, read_next}
use postman.Text.{c_string}
use postman.Server.Read.{
  Served, fault, served, is_line_and, command_at, handle_line, kept, after_part, read_lines,
  start_of,
}
use postman.Server.Turn.{replied, line_turn, part_turn, fault_turn}
use postman.Server.Turns.{iterate_to}

suc_move : (n i : ℕ) → suc n + i ≡ suc (n + i)
suc_move n i = omega arith

get_elem?-append : (xs ys : List ℕ) (i : ℕ) → get_elem? (xs ++ ys) (length xs + i) ≡ get_elem? ys i
get_elem?-append [] ys i = ap (get_elem? ys) (zero-add i)
get_elem?-append (x ∷ xs) ys i =
    ap (get_elem? (x ∷ (xs ++ ys))) (suc_move (length xs) i) ∙ get_elem?-append xs ys i

ltb-true : (a b : ℕ) → a < b → ltb a b ≡ true
ltb-true a b h = ground arith

is_line_and-short : (xs : List ℕ) (n : ℕ) → n < 2 → is_line_and xs n ≡ none
unfolding is_line_and
is_line_and-short xs n h = rw (ltb-true n 2 h) refl

find_first_entry_str-few : (xs : List ℕ) → length xs < 2 → find_first_entry_str xs crlf ≡ none
unfolding find_first_entry_str
find_first_entry_str-few xs h = rw (ltb-true (length xs) 2 h) refl

c_string-Lacks : (xs ys : List ℕ) → Lacks 0 xs → c_string (xs ++ ys) ≡ xs ++ c_string ys
unfolding c_string
c_string-Lacks [] ys h = refl
c_string-Lacks (x ∷ xs) ys h = ground (arith, h, c_string-Lacks xs ys)

c_string-crlf : c_string crlf ≡ crlf
unfolding c_string
c_string-crlf = refl

take_all : (xs : List ℕ) → take (length xs) xs ≡ xs
take_all [] = refl
take_all (x ∷ xs) = ap (◌∷◌ x) (take_all xs)

is_line_and-crlf : (line : List ℕ) → is_line_and (line ++ crlf) (length (line ++ crlf)) ≡ some true
unfolding is_line_and
is_line_and-crlf line =
    ground
      (arith, length-append line crlf, get_elem?-append line crlf 0, get_elem?-append line crlf 1)

Lacks-at :
    (xs : List ℕ) (i : ℕ)
    → Lacks 0x0d xs
    → i < length xs
    → (c : ℕ) × (get_elem? xs i ≡ some c) × (c ≢ 0x0d)
Lacks-at [] i h k = absurd (omega (arith, k))
Lacks-at (x ∷ xs) zero h k = (x, refl, h.0)
Lacks-at (x ∷ xs) (suc i) h k = Lacks-at xs i h.1 (omega (arith, k))

is_line_and-Lacks :
    (xs : List ℕ) → Lacks 0x0d xs → 2 ≤ length xs → is_line_and xs (length xs) ≡ some false
unfolding is_line_and
is_line_and-Lacks xs h k =
    let (c, e, n) = Lacks-at xs (length xs - 2) h (omega (arith, k)) in ground (arith, e, n, k)

-- The first turn, where it ends at the end of the buffer.
first_turn :
    (user : UserContext) (o : Option ℕ)
    → find_first_entry_str user.buffer.array crlf ≡ o
    → part_end (start_of user) o ≡ length user.buffer.array
    → (sub_str_iterate (start_of user)).0
      ≡ record (start_of user) { end = length user.buffer.array }
first_turn user o e p =
    iterate_to (start_of user) o (omega arith) e ∙ ap (λ n. record (start_of user) { end = n }) p

module _ {D : Type 0} (fs : FileSystem D) (config : Configuration) (now : ℕ) (regexec : Matcher)
    (srv : Server D) (sock : ℤ) (user : UserContext) (rest : UsersList) where
  abbrev pub read_all : Served D
  read_all =
      read_lines fs config now regexec (suc (length user.buffer.array)) srv sock user rest
        (start_of user)

  whole_line :
      (line : List ℕ)
      → user.buffer.array ≡ line ++ crlf
      → Lacks 0 line
      → command_at user.buffer.array (record (start_of user) { end = length user.buffer.array })
        ≡ line ++ crlf
  unfolding command_at
  whole_line line e z =
      ap c_string (take_all user.buffer.array ∙ e)
      ∙ c_string-Lacks line crlf z
      ∙ ap (λ x. line ++ x) c_string-crlf

  handle_whole :
      (line : List ℕ)
      → IsValid user.buffer
      → user.buffer.array ≡ line ++ crlf
      → Lacks 0 line
      → handle_line fs config now regexec user srv.disk
          (record (start_of user) { end = length user.buffer.array })
        ≡ handler_smtp fs config regexec user srv.disk (line ++ crlf)
  unfolding handle_line
  handle_whole line w e z =
      rw (ltb-true _ _ w.room)
        (ap (handler_smtp fs config regexec user srv.disk) (whole_line line e z))

  -- All the bytes up to now are one line.
  pub read_all-line :
      (line : List ℕ)
      → IsValid user.buffer
      → user.buffer.array ≡ line ++ crlf
      → Lacks 0x0d line
      → Lacks 0 line
      → read_all
        ≡ replied now srv sock rest (handler_smtp fs config regexec user srv.disk (line ++ crlf))
  read_all-line line w e h z =
      let found : find_first_entry_str user.buffer.array crlf ≡ some (length line) =
        ap (λ x. find_first_entry_str x crlf) e ∙ find_first_entry_str-crlf line [] h in
      let there : part_end (start_of user) (some (length line)) ≡ length user.buffer.array =
        omega (arith, length-append line crlf, ap length e) in
      let it = first_turn user _ found there in
      line_turn fs config now regexec srv sock user rest (start_of user) _
        (ap (λ x. is_line_and user.buffer.array x.end) it
          ∙ ap (λ x. is_line_and x (length x)) e
          ∙ is_line_and-crlf line)
        (ap (λ x. x.end) it ∙ sym (ap (λ x. length x.str) it))
      ∙ ap (replied now srv sock rest)
          (ap (handle_line fs config now regexec user srv.disk) it ∙ handle_whole line w e z)

  -- They have no end of a line yet.
  pub read_all-part :
      Lacks 0x0d user.buffer.array
      → 2 ≤ length user.buffer.array
      → read_all ≡ served (touch now (read_next srv sock user rest) sock)
  unfolding after_part kept
  read_all-part h two =
      let it = first_turn user none (find_first_entry_str-Lacks _ h) refl in
      part_turn fs config now regexec srv sock user rest (start_of user) _ (
        ap (λ x. is_line_and user.buffer.array x.end) it
        ∙ is_line_and-Lacks user.buffer.array h two)
      ∙ ap (λ x. after_part now srv sock user rest (kept user x)) it

  -- There is at most one of them.
  pub read_all-short : length user.buffer.array < 2 → read_all ≡ fault
  read_all-short short =
      let it = first_turn user none (find_first_entry_str-few _ short) refl in
      fault_turn fs config now regexec srv sock user rest (start_of user) _ (
        ap (λ x. is_line_and user.buffer.array x.end) it
        ∙ is_line_and-short user.buffer.array (length user.buffer.array) short)
