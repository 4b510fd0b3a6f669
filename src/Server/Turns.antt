-- ===== src/Server/Turns.antt =====
-- The loop of `handler_read` in server/src/lib/server/server.c comes to an end.
use mathlib.Core.Path.{subst}
use postman.Prelude.{
  ℕ, zero, suc, ◌-◌, ◌≤◌, ◌<◌, List, length, take, drop, length-drop, Bool-cases, Option, none,
  some, ltb, ◌≡◌, ◌≢◌, refl, sym, ap, ◌∙◌, inl, inr, arith,
}
use postman.Vector.{Vector, push_all}
use postman.Text.Search.{SubStrIterator, sub_str_iterate, find_first_entry_str, part_end, crlf}
use postman.EventLoop.Event.{ℤ, ClientStatus, connected, disconnected}
use postman.Smtp.Regex.{Matcher}
use postman.Maildir.{FileSystem}
use postman.Server.Users.{UserContext, UserAccessor, UsersList}
use postman.Server.State.{Configuration, Server}
use postman.Server.Turn.{lost, part, last, again, turn}
use postman.Server.Read.{
  out_of_fuel, read_lines, kept, after_part, received, read_user, handler_read, start_of,
}

find_first_entry_str-short : (str : List ℕ) → length str ≡ 0 → find_first_entry_str str crlf ≡ none
unfolding find_first_entry_str
find_first_entry_str-short str h = rw h refl

-- A turn of the iterator after which the end of the string is not reached has passed a separator.
record Advances (it next : SubStrIterator) : Type 0 where
  string : next.str ≡ it.str
  separator : next.sep ≡ it.sep
  ordered : next.end ≢ length next.str → next.begin ≤ next.end
  further : next.end ≢ length next.str → it.end < next.end
  inside : next.end ≢ length next.str → it.end < length it.str

pub iterate_to :
    (it : SubStrIterator) (o : Option ℕ)
    → it.begin ≤ it.end
    → find_first_entry_str (drop it.end it.str) it.sep ≡ o
    → (sub_str_iterate it).0 ≡ record it { begin = it.end; end = part_end it o }
unfolding sub_str_iterate
iterate_to it o h e = rw e (ground arith)

-- Nothing is found behind the end.
not_past :
    (it : SubStrIterator) (k : ℕ)
    → it.sep ≡ crlf
    → find_first_entry_str (drop it.end it.str) it.sep ≡ some k
    → it.end < length it.str
not_past it k c e = elim (Bool-cases (ltb it.end (length it.str))) [
  | inl h ↦ ground (arith, h)
  | inr h ↦
      let empty : length (drop it.end it.str) ≡ 0 = length-drop it.end it.str ∙ ground (arith, h) in
      absurd (
        cc (
          sym e
          ∙ ap (find_first_entry_str (drop it.end it.str)) c
          ∙ find_first_entry_str-short _ empty))
]

part_end-Advances :
    (it : SubStrIterator) (o : Option ℕ)
    → it.sep ≡ crlf
    → find_first_entry_str (drop it.end it.str) it.sep ≡ o
    → Advances it (record it { begin = it.end; end = part_end it o })
part_end-Advances it none c e = record {
  string = refl;
  separator = refl;
  ordered = λ n. absurd (n refl);
  further = λ n. absurd (n refl);
  inside = λ n. absurd (n refl);
}
part_end-Advances it (some k) c e =
    let two : length it.sep ≡ 2 = ap length c in
    record {
      string = refl;
      separator = refl;
      ordered = λ n. omega (arith, two);
      further = λ n. omega (arith, two);
      inside = λ n. not_past it k c e;
    }

sub_str_iterate-Advances :
    (it : SubStrIterator) → it.sep ≡ crlf → it.begin ≤ it.end → Advances it (sub_str_iterate it).0
sub_str_iterate-Advances it c h =
    subst (Advances it) (sym (iterate_to it _ h refl)) (part_end-Advances it _ c refl)

module _ {D : Type 0} (fs : FileSystem D) (config : Configuration) (now : ℕ)
    (regexec : Matcher) where
  after_part_ends :
      (srv : Server D) (sock : ℤ) (user : UserContext) (rest : UsersList) (o : Option (Vector ℕ))
      → after_part now srv sock user rest o ≢ out_of_fuel
  unfolding after_part
  after_part_ends srv sock user rest none e = cc e
  after_part_ends srv sock user rest (some v) e = cc e

  ends :
      (srv : Server D) (sock : ℤ) (user : UserContext) (rest : UsersList) (it : SubStrIterator)
      (fuel : ℕ)
      → it.sep ≡ crlf
      → it.begin ≤ it.end
      → length it.str - it.end < fuel
      → read_lines fs config now regexec fuel srv sock user rest it ≢ out_of_fuel
  ends srv sock user rest it zero c h f = absurd (omega (arith, f))
  ends srv sock user rest it (suc fuel) c h f =
      let next : SubStrIterator = (sub_str_iterate it).0 in
      let a = sub_str_iterate-Advances it c h in
      elim (turn fs config now regexec srv sock user rest it fuel) [
        | lost e ↦ λ d. cc (sym e ∙ d)
        | part a e ↦ λ d. after_part_ends srv sock user rest (kept user next) (sym e ∙ d)
        | last u disk pair b e ↦ λ d. cc (sym e ∙ d)
        | again u disk pair b s n e ↦ λ d.
            ends (record srv { disk = disk }) sock u rest next fuel (a.separator ∙ c) (a.ordered n)
              (omega (arith, f, a.further n, a.inside n, ap length a.string)) (sym e ∙ d)
      ]

  received_ends :
      (srv : Server D) (sock : ℤ) (user : UserContext) (rest : UsersList) (o : Option (Vector ℕ))
      → received fs config now regexec srv sock user rest o ≢ out_of_fuel
  unfolding received
  received_ends srv sock user rest none = cc
  received_ends srv sock user rest (some v) =
      ends srv sock (record user { buffer = v }) rest (start_of (record user { buffer = v }))
        (suc (length v.array)) refl (omega arith) (omega arith)

  read_user_ends :
      (srv : Server D) (sock : ℤ) (accessor : UserAccessor) (rest : UsersList) (bs : List ℕ)
      → read_user fs config now regexec srv sock accessor rest bs ≢ out_of_fuel
  unfolding read_user
  read_user_ends srv sock none rest bs = cc
  read_user_ends srv sock (some user) rest bs =
      received_ends srv sock user rest (push_all user.buffer bs)

  -- For every input, `handler_read` does not run out of fuel: its loop has no more turns than the
  -- buffer has bytes, and one more.
  pub handler_read-ends :
      (srv : Server D) (sock : ℤ) (buffer : List ℕ) (size : ℕ) (status : ClientStatus)
      → handler_read fs config now regexec srv sock buffer size status ≢ out_of_fuel
  unfolding handler_read
  handler_read-ends srv sock buffer size disconnected = cc
  handler_read-ends srv sock buffer size connected = read_user_ends _ sock _ _ (take size buffer)
