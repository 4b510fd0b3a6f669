-- ===== src/Client/Parsed.antt =====
-- The mail that the server writes (server/src/lib/server/server.c) is the mail that the client reads
-- (client/src/maildir/maildir.c).
use postman.Prelude.{
  ℕ, zero, suc, ◌-◌, ◌<◌, List, [], ◌∷◌, ◌++◌, map, all, concat, length, length-append,
  append_assoc, true, Option, none, some, ◌≡◌, refl, sym, ap, ◌∙◌, arith,
}
use postman.Text.Search.{Lacks, crlf}
use postman.Smtp.State.{bytes}
use postman.Server.Mail.{make_x_headers}
use postman.Server.Headers.{Address, mailbox, text_of, with_commas, make_x_headers-text}
use postman.Client.Addresses.{
  is_plain, IsClean, AreClean, plain-Lacks, text_of-IsValue, with_commas-IsValue, plain-IsValue,
  split-with_commas, split-at_sign,
}
use postman.Client.Files.{Reading, out_of_fuel, fault, null, read, then_read, file_readline}
use postman.Client.Headers.{header_line, IsValue, read_headers-line}
use postman.Client.Letter.{
  x_postman_from, x_postman_to, x_postman_date, Message, header_name, add_header, read_headers,
  line_read, header_read, read_strings, parse_message,
}
use postman.Client.Readline.{file_readline-lines}
use postman.Client.Split.{IsSome}
use postman.Client.Strings.{split, to_upper, trim, trim_left, trim_right, contains}

-- Lines of a text, each with its line feed.
abbrev pub ended : List ℕ → List ℕ
ended line = line ++ 0x0a ∷ []

abbrev pub AreLines : List (List ℕ) → Type 0
AreLines [] = Unit {0}
AreLines (line ∷ lines) = Lacks 0 line × Lacks 0x0a line × AreLines lines

-- What was read joins the lines behind it.
abbrev string_read : ℕ → Reading (List ℕ × List ℕ) → Reading (List (List ℕ))
string_read fuel out_of_fuel = out_of_fuel
string_read fuel fault = fault
string_read fuel null = read []
string_read fuel (read (string, rest)) =
    then_read (read_strings fuel rest) (λ strings. read (string ∷ strings))

read_strings-lines :
    (fuel : ℕ) (lines : List (List ℕ))
    → AreLines lines
    → length (concat (map ended lines)) < fuel
    → read_strings fuel (concat (map ended lines)) ≡ read (map ended lines)
unfolding read_strings
read_strings-lines zero lines h f = absurd (omega (arith, f))
read_strings-lines (suc fuel) [] h f = ap (string_read fuel) (file_readline-lines [] [] tt tt).1
read_strings-lines (suc fuel) (line ∷ lines) h f =
    let rest = concat (map ended lines) in
    ap (string_read fuel) (
      ap file_readline (append_assoc line (0x0a ∷ []) rest)
      ∙ (file_readline-lines line rest h.0 h.1).0)
    ∙ ap (λ r. then_read r (λ strings. read (ended line ∷ strings)))
        (read_strings-lines fuel lines h.2
          (omega (arith, f, length-append (ended line) rest, length-append line (0x0a ∷ []))))

add_recipients_header :
    (mes : Message) (value : List ℕ) (tokens : List (List ℕ))
    → split value b',' ≡ some tokens
    → IsSome (split value b'@')
    → add_header mes (x_postman_to, some value) ≡ some (record mes { to = tokens })
unfolding add_header
add_recipients_header mes value tokens e h =
    ap (λ o. elim o [ none ↦ none | some tokens ↦ with_second tokens (split value b'@') ]) e
    ∙ second tokens (split value b'@') h
  where
    with_second : List (List ℕ) → Option (List (List ℕ)) → Option Message
    with_second tokens o = elim o [ none ↦ none | some _ ↦ some (record mes { to = tokens }) ]

    second :
        (tokens : List (List ℕ)) (o : Option (List (List ℕ)))
        → IsSome o
        → with_second tokens o ≡ some (record mes { to = tokens })
    second tokens none h = absurd h
    second tokens (some t) h = refl

crlf-trimmed : trim crlf ≡ some crlf
unfolding trim trim_left trim_right
crlf-trimmed = refl

-- The empty line ends the headers.
read_headers-end :
    (fuel : ℕ) (mes : Message) (rest : List ℕ)
    → read_headers (suc fuel) mes (crlf ++ rest) ≡ read (mes, rest)
unfolding read_headers
read_headers-end fuel mes rest =
    ap (line_read mes (read_headers fuel))
      (file_readline-lines (0x0d ∷ []) rest (cc, tt) (cc, tt)).0
    ∙ ap (header_read mes (read_headers fuel) rest) crlf-trimmed

abbrev from_name : List ℕ
from_name = bytes "-Postman-From"

abbrev date_name : List ℕ
date_name = bytes "-Postman-Date"

abbrev to_name : List ℕ
to_name = bytes "-Postman-To"

from_name-known : header_name (map to_upper (b'X' ∷ from_name)) ≡ some x_postman_from
unfolding header_name contains
from_name-known = refl

date_name-known : header_name (map to_upper (b'X' ∷ date_name)) ≡ some x_postman_date
unfolding header_name contains
date_name-known = refl

to_name-known : header_name (map to_upper (b'X' ∷ to_name)) ≡ some x_postman_to
unfolding header_name contains
to_name-known = refl

-- The headers of a mail, line by line.
abbrev mail_headers : List ℕ → List ℕ → List ℕ → List ℕ → List ℕ
mail_headers from date to body =
    header_line (b'X' ∷ from_name) from
    ++ (header_line (b'X' ∷ date_name) date ++ (header_line (b'X' ∷ to_name) to ++ (crlf ++ body)))

read_headers-mail :
    (fuel : ℕ) (mes : Message) (from date to body : List ℕ) (tokens : List (List ℕ))
    → IsValue from
    → IsValue date
    → IsValue to
    → split to b',' ≡ some tokens
    → IsSome (split to b'@')
    → read_headers (suc (suc (suc (suc fuel)))) mes (mail_headers from date to body)
      ≡ read (record mes { from = some from; to = tokens }, body)
unfolding add_header
read_headers-mail fuel mes from date to body tokens f d t e h =
    let sent = record mes { from = some from } in
    read_headers-line (suc (suc (suc fuel))) mes sent from_name x_postman_from from _
      (plain-Lacks 0 from_name refl refl) (plain-Lacks 0x0a from_name refl refl)
      (plain-Lacks b':' from_name refl refl) from_name-known f refl
    ∙ read_headers-line (suc (suc fuel)) sent sent date_name x_postman_date date _
        (plain-Lacks 0 date_name refl refl) (plain-Lacks 0x0a date_name refl refl)
        (plain-Lacks b':' date_name refl refl) date_name-known d refl
    ∙ read_headers-line (suc fuel) sent (record sent { to = tokens }) to_name x_postman_to to _
        (plain-Lacks 0 to_name refl refl) (plain-Lacks 0x0a to_name refl refl)
        (plain-Lacks b':' to_name refl refl) to_name-known t
        (add_recipients_header sent to tokens e h)
    ∙ read_headers-end fuel (record sent { to = tokens }) body

some_same : {A : Type 0} {x y : A} → some x ≡ some y → x ≡ y
some_same h = cc h

headers-lines :
    (timestamp : List ℕ) (from a : Address) (rest : List Address) (headers body : List ℕ)
    → make_x_headers timestamp (map mailbox (a ∷ rest)) (mailbox from) ≡ some headers
    → headers ++ body ≡ mail_headers (text_of from) timestamp (with_commas a rest) body
headers-lines timestamp from a rest headers body e =
    ap (λ h. h ++ body) (some_same (sym e ∙ make_x_headers-text timestamp from a rest))
    ∙ simp append_assoc

four_less : (n : ℕ) → 3 < n → (m : ℕ) × (n ≡ suc (suc (suc (suc m))))
four_less n h = (n - 4, omega (arith, h))

mail_headers-length :
    (from date to body : List ℕ) → 3 < suc (length (mail_headers from date to body))
mail_headers-length from date to body = omega arith

parsed :
    (fuel : ℕ) (path file body : List ℕ) (next : Message) (lines : List (List ℕ))
    → suc (length file) ≡ fuel
    → read_headers fuel (record { from = none; to = []; strings = []; directory = path }) file
      ≡ read (next, body)
    → read_strings (suc (length body)) body ≡ read lines
    → parse_message path file ≡ read (record next { strings = lines })
unfolding parse_message
parsed fuel path file body next lines e h k =
    let start : Message = record { from = none; to = []; strings = []; directory = path } in
    ap
      (λ r. then_read r (λ headed.
        then_read (read_strings (suc (length headed.1)) headed.1)
          (λ strings. read (record headed.0 { strings = strings }))))
      (ap (λ n. read_headers n start file) e ∙ h)
    ∙ ap (λ r. then_read r (λ strings. read (record next { strings = strings }))) k

-- The mail that the server writes is the mail that the client reads: behind the headers that
-- `make_x_headers` gives for a sender, at least one recipient and a time, and a text of whole
-- lines without zero bytes, the parser of `read_message` finds the sender, all recipients in their
-- order and the lines of the text, where no name has a byte that separates (a zero byte, a line
-- feed, a tab, a blank, a comma, a colon or an at sign) and the servers and the time are not
-- empty.
pub parse_message-make_x_headers :
    (path timestamp : List ℕ) (from a : Address) (rest : List Address) (headers : List ℕ)
    (lines : List (List ℕ))
    → make_x_headers timestamp (map mailbox (a ∷ rest)) (mailbox from) ≡ some headers
    → all is_plain timestamp ≡ true
    → 0 < length timestamp
    → IsClean from
    → AreClean (a ∷ rest)
    → AreLines lines
    → parse_message path (headers ++ concat (map ended lines))
      ≡ read (record {
        from = some (text_of from);
        to = map text_of (a ∷ rest);
        strings = map ended lines;
        directory = path;
      })
parse_message-make_x_headers path timestamp from a rest headers lines e p n f r l =
    let body = concat (map ended lines) in
    let start : Message = record { from = none; to = []; strings = []; directory = path } in
    let file = mail_headers (text_of from) timestamp (with_commas a rest) body in
    let (fuel, enough) =
      four_less (suc (length file))
        (mail_headers-length (text_of from) timestamp (with_commas a rest) body) in
    ap (parse_message path) (headers-lines timestamp from a rest headers body e)
    ∙ parsed (suc (suc (suc (suc fuel)))) path file body
        (record start { from = some (text_of from); to = map text_of (a ∷ rest) }) (map ended lines)
        enough
        (read_headers-mail fuel start (text_of from) timestamp (with_commas a rest) body
          (map text_of (a ∷ rest)) (text_of-IsValue from f) (plain-IsValue timestamp p n)
          (with_commas-IsValue a rest r) (split-with_commas a rest r) (split-at_sign a rest r))
        (read_strings-lines (suc (length body)) lines l (omega arith))
