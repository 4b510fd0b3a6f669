-- ===== src/Client/Letter.antt =====
-- A mail for another server as it is parsed: `read_message` of client/src/maildir/maildir.c.
-- `none` is a fault: a use of NULL, of memory that was not written, or out of range.
use postman.Prelude.{
  ℕ, zero, suc, List, [], ◌∷◌, length, map, Bool, ◌||◌, Option, none, some, ◌==◌, bytes_eq,
  if◌then◌else◌,
}
use postman.Smtp.State.{bytes}
use postman.Client.Files.{
  Reading, out_of_fuel, fault, null, read, then_read, of_option, file_readline,
}
use postman.Client.Strings.{split, trim, to_upper, contains}

-- struct message, without `addresses`, which nothing reads. A name that is NULL is `none`.
pub record Message : Type 0 where
  pub from : Option (List ℕ)
  pub to : List (List ℕ)
  pub strings : List (List ℕ)
  pub directory : List ℕ

-- struct pair, by its `first`; `none` in it is a `second` that was never written.
pub data HeaderName : Type 0 where
  x_postman_from x_postman_to x_postman_date : HeaderName

-- The name in the first token, in capitals.
unfoldable pub header_name : List ℕ → Option HeaderName
unfolding contains
header_name str =
    if contains str (bytes "X-POSTMAN-FROM")
    then some x_postman_from
    else if contains str (bytes "X-POSTMAN-TO")
    then some x_postman_to
    else if contains str (bytes "X-POSTMAN-DATE")
    then some x_postman_date
    else none

-- The two bytes at the end; none reads before the string.
unfoldable pub last_two : List ℕ → Option (ℕ × ℕ)
last_two [] = none
last_two (c ∷ []) = none
last_two (c ∷ (d ∷ [])) = some (c, d)
last_two (c ∷ (d ∷ (e ∷ cs))) = last_two (d ∷ (e ∷ cs))

unfoldable pub without_last : List ℕ → List ℕ
without_last [] = []
without_last (c ∷ []) = []
without_last (c ∷ (d ∷ cs)) = c ∷ without_last (d ∷ cs)

-- The last byte; none reads before the string.
unfoldable pub last_byte : List ℕ → Option ℕ
last_byte [] = none
last_byte (c ∷ []) = some c
last_byte (c ∷ (d ∷ cs)) = last_byte (d ∷ cs)

-- The byte before the last is looked at behind a LF.
unfoldable pub without_crlf : List ℕ → Option (List ℕ)
unfolding last_byte last_two without_last
without_crlf str = elim (last_byte str) [
  | none ↦ none
  | some d ↦
      if d == 0x0a
      then elim (last_two str) [
        | none ↦ none
        | some (c, _) ↦ some (if c == 0x0d then without_last (without_last str) else str)
      ]
      else some str
]

unfoldable pub without_lf : List ℕ → Option (List ℕ)
unfolding last_byte without_last
without_lf str = elim (last_byte str) [
  | none ↦ none
  | some d ↦ some (if d == 0x0a then without_last str else str)
]

-- The value behind the name.
unfoldable pub header_value : List ℕ → Option (List ℕ)
unfolding trim without_crlf without_lf
header_value str = elim (trim str) [
  | none ↦ none
  | some kept ↦ elim (without_crlf kept) [ none ↦ none | some cut ↦ without_lf cut ]
]

-- Of two tokens, the second is the value; else the value is not written.
unfoldable pub second_token : List (List ℕ) → Option (Option (List ℕ))
unfolding header_value
second_token (name ∷ (value ∷ [])) = elim (header_value value) [
  | none ↦ none
  | some v ↦ some (some v)
]
second_token _ = some none

-- Without a token the first is read out of range; an unknown name is NULL.
unfoldable pub header_of : List (List ℕ) → Option (Option (HeaderName × Option (List ℕ)))
header_of [] = none
header_of (token ∷ tokens) = elim (header_name (map to_upper token)) [
  | none ↦ some none
  | some name ↦ elim (second_token (token ∷ tokens)) [
    | none ↦ none
    | some value ↦ some (some (name, value))
  ]
]

unfoldable pub check_message_header : List ℕ → Option (Option (HeaderName × Option (List ℕ)))
check_message_header str = elim (split str b':') [ none ↦ none | some tokens ↦ header_of tokens ]

-- What a header adds to the message; its value is read, but for the date's, which is freed.
unfoldable pub add_header : Message → HeaderName × Option (List ℕ) → Option Message
unfolding split
add_header mes (name, none) = none
add_header mes (x_postman_from, some value) = some (record mes { from = some value })
add_header mes (x_postman_to, some value) = elim (split value b',') [
  | none ↦ none
  | some tokens ↦ elim (split value b'@') [
    | none ↦ none
    | some _ ↦ some (record mes { to = tokens })
  ]
]
add_header mes (x_postman_date, some value) = some mes

abbrev pub is_empty_line : List ℕ → Bool
is_empty_line str = bytes_eq str (0x0a ∷ []) || bytes_eq str (0x0d ∷ 0x0a ∷ [])

-- A header that is not known ends with NULL.
unfoldable pub put_header :
    Message → Option (Option (HeaderName × Option (List ℕ))) → Reading Message
unfolding add_header
put_header mes none = fault
put_header mes (some none) = null
put_header mes (some (some header)) = of_option (add_header mes header)

-- A line of the headers, without its blanks; `more` is the rest of the loop. The empty line ends it.
abbrev pub header_read :
    Message
    → (Message → List ℕ → Reading (Message × List ℕ))
    → List ℕ
    → Option (List ℕ)
    → Reading (Message × List ℕ)
header_read mes more rest none = fault
header_read mes more rest (some str) =
    if is_empty_line str
    then read (mes, rest)
    else then_read (put_header mes (check_message_header str)) (λ next. more next rest)

-- What was read of the file; its end ends the loop too.
abbrev pub line_read :
    Message
    → (Message → List ℕ → Reading (Message × List ℕ))
    → Reading (List ℕ × List ℕ)
    → Reading (Message × List ℕ)
line_read mes more out_of_fuel = out_of_fuel
line_read mes more fault = fault
line_read mes more null = read (mes, [])
line_read mes more (read (string, rest)) = header_read mes more rest (trim string)

-- The loop over the headers, on fuel, to the message and the file behind them.
unfoldable pub read_headers : ℕ → Message → List ℕ → Reading (Message × List ℕ)
read_headers zero mes file = out_of_fuel
read_headers (suc fuel) mes file = line_read mes (read_headers fuel) (file_readline file)

-- The loop over the lines of the text, on fuel.
unfoldable pub read_strings : ℕ → List ℕ → Reading (List (List ℕ))
read_strings zero file = out_of_fuel
read_strings (suc fuel) file = elim (file_readline file) [
  | out_of_fuel ↦ out_of_fuel
  | fault ↦ fault
  | null ↦ read []
  | read (string, rest) ↦ then_read (read_strings fuel rest) (λ strings. read (string ∷ strings))
]

-- A line has a byte at least, so a file has no more lines than bytes.
unfoldable pub parse_message : List ℕ → List ℕ → Reading Message
unfolding read_headers read_strings
parse_message filepath file =
    then_read
      (read_headers (suc (length file))
        (record { from = none; to = []; strings = []; directory = filepath }) file)
      (λ headed.
        then_read (read_strings (suc (length headed.1)) headed.1)
          (λ strings. read (record headed.0 { strings = strings })))
