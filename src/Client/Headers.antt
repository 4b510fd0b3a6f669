-- ===== src/Client/Headers.antt =====
-- What `read_message` of client/src/maildir/maildir.c makes of one header.
use postman.Prelude.{
  ℕ, suc, ◌<◌, List, [], ◌∷◌, ◌++◌, map, length, append_assoc, false, Option, none, some, ◌≡◌, refl,
  sym, ap, ◌∙◌, arith,
}
use postman.Text.Search.{Lacks, crlf}
use postman.Client.Files.{read, then_read, of_option, file_readline}
use postman.Client.Letter.{
  Message, HeaderName, header_name, header_value, second_token, header_of, check_message_header,
  add_header, put_header, read_headers, line_read, header_read,
}
use postman.Client.Readline.{file_readline-lines}
use postman.Client.Split.{split-two, trim-kept, header_value-cut}
use postman.Client.Strings.{is_blank, to_upper, trim, split}

abbrev pub header_line : List ℕ → List ℕ → List ℕ
header_line name value = name ++ b':' ∷ (b' ' ∷ (value ++ crlf))

pub Lacks-append : (c : ℕ) (a b : List ℕ) → Lacks c a → Lacks c b → Lacks c (a ++ b)
Lacks-append c [] b h k = k
Lacks-append c (x ∷ a) b h k = (h.0, Lacks-append c a b h.1 k)

-- A value starts with no blank, and has no byte that would end the string, the line or the name.
abbrev pub IsValue : List ℕ → Type 0
IsValue [] = ⊥
IsValue (c ∷ v) = (is_blank c ≡ false) × Lacks 0 (c ∷ v) × Lacks 0x0a (c ∷ v) × Lacks b':' (c ∷ v)

header_of-known :
    (name value : List ℕ) (h : HeaderName) (v : List ℕ)
    → header_name (map to_upper name) ≡ some h
    → header_value value ≡ some v
    → header_of (name ∷ (value ∷ [])) ≡ some (some (h, some v))
unfolding header_of second_token
header_of-known name value h v e k = rw (header_of, e, second_token, k) refl

pub IsValue-Lacks : (v : List ℕ) → IsValue v → Lacks 0 v × Lacks 0x0a v × Lacks b':' v
IsValue-Lacks [] k = absurd k
IsValue-Lacks (c ∷ v) k = (k.1, k.2, k.3)

header_value-line : (v : List ℕ) → IsValue v → header_value (b' ' ∷ (v ++ crlf)) ≡ some v
header_value-line [] k = absurd k
header_value-line (c ∷ v) k = header_value-cut c v k.0 k.2

-- What stands behind the colon has no other.
value-Lacks : (v : List ℕ) → Lacks b':' v → Lacks b':' (b' ' ∷ (v ++ crlf))
value-Lacks v h = (cc, Lacks-append b':' v crlf h (cc, (cc, tt)))

value-length : (v : List ℕ) → 0 < length (b' ' ∷ v)
value-length v = omega arith

tokens-line :
    (tokens : List (List ℕ)) (line : List ℕ) (o : Option (HeaderName × Option (List ℕ)))
    → split line b':' ≡ some tokens
    → header_of tokens ≡ some o
    → check_message_header line ≡ some o
unfolding check_message_header
tokens-line tokens line o e k =
    ap (λ o. elim o [ none ↦ none | some tokens ↦ header_of tokens ]) e ∙ k

check_message_header-line :
    (name : List ℕ) (h : HeaderName) (v : List ℕ)
    → Lacks b':' name
    → 0 < length name
    → header_name (map to_upper name) ≡ some h
    → IsValue v
    → check_message_header (header_line name v) ≡ some (some (h, some v))
check_message_header-line name h v l p e k =
    tokens-line (name ∷ ((b' ' ∷ (v ++ crlf)) ∷ [])) (header_line name v) (some (h, some v))
      (split-two b':' name (b' ' ∷ (v ++ crlf)) l p (value-Lacks v (IsValue-Lacks v k).2)
        (value-length (v ++ crlf)))
      (header_of-known name (b' ' ∷ (v ++ crlf)) h v e (header_value-line v k))

-- One round of the loop over the headers.
pub read_headers-line :
    (fuel : ℕ) (mes next : Message) (name : List ℕ) (h : HeaderName) (v rest : List ℕ)
    → Lacks 0 name
    → Lacks 0x0a name
    → Lacks b':' name
    → header_name (map to_upper (b'X' ∷ name)) ≡ some h
    → IsValue v
    → add_header mes (h, some v) ≡ some next
    → read_headers (suc fuel) mes (header_line (b'X' ∷ name) v ++ rest)
      ≡ read_headers fuel next rest
unfolding read_headers put_header
read_headers-line fuel mes next name h v rest z d e' e k a =
    let l = b'X' ∷ (name ++ b':' ∷ (b' ' ∷ (v ++ 0x0d ∷ []))) in
    let cut : l ++ 0x0a ∷ [] ≡ header_line (b'X' ∷ name) v = ap (◌∷◌ b'X') (
      append_assoc name (b':' ∷ (b' ' ∷ (v ++ 0x0d ∷ []))) (0x0a ∷ [])
      ∙ ap (λ w. name ++ b':' ∷ (b' ' ∷ w)) (append_assoc v (0x0d ∷ []) (0x0a ∷ []))) in
    let lines =
      file_readline-lines l rest
        (cc, Lacks-append 0 name _ z (cc, (cc, Lacks-append 0 v _ (IsValue-Lacks v k).0 (cc, tt))))
        (
          cc,
          Lacks-append 0x0a name _ d
              (cc, (cc, Lacks-append 0x0a v _ (IsValue-Lacks v k).1 (cc, tt))),
        ) in
    let readline : file_readline (header_line (b'X' ∷ name) v ++ rest)
        ≡ read (header_line (b'X' ∷ name) v, rest) =
      ap file_readline (ap (λ w. w ++ rest) (sym cut) ∙ append_assoc l (0x0a ∷ []) rest)
      ∙ lines.0
      ∙ ap (λ w. read (w, rest)) cut in
    let trimmed : trim (header_line (b'X' ∷ name) v) ≡ some (header_line (b'X' ∷ name) v) =
      ap trim (sym cut)
      ∙ trim-kept b'X' (name ++ b':' ∷ (b' ' ∷ (v ++ 0x0d ∷ []))) 0x0a refl refl
      ∙ ap some cut in
    let more = read_headers fuel in
    let line = header_line (b'X' ∷ name) v in
    ap (line_read mes more) readline
    ∙ ap (header_read mes more rest) trimmed
    ∙ ap (λ o. then_read (put_header mes o) (λ next. more next rest))
        (check_message_header-line (b'X' ∷ name) h v (cc, e') (omega arith) e k)
    ∙ ap (λ o. then_read (of_option o) (λ next. more next rest)) a
