-- ===== src/Client/Mail.antt =====
-- What is sent of a mail by the handlers of client/src/context/context.c, up to each state.
use postman.Prelude.{
  ℕ, zero, suc, List, [], ◌∷◌, ◌++◌, map, concat, take, get_elem?, append-nil, append_assoc, Option,
  none, some, ◌≡◌, refl, sym, ap, ◌∙◌,
}
use postman.Text.Search.{crlf}
use postman.Smtp.State.{bytes}
use postman.Client.Context.{MultiplexContext}
use postman.Client.Letter.{Message}
use postman.Client.Smtp.{
  StateCode, smtp_helo, smtp_mail, smtp_rcpt, smtp_data, smtp_message, smtp_end_message, printed,
}

abbrev pub mail_line : Message → List ℕ
mail_line mes = bytes "MAIL from:<" ++ (printed mes.from ++ (bytes ">" ++ crlf))

abbrev pub rcpt_line : List ℕ → List ℕ
rcpt_line to_email = bytes "RCPT to:<" ++ (to_email ++ (bytes ">" ++ crlf))

abbrev pub rcpt_lines : List (List ℕ) → List ℕ
rcpt_lines to = concat (map rcpt_line to)

abbrev pub data_line : List ℕ
data_line = bytes "DATA" ++ crlf

abbrev pub end_line : List ℕ
end_line = crlf ++ (bytes "." ++ crlf)

-- The commands up to the text.
abbrev pub commands : Message → List ℕ
commands mes = mail_line mes ++ (rcpt_lines mes.to ++ data_line)

-- The sender, all recipients, the text and its end.
abbrev pub whole_mail : Message → List ℕ
whole_mail mes = commands mes ++ (concat mes.strings ++ end_line)

-- What was sent of a mail, by the state and the number of what was sent in it.
abbrev pub sent_of : Message → StateCode → ℕ → Option (List ℕ)
sent_of mes smtp_helo i = some []
sent_of mes smtp_mail i = some (mail_line mes)
sent_of mes smtp_rcpt i = some (mail_line mes ++ rcpt_lines (take i mes.to))
sent_of mes smtp_data zero = some (commands mes)
sent_of mes smtp_message i = some (commands mes ++ concat (take i mes.strings))
sent_of mes smtp_end_message i = some (whole_mail mes)
sent_of mes _ _ = none

-- These bytes stand behind others on the wire.
abbrev pub IsBehind : List ℕ → List ℕ → Option (List ℕ) → Type 0
IsBehind base wire none = ⊥
IsBehind base wire (some t) = wire ≡ base ++ t

-- The mail is selected, and all that was sent behind `base` is what is due of it.
abbrev pub IsSending : List ℕ → Message → MultiplexContext → Type 0
IsSending base mes c =
    (c.select_message ≡ some mes)
    × (c.smtp_context.socket_desc.answers ≡ [])
    × IsBehind base c.smtp_context.socket_desc.wire
        (sent_of mes c.smtp_context.state_code c.iteration)

-- The mail was sent whole, and the next one is due.
abbrev pub HasSent : List ℕ → Message → MultiplexContext → Type 0
HasSent base mes c =
    (c.select_message ≡ none)
    × (c.smtp_context.state_code ≡ smtp_helo)
    × (c.smtp_context.socket_desc.answers ≡ [])
    × (c.smtp_context.socket_desc.wire ≡ base ++ whole_mail mes)

take-next :
    {A : Type 0} (xs : List A) (i : ℕ) (x : A)
    → get_elem? xs i ≡ some x
    → take (suc i) xs ≡ take i xs ++ (x ∷ [])
take-next [] i x h = absurd (cc h)
take-next (y ∷ ys) zero x h = ap (λ z. z ∷ []) (cc h)
take-next (y ∷ ys) (suc i) x h = ap (◌∷◌ y) (take-next ys i x h)

concat-snoc : (xss : List (List ℕ)) (x : List ℕ) → concat (xss ++ (x ∷ [])) ≡ concat xss ++ x
concat-snoc [] x = append-nil x
concat-snoc (xs ∷ xss) x = ap (◌++◌ xs) (concat-snoc xss x) ∙ sym (append_assoc xs (concat xss) x)

-- One more line of the text.
pub concat-take_next :
    (xss : List (List ℕ)) (i : ℕ) (x : List ℕ)
    → get_elem? xss i ≡ some x
    → concat (take (suc i) xss) ≡ concat (take i xss) ++ x
concat-take_next xss i x h = ap concat (take-next xss i x h) ∙ concat-snoc (take i xss) x

map-snoc :
    (f : List ℕ → List ℕ) (xss : List (List ℕ)) (x : List ℕ)
    → map f (xss ++ (x ∷ [])) ≡ map f xss ++ (f x ∷ [])
map-snoc f [] x = refl
map-snoc f (xs ∷ xss) x = ap (◌∷◌ (f xs)) (map-snoc f xss x)

-- One more recipient.
pub rcpt_lines-take_next :
    (to : List (List ℕ)) (i : ℕ) (x : List ℕ)
    → get_elem? to i ≡ some x
    → rcpt_lines (take (suc i) to) ≡ rcpt_lines (take i to) ++ rcpt_line x
rcpt_lines-take_next to i x h =
    ap rcpt_lines (take-next to i x h)
    ∙ ap concat (map-snoc rcpt_line (take i to) x)
    ∙ concat-snoc (map rcpt_line (take i to)) (rcpt_line x)

-- Behind the last part.
pub take-end : {A : Type 0} (xs : List A) (i : ℕ) → get_elem? xs i ≡ none → take i xs ≡ xs
take-end [] zero h = refl
take-end [] (suc i) h = refl
take-end (y ∷ ys) zero h = absurd (cc h)
take-end (y ∷ ys) (suc i) h = ap (◌∷◌ y) (take-end ys i h)
