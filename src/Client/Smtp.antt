-- ===== src/Client/Smtp.antt =====
-- Requests and replies: client/include/smtp/smtp.h and client/src/smtp/smtp.c. What is logged is left
-- out, but for the faults in what is made for the log. The connection is made elsewhere.
use postman.Prelude.{
  ℕ, zero, suc, ◌+◌, ◌-◌, ◌/◌, ◌%◌, List, [], ◌∷◌, ◌++◌, length, take, drop, Bool, true, false,
  ◌||◌, Option, none, some, leb, ◌==◌, if◌then◌else◌,
}
use postman.Text.Search.{crlf}
use postman.Smtp.State.{bytes}
use postman.EventLoop.Event.{ℤ, pos, negsuc}
use postman.Client.Network.{Peer, Received, lost, line_received, receive_line, send_line}
use postman.Client.Strings.{convert_string_to_long_int}

-- `state_code`.
pub data StateCode : Type 0 where
  smtp_connect smtp_helo smtp_ehlo smtp_mail smtp_rcpt smtp_data : StateCode
  smtp_message smtp_end_message smtp_rset smtp_quit smtp_invalid : StateCode

abbrev pub is_invalid : StateCode → Bool
is_invalid smtp_invalid = true
is_invalid _ = false

-- `status_code`: an enumeration without negative members, so an unsigned number of 32 bits.
abbrev pub undefined_error : ℕ
undefined_error = 0

abbrev pub not_answer : ℕ
not_answer = 1

abbrev pub smtp_user_mailbox_was_unavailable : ℕ
smtp_user_mailbox_was_unavailable = 550

abbrev pub word : ℕ
word = 4294967296

-- An assignment of a long.
abbrev pub to_status : ℤ → ℕ
to_status (pos n) = n % word
to_status (negsuc n) = word - 1 - n % word

-- The difference wraps around below zero.
abbrev pub in_hundred : ℕ → ℕ → Bool
in_hundred base status_code = (status_code + (word - base)) % word / 100 == 0

unfoldable pub is_smtp_success : ℕ → Bool
is_smtp_success status_code = in_hundred 200 status_code || in_hundred 300 status_code

unfoldable pub is_smtp_4xx_error : ℕ → Bool
is_smtp_4xx_error status_code = in_hundred 400 status_code

unfoldable pub is_smtp_5xx_error : ℕ → Bool
is_smtp_5xx_error status_code = in_hundred 500 status_code

-- The descriptor stands for what comes and goes on it.
pub record SmtpContext : Type 0 where
  pub socket_desc : Peer
  pub state_code : StateCode

unfoldable pub send_smtp_request : SmtpContext → List ℕ → SmtpContext
unfolding send_line
send_smtp_request smtp_cont str =
    let (done, peer) = send_line smtp_cont.socket_desc str in
    record { socket_desc = peer; state_code = if done then smtp_cont.state_code else smtp_invalid }

-- The part that the `smtp_send_*` share: the state after a request that was sent.
unfoldable pub request : StateCode → SmtpContext → List ℕ → SmtpContext
unfolding send_smtp_request
request next context str =
    let sent = send_smtp_request context str in
    if is_invalid sent.state_code then sent else record sent { state_code = next }

-- printf of a string that may be NULL.
abbrev pub printed : Option (List ℕ) → List ℕ
printed none = bytes "(null)"
printed (some str) = str

unfoldable pub smtp_send_helo : List ℕ → SmtpContext → SmtpContext
unfolding request
smtp_send_helo hostname context = request smtp_helo context (bytes "HELO " ++ (hostname ++ crlf))

unfoldable pub smtp_send_ehlo : List ℕ → SmtpContext → SmtpContext
unfolding request
smtp_send_ehlo hostname context = request smtp_ehlo context (bytes "EHLO " ++ (hostname ++ crlf))

unfoldable pub smtp_send_mail : SmtpContext → Option (List ℕ) → SmtpContext
unfolding request
smtp_send_mail context from_email =
    request smtp_mail context (bytes "MAIL from:<" ++ (printed from_email ++ (bytes ">" ++ crlf)))

unfoldable pub smtp_send_rcpt : SmtpContext → List ℕ → SmtpContext
unfolding request
smtp_send_rcpt context to_email =
    request smtp_rcpt context (bytes "RCPT to:<" ++ (to_email ++ (bytes ">" ++ crlf)))

unfoldable pub smtp_send_data : SmtpContext → SmtpContext
unfolding request
smtp_send_data context = request smtp_data context (bytes "DATA" ++ crlf)

-- The last byte of the text for the log goes if it is a CR or a LF; none reads before the text.
unfoldable pub without_end : List ℕ → Option (List ℕ)
without_end [] = none
without_end (c ∷ []) = some (if c == 0x0d || c == 0x0a then [] else c ∷ [])
without_end (c ∷ (d ∷ cs)) = elim (without_end (d ∷ cs)) [
  | none ↦ none
  | some kept ↦ some (c ∷ kept)
]

unfoldable pub smtp_send_message : SmtpContext → List ℕ → Option SmtpContext
unfolding request without_end
smtp_send_message context message =
    let sent = request smtp_message context message in
    if is_invalid sent.state_code then some sent else elim (without_end message) [
      | none ↦ none
      | some body ↦ elim (without_end body) [ none ↦ none | some _ ↦ some sent ]
    ]

unfoldable pub smtp_send_end_message : SmtpContext → SmtpContext
unfolding request
smtp_send_end_message context = request smtp_end_message context (crlf ++ (bytes "." ++ crlf))

unfoldable pub smtp_send_rset : SmtpContext → SmtpContext
unfolding request
smtp_send_rset context = request smtp_connect context (bytes "RSET" ++ crlf)

unfoldable pub smtp_send_quit : SmtpContext → SmtpContext
unfolding request
smtp_send_quit context = request smtp_quit context (bytes "QUIT" ++ crlf)

-- struct smtp_response.
pub record SmtpResponse : Type 0 where
  pub status_code : ℕ
  pub message : Option (List ℕ)

-- A fault is a use of memory out of range; `exits` is a malloc of more than there is.
pub data Answered : Type 0 where
  fault : Answered
  exits : Answered
  answered : SmtpResponse → SmtpContext → Answered

-- The bytes before the first space, three at most; behind the line there is none.
unfoldable pub code_length : ℕ → List ℕ → ℕ
code_length zero buffer = 0
code_length (suc left) [] = suc left
code_length (suc left) (c ∷ buffer) =
    let more = suc (code_length left buffer) in if c == b' ' then 0 else more

-- The line as code and message. `stack` is the memory where `code` stands and behind it: the array
-- has no zero at its end, so its number may go on there. Of a line that is shorter than the code, the
-- message is allocated and copied with a size below zero.
unfoldable pub parse_response : List ℕ → SmtpContext → List ℕ → Answered
unfolding code_length convert_string_to_long_int
parse_response stack context buffer =
    let i = code_length 3 buffer in
    if leb i (length buffer)
    then answered
        (record {
          status_code = to_status (convert_string_to_long_int (take i buffer ++ drop i stack));
          message = some (drop (i + 1) buffer);
        })
        context
    else if length buffer + 1 == i
    then fault
    else exits

unfoldable pub get_smtp_response : List ℕ → SmtpContext → Answered
unfolding receive_line parse_response
get_smtp_response stack context =
    let with_input : List ℕ → SmtpContext =
      λ rest. record context { socket_desc = record context.socket_desc { input = rest } } in
    elim (receive_line context.socket_desc.input) [
      | Received.fault ↦ fault
      | lost rest ↦
          answered (record { status_code = undefined_error; message = none }) (with_input rest)
      | line_received buffer rest ↦ parse_response stack (with_input rest) buffer
    ]
