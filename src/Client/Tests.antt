-- ===== src/Client/Tests.antt =====
-- Runs of the model of the client on small inputs.
use postman.Prelude.{
  ℕ, all, not, ◌==◌, List, [], ◌∷◌, ◌++◌, map, concat, Bool, true, false, none, some, if◌then◌else◌,
  ◌≡◌, ◌≢◌, ◌⊎◌, refl, arith,
}
use postman.Text.Search.{Lacks, crlf}
use postman.Smtp.State.{bytes}
use postman.Server.Headers.{Address, text_of, make_x_headers-text}
use postman.Client.Classes.{is_smtp_success-range}
use postman.Client.Context.{MultiplexContext, Round, stays, get_response_to_context}
use postman.Client.Files.{null, read, file_readline}
use postman.Client.Greeting.{connect_handler-stuck}
use postman.Client.Handlers.{connect_handler, handle_state}
use postman.Client.Letter.{Message, parse_message}
use postman.Client.Mail.{IsSending, HasSent}
use postman.Client.Mailbox.{MailFiles}
use postman.Client.Network.{Peer, line_received, fault, receive_line, send_line}
use postman.Client.Parsed.{ended, parse_message-make_x_headers}
use postman.Client.Readline.{file_readline-lines}
use postman.Client.Receive.{receive_line-in_bounds, receive_line-crlf}
use postman.Client.Removal.{IsDisk, status_of, handle_state-keeps_mail}
use postman.Client.Sending.{send_line-again}
use postman.Client.Smtp.{
  StateCode, smtp_connect, smtp_helo, smtp_mail, smtp_rcpt, smtp_end_message, SmtpContext,
  SmtpResponse, answered, is_smtp_success, is_smtp_4xx_error, is_smtp_5xx_error, not_answer,
}
use postman.Client.Transaction.{start, next, Dialogue-whole_mail}

-- That a byte is missing is computed.
lacks : (c : ℕ) (xs : List ℕ) → all (λ x. not (x == c)) xs ≡ true → Lacks c xs
lacks c [] h = tt
lacks c (x ∷ xs) h = ground (arith, h, lacks c xs)

receive_line-in_bounds_example : receive_line (bytes "250 OK" ++ crlf) ≢ fault
receive_line-in_bounds_example = receive_line-in_bounds (bytes "250 OK" ++ crlf)

receive_line-crlf_example :
    receive_line (bytes "250 OK" ++ (crlf ++ bytes "next"))
    ≡ line_received (bytes "250 OK") (bytes "next")
receive_line-crlf_example =
    receive_line-crlf (bytes "250 OK") (bytes "next") (lacks 0 (bytes "250 OK") refl)
      (lacks 0x0a (bytes "250 OK") refl) (lacks 0x0d (bytes "250 OK") refl)

abbrev ready : Peer
ready = record { input = []; answers = []; wire = bytes "HELO" }

send_line-again_example :
    let (done, peer) =
      send_line (record { input = []; answers = some 3 ∷ []; wire = [] }) (bytes "RCPT to") in
    (done ≡ true) × (peer.wire ≡ bytes "RCPRCPT")
send_line-again_example = send_line-again [] [] (bytes "RCPT to") 3 (omega arith) (omega arith)

file_readline-lines_example :
    (file_readline (bytes "text" ++ 0x0a ∷ bytes "more")
      ≡ read (bytes "text" ++ 0x0a ∷ [], bytes "more"))
    × (file_readline (bytes "text") ≡ null)
file_readline-lines_example =
    file_readline-lines (bytes "text") (bytes "more") (lacks 0 (bytes "text") refl)
      (lacks 0x0a (bytes "text") refl)

abbrev ann : Address
ann = record { user = bytes "ann"; server = bytes "a.org" }

abbrev bob : Address
bob = record { user = bytes "bob"; server = bytes "b.org" }

abbrev eve : Address
eve = record { user = bytes "eve"; server = bytes "b.org" }

parse_message-make_x_headers_example :
    parse_message (bytes "file") (
      (bytes "X-Postman-From: "
        ++ text_of ann
        ++ crlf
        ++ bytes "X-Postman-Date: "
        ++ bytes "1600000000"
        ++ crlf
        ++ bytes "X-Postman-To: "
        ++ bytes "bob@b.org,eve@b.org"
        ++ crlf
        ++ crlf)
      ++ concat (map ended (bytes "Hello" ∷ [])))
    ≡ read (record {
      from = some (bytes "ann@a.org");
      to = bytes "bob@b.org" ∷ bytes "eve@b.org" ∷ [];
      strings = ended (bytes "Hello") ∷ [];
      directory = bytes "file";
    })
parse_message-make_x_headers_example =
    parse_message-make_x_headers (bytes "file") (bytes "1600000000") ann bob (eve ∷ []) _
      (bytes "Hello" ∷ []) (make_x_headers-text (bytes "1600000000") ann bob (eve ∷ [])) refl
      (omega arith) (refl, refl, omega arith)
      ((refl, refl, omega arith), ((refl, refl, omega arith), tt))
      (lacks 0 (bytes "Hello") refl, lacks 0x0a (bytes "Hello") refl, tt)

is_smtp_success-range_example :
    (is_smtp_success 250 ≡ true) × (is_smtp_4xx_error 250 ≡ false) × (is_smtp_5xx_error 250 ≡ false)
is_smtp_success-range_example = is_smtp_success-range 250 (omega arith)

-- A disk of one mail.
abbrev one_mail : MailFiles Bool
one_mail = record {
  entries = λ path d. [];
  content = λ path d. if d then some (bytes "X-Postman-From: ann") else none;
  is_not_file = λ path d. false;
  is_not_directory = λ path d. false;
  remove = λ path d. (true, false);
}

abbrev letter : Message
letter = record {
  from = some (bytes "ann@a.org");
  to = bytes "bob@b.org" ∷ [];
  strings = ended (bytes "Hello") ∷ [];
  directory = bytes "mail/.OTHER_SERVERS/b.org/1";
}

abbrev connection : StateCode → List ℕ → List ℕ → ℕ → ℕ → MultiplexContext
connection state input wire status i = record {
  smtp_context = record {
    socket_desc = record { input = input; answers = []; wire = wire };
    state_code = state;
  };
  status_code = status;
  server = record {
    directory = bytes "mail/.OTHER_SERVERS/b.org";
    server = bytes "b.org";
    message_full_file_names = bytes "mail/.OTHER_SERVERS/b.org/1" ∷ [];
  };
  select_message = some letter;
  iteration = i;
}

abbrev round_of : Bool → Bool → Round
round_of r w = record {
  is_ready_for_read = r;
  is_ready_for_write = w;
  hostname = bytes "host";
  stack = [];
}

abbrev ok_line : List ℕ
ok_line = bytes "250 ok" ++ crlf

abbrev sent_so_far : List ℕ
sent_so_far = bytes "HELO host" ++ (crlf ++ (bytes "MAIL from:<ann@a.org>" ++ crlf))

abbrev begun : MultiplexContext
begun = connection smtp_helo (ok_line ++ ok_line) (bytes "HELO host" ++ crlf) not_answer 0

abbrev sender_sent : MultiplexContext
sender_sent = connection smtp_mail ok_line sent_so_far not_answer 1

abbrev recipient_sent : MultiplexContext
recipient_sent =
    connection smtp_rcpt [] (sent_so_far ++ (bytes "RCPT to:<bob@b.org>" ++ crlf)) not_answer 1

first_round :
    handle_state one_mail smtp_helo (round_of true true) begun true ≡ stays sender_sent true
unfolding handle_state
first_round = refl

second_round :
    handle_state one_mail smtp_mail (round_of true true) sender_sent true
    ≡ stays recipient_sent true
unfolding handle_state
second_round = refl

Dialogue-whole_mail_example :
    IsSending (bytes "HELO host" ++ crlf) letter recipient_sent
    ⊎ HasSent (bytes "HELO host" ++ crlf) letter recipient_sent
Dialogue-whole_mail_example =
    Dialogue-whole_mail one_mail letter begun true refl refl refl (
      next (round_of true true) (next (round_of true true) start refl first_round) refl
        second_round)

abbrev deferred : MultiplexContext
deferred = connection smtp_end_message (bytes "451 later" ++ crlf) [] not_answer 0

deferred-4xx :
    is_smtp_5xx_error (status_of (get_response_to_context (round_of true true) deferred)) ≡ false
unfolding get_response_to_context is_smtp_5xx_error
deferred-4xx = refl

deferred-no_success :
    is_smtp_success (status_of (get_response_to_context (round_of true true) deferred)) ≡ false
unfolding get_response_to_context is_smtp_success
deferred-no_success = refl

handle_state-keeps_mail_example :
    IsDisk true (handle_state one_mail smtp_end_message (round_of true true) deferred true)
handle_state-keeps_mail_example =
    handle_state-keeps_mail one_mail smtp_end_message (round_of true true) deferred true
      deferred-4xx (λ e. deferred-no_success)

abbrev greeting : MultiplexContext
greeting = connection smtp_connect (bytes "220 hello" ++ crlf) [] not_answer 0

abbrev greeted_context : SmtpContext
greeted_context = record {
  socket_desc = record { input = []; answers = []; wire = [] };
  state_code = smtp_connect;
}

abbrev hello : SmtpResponse
hello = record { status_code = 220; message = some (bytes "hello") }

greeting-answered :
    get_response_to_context (round_of true false) greeting ≡ answered hello greeted_context
unfolding get_response_to_context
greeting-answered = refl

hello-success : is_smtp_success 220 ≡ true
unfolding is_smtp_success
hello-success = refl

connect_handler-stuck_example :
    let noted = record greeting { smtp_context = greeted_context; status_code = 220 } in
    (connect_handler one_mail (round_of true false) greeting true ≡ stays noted true)
    × (connect_handler one_mail (round_of false true) noted true ≡ stays noted true)
connect_handler-stuck_example =
    connect_handler-stuck one_mail (round_of true false) (round_of false true) greeting true hello
      greeted_context greeting-answered hello-success refl refl refl refl
