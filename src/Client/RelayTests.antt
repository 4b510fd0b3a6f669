-- ===== src/Client/RelayTests.antt =====
-- A run of the model of the client on a file that the server wrote.
use postman.Prelude.{
  ℕ, List, [], ◌∷◌, ◌++◌, map, concat, Bool, true, false, none, some, ◌⊎◌, refl, arith,
}
use postman.Text.Search.{crlf}
use postman.Smtp.State.{bytes}
use postman.Server.Headers.{Address, text_of, make_x_headers-text}
use postman.Client.Letter.{Message}
use postman.Client.Mailbox.{MailFiles}
use postman.Client.Smtp.{smtp_helo}
use postman.Client.Context.{MultiplexContext, Round}
use postman.Client.Handlers.{serve}
use postman.Client.Mail.{IsSending, HasSent}
use postman.Client.Replies.{Keeps}
use postman.Client.Parsed.{ended}
use postman.Client.Relay.{serve-relays}

abbrev kim : Address
kim = record { user = bytes "kim"; server = bytes "a.org" }

abbrev lee : Address
lee = record { user = bytes "lee"; server = bytes "b.org" }

abbrev stored_headers : List ℕ
stored_headers =
    bytes "X-Postman-From: "
    ++ text_of kim
    ++ crlf
    ++ bytes "X-Postman-Date: "
    ++ bytes "16"
    ++ crlf
    ++ bytes "X-Postman-To: "
    ++ text_of lee
    ++ crlf
    ++ crlf

abbrev stored : MailFiles Bool
stored = record {
  entries = λ path d. [];
  content = λ path d. some (stored_headers ++ concat (map ended ([] ∷ [])));
  is_not_file = λ path d. false;
  is_not_directory = λ path d. false;
  remove = λ path d. (true, false);
}

abbrev waiting : MultiplexContext
waiting = record {
  smtp_context = record {
    socket_desc = record { input = bytes "250 ok" ++ crlf; answers = []; wire = bytes "HELO" };
    state_code = smtp_helo;
  };
  status_code = 1;
  server = record {
    directory = bytes "b.org";
    server = bytes "b.org";
    message_full_file_names = bytes "1" ∷ [];
  };
  select_message = none;
  iteration = 0;
}

abbrev both_ready : Round
both_ready = record {
  is_ready_for_read = true;
  is_ready_for_write = true;
  hostname = bytes "host";
  stack = [];
}

serve-relays_example :
    let letter : Message = record {
      from = some (bytes "kim@a.org");
      to = bytes "lee@b.org" ∷ [];
      strings = (0x0a ∷ []) ∷ [];
      directory = bytes "1";
    } in
    Keeps stored
      (λ c d. IsSending (bytes "HELO") letter c ⊎ HasSent (bytes "HELO") letter c)
      (serve stored both_ready waiting true)
serve-relays_example =
    serve-relays stored both_ready waiting true (bytes "1") (bytes "16") [] kim lee []
      stored_headers ([] ∷ []) refl refl refl refl (make_x_headers-text (bytes "16") kim lee [])
      refl refl (omega arith) (refl, refl, omega arith) ((refl, refl, omega arith), tt) (tt, tt, tt)
