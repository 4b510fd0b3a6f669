-- ===== src/Client/Relay.antt =====
-- From the file that the server wrote (server/src/lib/server/server.c) to the bytes that the client
-- sends (client/src/context/context.c).
use mathlib.Core.Path.{subst}
use postman.Prelude.{
  ℕ, ◌<◌, List, [], ◌∷◌, ◌++◌, map, all, concat, length, append-nil, true, none, some, ◌≡◌, ◌⊎◌,
  refl, sym, ap, ◌∙◌,
}
use postman.Server.Mail.{make_x_headers}
use postman.Server.Headers.{Address, mailbox, text_of}
use postman.Client.Files.{null, read}
use postman.Client.Letter.{Message, parse_message}
use postman.Client.Mailbox.{MaildirOtherServer, MailFiles, read_message, get_first_message}
use postman.Client.Smtp.{smtp_helo}
use postman.Client.Context.{MultiplexContext, Round}
use postman.Client.Handlers.{handle_state, selected, serve}
use postman.Client.Mail.{sent_of, IsBehind, IsSending, HasSent}
use postman.Client.Replies.{Keeps}
use postman.Client.Sends.{Goes}
use postman.Client.Transaction.{state-Goes}
use postman.Client.Addresses.{is_plain, IsClean, AreClean}
use postman.Client.Parsed.{ended, AreLines, parse_message-make_x_headers}

module _ {D : Type 0} (files : MailFiles D) where
  serve-selected :
      (round : Round) (c : MultiplexContext) (d : D)
      → c.select_message ≡ none
      → serve files round c d ≡ selected files round c d (get_first_message files c.server d)
  unfolding serve
  serve-selected round c d h =
      ap
        (λ o. elim o [
          | some _ ↦ handle_state files c.smtp_context.state_code round c d
          | none ↦ selected files round c d (get_first_message files c.server d)
        ])
        h

  get_first_message-parse_message :
      (server : MaildirOtherServer) (d : D) (name : List ℕ) (names : List (List ℕ)) (file : List ℕ)
      → server.message_full_file_names ≡ name ∷ names
      → files.content name d ≡ some file
      → get_first_message files server d ≡ parse_message name file
  unfolding get_first_message read_message
  get_first_message-parse_message server d name names file e k =
      ap (λ ns. elim ns [ [] ↦ null | name ∷ _ ↦ read_message files name d ]) e
      ∙ ap (λ o. elim o [ none ↦ null | some file ↦ parse_message name file ]) k

  -- The mail that was read is handled.
  selected-Goes :
      (round : Round) (c : MultiplexContext) (d : D) (mes : Message)
      → c.smtp_context.state_code ≡ smtp_helo
      → c.smtp_context.socket_desc.answers ≡ []
      → Keeps files
          (Goes files c.smtp_context.socket_desc.wire mes)
          (selected files round c d (read mes))
  unfolding selected
  selected-Goes round c d mes s free =
      let base = c.smtp_context.socket_desc.wire in
      state-Goes files base mes c.smtp_context.state_code round
        (record c { select_message = some mes }) d
        (
          refl,
          free,
          subst (λ q. IsBehind base base (sent_of mes q c.iteration)) (sym s)
              (sym (append-nil base)),
        )
        refl

-- Where no mail is selected in the state behind HELO, the sends take all, and the file of the
-- first mail of the server holds what `make_x_headers` gives for a sender, at least one recipient
-- and a time, and whole lines, of bytes as the parser needs them, the round selects that mail: if
-- the connection stays, the bytes that were sent are those due of the mail with the sender, the
-- recipients and the lines that were written.
pub serve-relays :
    {D : Type 0} (files : MailFiles D) (round : Round) (c : MultiplexContext) (d : D)
    (name timestamp : List ℕ) (names : List (List ℕ)) (from a : Address) (rest : List Address)
    (headers : List ℕ) (lines : List (List ℕ))
    → c.select_message ≡ none
    → c.smtp_context.state_code ≡ smtp_helo
    → c.smtp_context.socket_desc.answers ≡ []
    → c.server.message_full_file_names ≡ name ∷ names
    → make_x_headers timestamp (map mailbox (a ∷ rest)) (mailbox from) ≡ some headers
    → files.content name d ≡ some (headers ++ concat (map ended lines))
    → all is_plain timestamp ≡ true
    → 0 < length timestamp
    → IsClean from
    → AreClean (a ∷ rest)
    → AreLines lines
    → let letter : Message = record {
      from = some (text_of from);
      to = map text_of (a ∷ rest);
      strings = map ended lines;
      directory = name;
    } in
      Keeps files
        (λ c' d'.
          IsSending c.smtp_context.socket_desc.wire letter c'
          ⊎ HasSent c.smtp_context.socket_desc.wire letter c')
        (serve files round c d)
serve-relays files round c d name timestamp names from a rest headers lines n s free m e k p q f r
      l =
    let letter : Message = record {
      from = some (text_of from);
      to = map text_of (a ∷ rest);
      strings = map ended lines;
      directory = name;
    } in
    subst (Keeps files (Goes files c.smtp_context.socket_desc.wire letter))
      (sym (
        serve-selected files round c d n
        ∙ ap (selected files round c d) (
            get_first_message-parse_message files c.server d name names _ m k
            ∙ parse_message-make_x_headers name timestamp from a rest headers lines e p q f r l)))
      (selected-Goes files round c d letter s free)
