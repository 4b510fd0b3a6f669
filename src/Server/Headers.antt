-- ===== src/Server/Headers.antt =====
-- The headers that `make_x_headers` of server/src/lib/server/server.c writes.
use postman.Prelude.{
  ℕ, List, [], ◌∷◌, ◌++◌, map, concat, append_assoc, append-nil, none, some, ◌≡◌, ap, ◌∙◌,
}
use postman.Text.Concat.{concat_new, concat_new-concat}
use postman.Text.Search.{crlf}
use postman.Smtp.State.{SmtpMailbox, bytes}
use postman.Server.Mail.{add_mailbox, add_recipients, make_x_headers}

-- A mailbox whose names are not NULL.
pub record Address : Type 0 where
  pub user : List ℕ
  pub server : List ℕ

abbrev pub mailbox : Address → SmtpMailbox
mailbox a = record { user_name = some a.user; server_name = some a.server }

abbrev pub text_of : Address → List ℕ
text_of a = a.user ++ bytes "@" ++ a.server

-- The addresses with a comma between two of them.
abbrev pub with_commas : Address → List Address → List ℕ
with_commas a [] = text_of a
with_commas a (b ∷ rest) = text_of a ++ bytes "," ++ with_commas b rest

add_mailbox-text :
    (headers end : List ℕ) (a : Address)
    → add_mailbox headers (mailbox a) end ≡ some (headers ++ text_of a ++ end)
unfolding add_mailbox
add_mailbox-text headers end a = ap some (
    concat_new-concat headers (a.user ∷ bytes "@" ∷ a.server ∷ end ∷ [])
    ∙ simp (append_assoc, append-nil))

recipients_step :
    (headers : List ℕ) (a : Address) (m : SmtpMailbox) (ms : List SmtpMailbox)
    → add_recipients headers (mailbox a ∷ m ∷ ms)
      ≡ add_recipients (headers ++ text_of a ++ bytes ",") (m ∷ ms)
unfolding add_recipients
recipients_step headers a m ms =
    ap (λ o. elim o [ none ↦ none | some next ↦ add_recipients next (m ∷ ms) ])
      (add_mailbox-text headers (bytes ",") a)

add_recipients-text :
    (headers : List ℕ) (a : Address) (rest : List Address)
    → add_recipients headers (map mailbox (a ∷ rest))
      ≡ some (headers ++ with_commas a rest ++ crlf ++ crlf)
unfolding add_recipients
add_recipients-text headers a [] = add_mailbox-text headers (crlf ++ crlf) a ∙ simp append_assoc
add_recipients-text headers a (b ∷ rest) =
    recipients_step headers a (mailbox b) (map mailbox rest)
    ∙ add_recipients-text (headers ++ text_of a ++ bytes ",") b rest
    ∙ simp append_assoc

headers_step :
    (timestamp : List ℕ) (from : Address) (m : SmtpMailbox) (ms : List SmtpMailbox)
    → make_x_headers timestamp (m ∷ ms) (mailbox from)
      ≡ add_recipients
          (concat_new
            (concat_new
              (bytes "X-Postman-From: " ++ text_of from ++ crlf)
              (bytes "X-Postman-Date: " ∷ timestamp ∷ crlf ∷ []))
            (bytes "X-Postman-To: " ∷ []))
          (m ∷ ms)
unfolding make_x_headers
headers_step timestamp from m ms =
    ap
      (λ o. elim o [
        | none ↦ none
        | some headers ↦
            add_recipients
              (concat_new (concat_new headers (bytes "X-Postman-Date: " ∷ timestamp ∷ crlf ∷ []))
                (bytes "X-Postman-To: " ∷ []))
              (m ∷ ms)
      ])
      (add_mailbox-text (bytes "X-Postman-From: ") crlf from)

-- For a sender and at least one recipient whose names are not NULL, `make_x_headers` gives the
-- line of the sender, the line of the date and the line of the recipients, with commas between
-- them, and an empty line.
pub make_x_headers-text :
    (timestamp : List ℕ) (from a : Address) (rest : List Address)
    → make_x_headers timestamp (map mailbox (a ∷ rest)) (mailbox from)
      ≡ some (
          bytes "X-Postman-From: "
          ++ text_of from
          ++ crlf
          ++ bytes "X-Postman-Date: "
          ++ timestamp
          ++ crlf
          ++ bytes "X-Postman-To: "
          ++ with_commas a rest
          ++ crlf
          ++ crlf)
unfolding make_x_headers
make_x_headers-text timestamp from a rest =
    let first = bytes "X-Postman-From: " ++ text_of from ++ crlf in
    let date = bytes "X-Postman-Date: " ∷ timestamp ∷ crlf ∷ [] in
    let to = bytes "X-Postman-To: " ∷ [] in
    headers_step timestamp from (mailbox a) (map mailbox rest)
    ∙ ap (λ h. add_recipients h (mailbox a ∷ map mailbox rest))
        (concat_new-concat (concat_new first date) to
          ∙ ap (λ h. h ++ concat to) (concat_new-concat first date))
    ∙ add_recipients-text (first ++ concat date ++ concat to) a rest
    ∙ simp append_assoc
