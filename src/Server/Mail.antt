-- ===== src/Server/Mail.antt =====
-- The headers that the server adds to a mail: `make_x_headers` of server/src/lib/server/server.c.
-- Memory is always there.
use postman.Prelude.{ℕ, List, [], ◌∷◌, ◌++◌, Option, none, some}
use postman.Text.Concat.{concat_new}
use postman.Text.Search.{crlf}
use postman.Smtp.State.{SmtpMailbox, bytes}

-- `none` where a name is NULL.
unfoldable pub add_mailbox : List ℕ → SmtpMailbox → List ℕ → Option (List ℕ)
unfolding concat_new
add_mailbox headers m end = elim m.user_name [
  | none ↦ none
  | some user ↦ elim m.server_name [
    | none ↦ none
    | some server ↦ some (concat_new headers (user ∷ bytes "@" ∷ server ∷ end ∷ []))
  ]
]

-- The loop, and the last recipient behind it. Of no recipients it would read out of range.
unfoldable pub add_recipients : List ℕ → List SmtpMailbox → Option (List ℕ)
unfolding add_mailbox
add_recipients headers [] = none
add_recipients headers (m ∷ []) = add_mailbox headers m (crlf ++ crlf)
add_recipients headers (m ∷ (n ∷ ms)) = elim (add_mailbox headers m (bytes ",")) [
  | none ↦ none
  | some next ↦ add_recipients next (n ∷ ms)
]

unfoldable pub make_x_headers : List ℕ → List SmtpMailbox → SmtpMailbox → Option (List ℕ)
unfolding add_mailbox add_recipients concat_new
make_x_headers timestamp rcpts from = elim (add_mailbox (bytes "X-Postman-From: ") from crlf) [
  | none ↦ none
  | some headers ↦
      let dated = concat_new headers (bytes "X-Postman-Date: " ∷ timestamp ∷ crlf ∷ []) in
      add_recipients (concat_new dated (bytes "X-Postman-To: " ∷ [])) rcpts
]
