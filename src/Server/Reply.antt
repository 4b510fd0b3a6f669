-- ===== src/Server/Reply.antt =====
-- The answer to a line: `handler_smtp` of server/src/lib/server/server.c. What is logged is left
-- out, the look-up of the client's name for the log with it.
use postman.Prelude.{ℕ, List, [], ◌∷◌, Bool, Option, none, some, if◌then◌else◌}
use postman.Text.Concat.{concat_new}
use postman.Smtp.Regex.{Matcher}
use postman.Smtp.State.{
  SmtpState, SmtpStatus, ok, warning, continue, data_end, exit, bytes, smtp_make_response,
}
use postman.Smtp.Parse.{smtp_parse, ok_msg}
use postman.Maildir.{FileSystem, Ending, fault, failed, done}
use postman.Server.Users.{UserContext}
use postman.Server.State.{Configuration}
use postman.Server.Send.{send_mail}

-- struct pair.
pub record Pair : Type 0 where
  pub buffer : Option (List ℕ)
  pub status : SmtpStatus

abbrev pub error_in_processing_msg : List ℕ
error_in_processing_msg = bytes "Requested action aborted: error in processing"

abbrev pub close_connection_msg : List ℕ
close_connection_msg = bytes "Service closing transmission channel"

-- The reply that `smtp_make_response` returns, with the state that holds it.
unfoldable pub respond_with : SmtpState → ℕ → List ℕ → SmtpStatus → SmtpState × Pair
unfolding smtp_make_response
respond_with smtp code msg status =
    let next = smtp_make_response smtp code msg in
    (next, record { buffer = next.buffer.text; status = status })

-- The user, the disk and the pair behind a call; a fault has none.
abbrev pub Handling : Type 0 → Type 0
Handling D = Option (UserContext × D × Pair)

abbrev with_smtp : {D : Type 0} → UserContext → D → SmtpState × Pair → Handling D
with_smtp user disk (smtp, pair) = some (record user { smtp = smtp }, disk, pair)

-- The reply to the end of a mail.
unfoldable pub mail_sent : {D : Type 0} → UserContext → Ending D (Bool × SmtpState) → Handling D
unfolding respond_with
mail_sent user fault = none
mail_sent user (failed _ _ d) = none
mail_sent user (done (status, smtp) d) =
    if status
    then with_smtp user d (respond_with smtp 250 ok_msg data_end)
    else with_smtp user d (respond_with smtp 451 error_in_processing_msg data_end)

module _ {D : Type 0} (fs : FileSystem D) (config : Configuration) where
  -- The end of a mail; `send_mail` has no errors of its own.
  unfoldable pub after_mail : UserContext → D → SmtpState → Handling D
  unfolding send_mail mail_sent
  after_mail user disk smtp =
      mail_sent user (send_mail fs config.md config.self_server_name smtp disk)

  -- What follows `smtp_parse`, by its status.
  unfoldable pub by_status : UserContext → D → SmtpState → SmtpStatus → Handling D
  unfolding after_mail respond_with concat_new
  by_status user disk smtp ok =
      with_smtp user disk (smtp, record { buffer = smtp.buffer.text; status = ok })
  by_status user disk smtp warning =
      with_smtp user disk (smtp, record { buffer = smtp.buffer.text; status = warning })
  by_status user disk smtp continue =
      with_smtp user disk (smtp, record { buffer = none; status = continue })
  by_status user disk smtp data_end = after_mail user disk smtp
  by_status user disk smtp exit = with_smtp user disk (
      respond_with smtp 221
        (concat_new config.self_server_name (bytes " " ∷ close_connection_msg ∷ [])) exit)
  by_status user disk smtp SmtpStatus.error =
      with_smtp user disk (respond_with smtp 451 error_in_processing_msg SmtpStatus.error)

  unfoldable pub after_parse : UserContext → D → Option (SmtpState × SmtpStatus) → Handling D
  unfolding by_status
  after_parse user disk none = none
  after_parse user disk (some (smtp, status)) = by_status user disk smtp status

  unfoldable pub handler_smtp : Matcher → UserContext → D → List ℕ → Handling D
  unfolding smtp_parse after_parse
  handler_smtp regexec user disk message =
      after_parse user disk (smtp_parse regexec user.smtp message)
