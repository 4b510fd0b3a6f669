-- ===== src/Client/Greeting.antt =====
-- How the greeting of a server is handled by `connect_handler` of client/src/context/context.c.
use postman.Prelude.{ℕ, true, false, ◌==◌, if◌then◌else◌, ◌≡◌, refl, ap, ◌∙◌, arith}
use postman.Client.Context.{
  MultiplexContext, Round, stays, get_response_to_context, with_status, by_reply, greeted,
}
use postman.Client.Handlers.{connect_handler}
use postman.Client.Mailbox.{MailFiles}
use postman.Client.Smtp.{SmtpContext, SmtpResponse, answered, is_smtp_success, not_answer}

same_number : (n : ℕ) → (n == n) ≡ true
same_number n = ground arith

-- A round in which nothing is to read.
unread :
    {D : Type 0} (files : MailFiles D) (round : Round) (c : MultiplexContext) (d : D)
    → round.is_ready_for_read ≡ false
    → connect_handler files round c d ≡ stays c d
unfolding connect_handler get_response_to_context with_status
unread files round c d h = rw (h, same_number c.status_code) refl

-- A greeting that is a success of another status than the last, and is read while the socket is
-- not ready for writing, is stored and nothing is sent; from then on a round without a new reply
-- leaves the connection as it is, also when the socket is ready for writing, so that HELO, for
-- which the server waits, is not sent.
pub connect_handler-stuck :
    {D : Type 0} (files : MailFiles D) (round later : Round) (c : MultiplexContext) (d : D)
    (response : SmtpResponse) (smtp : SmtpContext)
    → get_response_to_context round c ≡ answered response smtp
    → is_smtp_success response.status_code ≡ true
    → (response.status_code == c.status_code) ≡ false
    → (response.status_code == not_answer) ≡ false
    → round.is_ready_for_write ≡ false
    → later.is_ready_for_read ≡ false
    → let noted = record c { smtp_context = smtp; status_code = response.status_code } in
      (connect_handler files round c d ≡ stays noted d)
      × (connect_handler files later noted d ≡ stays noted d)
unfolding connect_handler with_status by_reply
connect_handler-stuck files round later c d response smtp e s n a w r = (
  ap
        (λ a. with_status a c (λ status read.
          if status == c.status_code
          then stays read d
          else by_reply files is_smtp_success status read d (greeted round d)))
        e
      ∙ rw (n, a, s, w) refl,
  unread files later (record c { smtp_context = smtp; status_code = response.status_code }) d r,
)
