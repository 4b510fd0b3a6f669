-- ===== src/Client/Commands.antt =====
-- The handlers of client/src/context/context.c that send the commands of a mail.
use postman.Prelude.{
  ℕ, ◌+◌, List, [], ◌∷◌, ◌++◌, take, get_elem?, append-nil, append_assoc, Option, none, some,
  if◌then◌else◌, ◌≡◌, inl, refl, sym, ap, ◌∙◌,
}
use native.Mathlib.Numerals.{add-one}
use postman.Client.Context.{
  MultiplexContext, Round, stays, with_message, awaiting, is_rcpt_success, next_rcpt, send_sender,
  send_first_recipient,
}
use postman.Client.Handlers.{helo_handler, mail_handler, rcpt_handler}
use postman.Client.Letter.{Message}
use postman.Client.Mail.{
  mail_line, rcpt_line, rcpt_lines, data_line, IsSending, rcpt_lines-take_next, take-end,
}
use postman.Client.Mailbox.{MailFiles}
use postman.Client.Replies.{Keeps}
use postman.Client.Sends.{
  answering-Goes, request-IsSending, sent_in, is_valid_state, if_ready-Goes, Goes,
}
use postman.Client.Smtp.{
  smtp_helo, smtp_mail, smtp_rcpt, smtp_data, not_answer, is_smtp_success, smtp_send_mail,
  smtp_send_rcpt, smtp_send_data,
}

module _ {D : Type 0} (files : MailFiles D) (base : List ℕ) (mes : Message) where
  pub helo_handler-Goes :
      (round : Round) (c : MultiplexContext) (d : D)
      → IsSending base mes c
      → c.smtp_context.state_code ≡ smtp_helo
      → Keeps files (Goes files base mes) (helo_handler files round c d)
  unfolding helo_handler smtp_send_mail
  helo_handler-Goes round c d h p =
      answering-Goes files base mes round c d is_smtp_success
        (λ noted.
          if round.is_ready_for_write
          then with_message noted (send_sender noted d)
          else stays noted d)
        h
        (λ noted n s i. if_ready-Goes files base mes round noted d (send_sender noted d) n (
          inl (
            request-IsSending files base mes smtp_mail noted (mail_line mes) [] not_answer
              (noted.iteration + 1) n.0 n.1 (is_valid_state files base mes _ smtp_helo (s ∙ p) refl)
              (sent_in files base mes noted smtp_helo noted.iteration [] (s ∙ p) refl refl n)
              refl)))

  first_recipient-Goes :
      (noted : MultiplexContext) (d : D) (to : List (List ℕ))
      → mes.to ≡ to
      → IsSending base mes noted
      → noted.smtp_context.state_code ≡ smtp_mail
      → Keeps files (Goes files base mes) (send_first_recipient noted d to)
  unfolding smtp_send_rcpt
  first_recipient-Goes noted d [] e n s = tt
  first_recipient-Goes noted d (x ∷ xs) e n s = inl (
      request-IsSending files base mes smtp_rcpt noted (rcpt_line x) (mail_line mes) not_answer 1
        n.0 n.1 (is_valid_state files base mes _ smtp_mail s refl)
        (sent_in files base mes noted smtp_mail noted.iteration (mail_line mes) s refl refl n)
        (ap (λ to. some (mail_line mes ++ rcpt_lines (take 1 to))) e
          ∙ ap (λ t. some (mail_line mes ++ t)) (append-nil (rcpt_line x))))

  pub mail_handler-Goes :
      (round : Round) (c : MultiplexContext) (d : D)
      → IsSending base mes c
      → c.smtp_context.state_code ≡ smtp_mail
      → Keeps files (Goes files base mes) (mail_handler files round c d)
  unfolding mail_handler
  mail_handler-Goes round c d h p =
      answering-Goes files base mes round c d is_smtp_success
        (λ noted.
          if round.is_ready_for_write
          then with_message noted (λ mes. send_first_recipient noted d mes.to)
          else stays noted d)
        h
        (λ noted n s i.
          if_ready-Goes files base mes round noted d (λ mes. send_first_recipient noted d mes.to) n
            (first_recipient-Goes noted d mes.to refl n (s ∙ p)))

  next_rcpt-Goes :
      (noted : MultiplexContext) (o : Option (List ℕ))
      → get_elem? mes.to noted.iteration ≡ o
      → IsSending base mes noted
      → noted.smtp_context.state_code ≡ smtp_rcpt
      → IsSending base mes (elim o [
        | some to_email ↦ record (awaiting noted (smtp_send_rcpt noted.smtp_context to_email)) {
          iteration = noted.iteration + 1;
        }
        | none ↦ record (awaiting noted (smtp_send_data noted.smtp_context)) { iteration = 0 }
      ])
  unfolding smtp_send_rcpt smtp_send_data
  next_rcpt-Goes noted (some x) e n s =
      let i = noted.iteration in
      request-IsSending files base mes smtp_rcpt noted (rcpt_line x)
        (mail_line mes ++ rcpt_lines (take i mes.to)) not_answer (i + 1) n.0 n.1
        (is_valid_state files base mes _ smtp_rcpt s refl)
        (sent_in files base mes noted smtp_rcpt i _ s refl refl n)
        (ap (λ j. some (mail_line mes ++ rcpt_lines (take j mes.to))) (add-one i)
          ∙ ap (λ t. some (mail_line mes ++ t)) (rcpt_lines-take_next mes.to i x e)
          ∙ ap some (sym (append_assoc (mail_line mes) (rcpt_lines (take i mes.to)) (rcpt_line x))))
  next_rcpt-Goes noted none e n s =
      let i = noted.iteration in
      request-IsSending files base mes smtp_data noted data_line
        (mail_line mes ++ rcpt_lines (take i mes.to)) not_answer 0 n.0 n.1
        (is_valid_state files base mes _ smtp_rcpt s refl)
        (sent_in files base mes noted smtp_rcpt i _ s refl refl n)
        (sym (
          ap (λ to. some (mail_line mes ++ rcpt_lines to ++ data_line)) (take-end mes.to i e)
          ∙ ap some (append_assoc (mail_line mes) (rcpt_lines mes.to) data_line)))

  pub rcpt_handler-Goes :
      (round : Round) (c : MultiplexContext) (d : D)
      → IsSending base mes c
      → c.smtp_context.state_code ≡ smtp_rcpt
      → Keeps files (Goes files base mes) (rcpt_handler files round c d)
  unfolding rcpt_handler next_rcpt
  rcpt_handler-Goes round c d h p =
      answering-Goes files base mes round c d is_rcpt_success
        (λ noted.
          if round.is_ready_for_write
          then with_message noted (λ mes. stays (next_rcpt noted mes) d)
          else stays noted d)
        h
        (λ noted n s i.
          if_ready-Goes files base mes round noted d (λ mes. stays (next_rcpt noted mes) d) n
            (inl (next_rcpt-Goes noted (get_elem? mes.to noted.iteration) refl n (s ∙ p))))
