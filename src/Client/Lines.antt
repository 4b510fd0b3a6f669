-- ===== src/Client/Lines.antt =====
-- The handlers of client/src/context/context.c that send the text of a mail.
use mathlib.Core.Path.{subst}
use postman.Prelude.{
  ℕ, zero, suc, ◌+◌, List, [], ◌∷◌, ◌++◌, concat, take, get_elem?, append_assoc, false, Option,
  none, some, if◌then◌else◌, choose, ◌≡◌, inl, inr, refl, sym, ap, ◌∙◌,
}
use native.Mathlib.Numerals.{add-one}
use postman.Client.Context.{
  MultiplexContext, Round, stays, with_message, kept_or_fault, send_string, mail_taken,
  first_string, next_string,
}
use postman.Client.Handlers.{data_handler, message_handler, end_message_handler}
use postman.Client.Letter.{Message}
use postman.Client.Mail.{
  end_line, commands, whole_mail, sent_of, IsBehind, IsSending, concat-take_next, take-end,
}
use postman.Client.Mailbox.{MaildirOtherServer, MailFiles, remove_message_server}
use postman.Client.Replies.{Keeps}
use postman.Client.Sends.{
  answering-Goes, known_message, request-IsSending, sent_in, is_valid_state, if_ready-Goes, Goes,
}
use postman.Client.Smtp.{
  smtp_data, smtp_message, smtp_end_message, is_invalid, not_answer, request, is_smtp_success,
  SmtpContext, smtp_send_message, smtp_send_end_message, without_end,
}

-- What is kept for the log changes nothing of a line that was sent.
sent_message :
    (P : Option SmtpContext → Type 0) (context : SmtpContext) (message : List ℕ)
    → P none
    → P (some (request smtp_message context message))
    → P (smtp_send_message context message)
unfolding smtp_send_message
sent_message P context message n h =
    let sent = request smtp_message context message in
    choose P (is_invalid sent.state_code) (some sent) _ h (logged (without_end message))
  where
    logged_body :
        (o : Option (List ℕ))
        → P (elim o [ none ↦ none | some _ ↦ some (request smtp_message context message) ])
    logged_body none = n
    logged_body (some body) = h

    logged :
        (o : Option (List ℕ))
        → P (elim o [
          | none ↦ none
          | some body ↦ elim (without_end body) [
            | none ↦ none
            | some _ ↦ some (request smtp_message context message)
          ]
        ])
    logged none = n
    logged (some body) = logged_body (without_end body)

module _ {D : Type 0} (files : MailFiles D) (base : List ℕ) (mes : Message) where
  -- A line of the text, behind the text before it.
  send_string-Goes :
      (noted : MultiplexContext) (d : D) (x t : List ℕ)
      → IsSending base mes noted
      → is_invalid noted.smtp_context.state_code ≡ false
      → noted.smtp_context.socket_desc.wire ≡ base ++ t
      → sent_of mes smtp_message (noted.iteration + 1) ≡ some (t ++ x)
      → Keeps files (Goes files base mes) (send_string noted d x)
  unfolding send_string
  send_string-Goes noted d x t n v w e =
      let more = record noted { iteration = noted.iteration + 1 } in
      sent_message (λ o. Keeps files (Goes files base mes) (kept_or_fault more d o))
        noted.smtp_context x tt
        (inl (
          request-IsSending files base mes smtp_message noted x t noted.status_code
            (noted.iteration + 1) n.0 n.1 v w e))

  -- Before the text no line of it was sent.
  before_text :
      (i : ℕ) (wire : List ℕ)
      → IsBehind base wire (sent_of mes smtp_data i)
      → (i ≡ 0) × (wire ≡ base ++ commands mes)
  before_text zero wire h = (refl, h)
  before_text (suc i) wire h = absurd h

  first_string-Goes :
      (noted : MultiplexContext) (d : D) (o : Option (List ℕ))
      → get_elem? mes.strings noted.iteration ≡ o
      → IsSending base mes noted
      → noted.smtp_context.state_code ≡ smtp_data
      → Keeps files (Goes files base mes) (first_string noted d o)
  first_string-Goes noted d none e n s = tt
  first_string-Goes noted d (some x) e n s =
      let (z, w) = before_text noted.iteration noted.smtp_context.socket_desc.wire (
        subst
          (λ q. IsBehind base noted.smtp_context.socket_desc.wire (sent_of mes q noted.iteration)) s
          n.2) in
      send_string-Goes noted d x (commands mes) n (is_valid_state files base mes _ smtp_data s refl)
        w
        (ap (λ j. some (commands mes ++ concat (take (j + 1) mes.strings))) z
          ∙ ap (λ t. some (commands mes ++ t))
              (concat-take_next mes.strings 0 x (ap (get_elem? mes.strings) (sym z) ∙ e)))

  next_string-Goes :
      (noted : MultiplexContext) (d : D) (o : Option (List ℕ))
      → get_elem? mes.strings noted.iteration ≡ o
      → IsSending base mes noted
      → noted.smtp_context.state_code ≡ smtp_message
      → Keeps files (Goes files base mes) (next_string noted d o)
  unfolding smtp_send_end_message
  next_string-Goes noted d none e n s =
      let i = noted.iteration in
      inl (
        request-IsSending files base mes smtp_end_message noted end_line
          (commands mes ++ concat (take i mes.strings)) not_answer 0 n.0 n.1
          (is_valid_state files base mes _ smtp_message s refl)
          (sent_in files base mes noted smtp_message i _ s refl refl n)
          (sym (
            ap (λ xs. some (commands mes ++ concat xs ++ end_line)) (take-end mes.strings i e)
            ∙ ap some (append_assoc (commands mes) (concat mes.strings) end_line))))
  next_string-Goes noted d (some x) e n s =
      let i = noted.iteration in
      send_string-Goes noted d x (commands mes ++ concat (take i mes.strings)) n
        (is_valid_state files base mes _ smtp_message s refl)
        (sent_in files base mes noted smtp_message i _ s refl refl n)
        (ap (λ j. some (commands mes ++ concat (take j mes.strings))) (add-one i)
          ∙ ap (λ t. some (commands mes ++ t)) (concat-take_next mes.strings i x e)
          ∙ ap some (sym (append_assoc (commands mes) (concat (take i mes.strings)) x)))

  pub data_handler-Goes :
      (round : Round) (c : MultiplexContext) (d : D)
      → IsSending base mes c
      → c.smtp_context.state_code ≡ smtp_data
      → Keeps files (Goes files base mes) (data_handler files round c d)
  unfolding data_handler
  data_handler-Goes round c d h p =
      answering-Goes files base mes round c d is_smtp_success
        (λ noted.
          if round.is_ready_for_write
          then with_message noted
              (λ mes. first_string noted d (get_elem? mes.strings noted.iteration))
          else stays noted d)
        h
        (λ noted n s i.
          if_ready-Goes files base mes round noted d
            (λ mes. first_string noted d (get_elem? mes.strings noted.iteration)) n
            (first_string-Goes noted d (get_elem? mes.strings noted.iteration) refl n (s ∙ p)))

  pub message_handler-Goes :
      (round : Round) (c : MultiplexContext) (d : D)
      → IsSending base mes c
      → c.smtp_context.state_code ≡ smtp_message
      → Keeps files (Goes files base mes) (message_handler files round c d)
  unfolding message_handler
  message_handler-Goes round c d h p =
      answering-Goes files base mes round c d is_smtp_success
        (λ noted.
          with_message noted (λ mes. next_string noted d (get_elem? mes.strings noted.iteration)))
        h
        (λ noted n s i.
          known_message files base mes noted
            (λ mes. next_string noted d (get_elem? mes.strings noted.iteration)) n.0
            (next_string-Goes noted d (get_elem? mes.strings noted.iteration) refl n (s ∙ p)))

  mail_taken-Goes :
      (noted : MultiplexContext) (server : MaildirOtherServer) (d : D)
      → IsSending base mes noted
      → noted.smtp_context.state_code ≡ smtp_end_message
      → Keeps files (Goes files base mes) (mail_taken noted (server, d))
  unfolding mail_taken
  mail_taken-Goes noted server d n s =
      subst
        (λ names.
          Keeps files (Goes files base mes)
            (mail_taken noted (record server { message_full_file_names = names }, d)))
        refl (by_names server.message_full_file_names)
    where
      by_names :
          (names : List (List ℕ))
          → Keeps files
              (Goes files base mes)
              (mail_taken noted (record server { message_full_file_names = names }, d))
      by_names [] = tt
      by_names (name ∷ names) = inr (
        refl,
        refl,
        n.1,
        sent_in files base mes noted smtp_end_message noted.iteration (whole_mail mes) s refl refl
            n,
      )

  pub end_message_handler-Goes :
      (round : Round) (c : MultiplexContext) (d : D)
      → IsSending base mes c
      → c.smtp_context.state_code ≡ smtp_end_message
      → Keeps files (Goes files base mes) (end_message_handler files round c d)
  unfolding end_message_handler
  end_message_handler-Goes round c d h p =
      answering-Goes files base mes round c d is_smtp_success
        (λ noted.
          if round.is_ready_for_write
          then with_message noted
              (λ mes. mail_taken noted (remove_message_server files noted.server mes d))
          else stays noted d)
        h
        (λ noted n s i.
          let (server, d') = remove_message_server files noted.server mes d in
          if_ready-Goes files base mes round noted d
            (λ mes. mail_taken noted (remove_message_server files noted.server mes d)) n
            (mail_taken-Goes noted server d' n (s ∙ p)))
