-- ===== src/Client/Removal.antt =====
-- When the handlers of client/src/context/context.c remove the file of a mail.
use postman.Prelude.{
  ℕ, ◌+◌, List, [], ◌∷◌, Bool, true, false, ◌||◌, Option, none, some, get_elem?, ◌==◌,
  if◌then◌else◌, choose, ◌≡◌, refl,
}
use postman.Client.Context.{
  MultiplexContext, Round, HandlerResult, faulted, stays, removed, get_response_to_context,
  with_status, with_message, not_success, drop_message, by_reply, quit, answering, greeted,
  send_sender, send_first_recipient, next_rcpt, send_string, first_string, next_string,
  is_rcpt_success, kept_or_fault, mail_taken,
}
use postman.Client.Handlers.{
  connect_handler, helo_handler, mail_handler, rcpt_handler, data_handler, message_handler,
  end_message_handler, handle_state,
}
use postman.Client.Letter.{Message}
use postman.Client.Mailbox.{MailFiles, remove_message_server}
use postman.Client.Smtp.{
  StateCode, smtp_connect, smtp_helo, smtp_ehlo, smtp_mail, smtp_rcpt, smtp_data, smtp_message,
  smtp_end_message, smtp_rset, smtp_quit, smtp_invalid, SmtpContext, Answered, fault, exits,
  answered, smtp_send_message, undefined_error, not_answer, is_smtp_success, is_smtp_4xx_error,
  is_smtp_5xx_error,
}

-- The status of what was answered.
abbrev pub status_of : Answered → ℕ
status_of (answered response smtp) = response.status_code
status_of _ = undefined_error

-- The disk behind a handler.
abbrev pub IsDisk : {D : Type 0} → D → HandlerResult D → Type 0
IsDisk d (stays c d') = d' ≡ d
IsDisk d (removed c d') = d' ≡ d
IsDisk d _ = Unit {0}

module _ {D : Type 0} (files : MailFiles D) (d : D) where
  with_message-IsDisk :
      (c : MultiplexContext) (go : Message → HandlerResult D)
      → ((mes : Message) → IsDisk d (go mes))
      → IsDisk d (with_message c go)
  unfolding with_message
  with_message-IsDisk c go h = by_message c.select_message
    where
      by_message : (o : Option Message) → IsDisk d (elim o [ none ↦ faulted | some mes ↦ go mes ])
      by_message none = tt
      by_message (some mes) = h mes

  not_success-IsDisk :
      (status : ℕ) (c : MultiplexContext)
      → is_smtp_5xx_error status ≡ false
      → IsDisk d (not_success files status c d)
  unfolding not_success
  not_success-IsDisk status c h =
      choose (IsDisk d) (is_smtp_4xx_error status || status == undefined_error) _ _
        (with_message-IsDisk c (λ _. removed (quit c) d) (λ mes. refl))
        (subst_if (is_smtp_5xx_error status) h)
    where
      subst_if :
          (b : Bool) → b ≡ false → IsDisk d (if b then drop_message files (quit c) d else stays c d)
      subst_if true h = absurd (cc h)
      subst_if false h = refl

  by_reply-IsDisk :
      (is_success : ℕ → Bool) (status : ℕ) (c : MultiplexContext)
      (go : MultiplexContext → HandlerResult D)
      → is_smtp_5xx_error status ≡ false
      → (is_success status ≡ true → (noted : MultiplexContext) → IsDisk d (go noted))
      → IsDisk d (by_reply files is_success status c d go)
  unfolding by_reply
  by_reply-IsDisk is_success status c go h g =
      let noted = record c { status_code = status } in
      choose (IsDisk d) (status == not_answer) (stays c d) _ refl
        (by_success (is_success status) refl)
    where
      by_success :
          (b : Bool)
          → is_success status ≡ b
          → IsDisk d (
              if b
              then go (record c { status_code = status })
              else not_success files status (record c { status_code = status }) d)
      by_success true e = g e (record c { status_code = status })
      by_success false e = not_success-IsDisk status (record c { status_code = status }) h

  with_status-IsDisk :
      (a : Answered) (c : MultiplexContext) (go : ℕ → MultiplexContext → HandlerResult D)
      → ((read : MultiplexContext) → IsDisk d (go (status_of a) read))
      → IsDisk d (with_status a c go)
  unfolding with_status
  with_status-IsDisk fault c go h = tt
  with_status-IsDisk exits c go h = tt
  with_status-IsDisk (answered r smtp) c go h = h (record c { smtp_context = smtp })

  answering-IsDisk :
      (is_success : ℕ → Bool) (round : Round) (c : MultiplexContext)
      (go : MultiplexContext → HandlerResult D)
      → is_smtp_5xx_error (status_of (get_response_to_context round c)) ≡ false
      → (is_success (status_of (get_response_to_context round c)) ≡ true
          → (noted : MultiplexContext) → IsDisk d (go noted))
      → IsDisk d (answering files is_success round c d go)
  unfolding answering
  answering-IsDisk is_success round c go h g =
      let a = get_response_to_context round c in
      with_status-IsDisk a c (λ status read. by_reply files is_success status read d go)
        (λ read. by_reply-IsDisk is_success (status_of a) read go h g)

  -- What is sent leaves the disk.
  if_ready-IsDisk :
      (round : Round) (noted : MultiplexContext) (go : Message → HandlerResult D)
      → ((mes : Message) → IsDisk d (go mes))
      → IsDisk d (if round.is_ready_for_write then with_message noted go else stays noted d)
  if_ready-IsDisk round noted go h =
      choose (IsDisk d) round.is_ready_for_write (with_message noted go) (stays noted d)
        (with_message-IsDisk noted go h) refl

  first_recipient-IsDisk :
      (noted : MultiplexContext) (to : List (List ℕ)) → IsDisk d (send_first_recipient noted d to)
  first_recipient-IsDisk noted [] = tt
  first_recipient-IsDisk noted (x ∷ xs) = refl

  send_string-IsDisk : (noted : MultiplexContext) (x : List ℕ) → IsDisk d (send_string noted d x)
  unfolding send_string
  send_string-IsDisk noted x = by_sent (smtp_send_message noted.smtp_context x)
    where
      by_sent :
          (o : Option SmtpContext)
          → IsDisk d (kept_or_fault (record noted { iteration = noted.iteration + 1 }) d o)
      by_sent none = tt
      by_sent (some smtp) = refl

  first_string-IsDisk :
      (noted : MultiplexContext) (o : Option (List ℕ)) → IsDisk d (first_string noted d o)
  first_string-IsDisk noted none = tt
  first_string-IsDisk noted (some x) = send_string-IsDisk noted x

  next_string-IsDisk :
      (noted : MultiplexContext) (o : Option (List ℕ)) → IsDisk d (next_string noted d o)
  next_string-IsDisk noted none = refl
  next_string-IsDisk noted (some x) = send_string-IsDisk noted x

  connect_handler-IsDisk :
      (round : Round) (c : MultiplexContext)
      → is_smtp_5xx_error (status_of (get_response_to_context round c)) ≡ false
      → IsDisk d (connect_handler files round c d)
  unfolding connect_handler
  connect_handler-IsDisk round c h =
      let a = get_response_to_context round c in
      with_status-IsDisk a c _ (λ read.
        choose (IsDisk d) (status_of a == c.status_code) (stays read d)
          (by_reply files is_smtp_success (status_of a) read d (greeted round d)) refl
          (by_reply-IsDisk is_smtp_success (status_of a) read (greeted round d) h
            (λ e noted. refl)))

-- The file of a mail is removed only when the server's reply is permanent: where the status of
-- this round is no 5xx, and no success in the state that follows the end of the text, every
-- state's handler leaves the disk as it is, whether the connection stays or is removed.
pub handle_state-keeps_mail :
    {D : Type 0} (files : MailFiles D) (s : StateCode) (round : Round) (c : MultiplexContext)
    (d : D)
    → is_smtp_5xx_error (status_of (get_response_to_context round c)) ≡ false
    → (s ≡ smtp_end_message → is_smtp_success (status_of (get_response_to_context round c)) ≡ false)
    → IsDisk d (handle_state files s round c d)
unfolding handle_state helo_handler mail_handler rcpt_handler data_handler message_handler
    end_message_handler
handle_state-keeps_mail files smtp_connect round c d h g = connect_handler-IsDisk files d round c h
handle_state-keeps_mail files smtp_helo round c d h g =
    answering-IsDisk files d is_smtp_success round c _ h
      (λ e noted. if_ready-IsDisk files d round noted (send_sender noted d) (λ mes. refl))
handle_state-keeps_mail files smtp_mail round c d h g =
    answering-IsDisk files d is_smtp_success round c _ h (λ e noted.
      if_ready-IsDisk files d round noted _ (λ mes. first_recipient-IsDisk files d noted mes.to))
handle_state-keeps_mail files smtp_rcpt round c d h g =
    answering-IsDisk files d is_rcpt_success round c _ h (λ e noted.
      if_ready-IsDisk files d round noted (λ mes. stays (next_rcpt noted mes) d) (λ mes. refl))
handle_state-keeps_mail files smtp_data round c d h g =
    answering-IsDisk files d is_smtp_success round c _ h (λ e noted.
      if_ready-IsDisk files d round noted _
        (λ mes. first_string-IsDisk files d noted (get_elem? mes.strings noted.iteration)))
handle_state-keeps_mail files smtp_message round c d h g =
    answering-IsDisk files d is_smtp_success round c _ h (λ e noted.
      with_message-IsDisk files d noted _
        (λ mes. next_string-IsDisk files d noted (get_elem? mes.strings noted.iteration)))
handle_state-keeps_mail files smtp_end_message round c d h g =
    answering-IsDisk files d is_smtp_success round c
      (λ noted.
        if round.is_ready_for_write
        then with_message noted
            (λ mes. mail_taken noted (remove_message_server files noted.server mes d))
        else stays noted d)
      h (λ e. absurd (cc (e, g refl)))
handle_state-keeps_mail files smtp_rset round c d h g = refl
handle_state-keeps_mail files smtp_quit round c d h g = refl
handle_state-keeps_mail files smtp_ehlo round c d h g = refl
handle_state-keeps_mail files smtp_invalid round c d h g = refl
