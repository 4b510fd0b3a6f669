-- ===== src/Client/Context.antt =====
-- The dialogue with another server: the handlers of client/src/context/context.c. A handler runs as
-- one step on the connection of one server. The message and the reply's text that are freed are left
-- out.
use postman.Prelude.{
  ℕ, ◌+◌, List, [], ◌∷◌, get_elem?, Bool, ◌||◌, Option, none, some, ◌==◌, if◌then◌else◌,
}
use postman.Client.Letter.{Message}
use postman.Client.Mailbox.{MaildirOtherServer, MailFiles, remove_message_server}
use postman.Client.Smtp.{
  smtp_helo, undefined_error, not_answer, smtp_user_mailbox_was_unavailable, is_smtp_success,
  is_smtp_4xx_error, is_smtp_5xx_error, SmtpContext, smtp_send_helo, smtp_send_mail, smtp_send_rcpt,
  smtp_send_data, smtp_send_message, smtp_send_end_message, smtp_send_quit, Answered, fault,
  answered, exits, get_smtp_response,
}

-- struct multiplex_context, with the `status_code` of its `response`. A message that is NULL is none.
pub record MultiplexContext : Type 0 where
  pub smtp_context : SmtpContext
  pub status_code : ℕ
  pub server : MaildirOtherServer
  pub select_message : Option Message
  pub iteration : ℕ

-- What a round finds: the socket's bits in the sets of pselect, the name of the host, and the memory
-- behind `code` in `get_smtp_response`.
pub record Round : Type 0 where
  pub is_ready_for_read : Bool
  pub is_ready_for_write : Bool
  pub hostname : List ℕ
  pub stack : List ℕ

-- How a handler ends: the client stops, or the connection stays, or it was removed and closed.
pub data HandlerResult (D : Type 0) : Type 0 where
  faulted : HandlerResult D
  exited : HandlerResult D
  stays : MultiplexContext → D → HandlerResult D
  removed : MultiplexContext → D → HandlerResult D

-- The status that a handler works on, with what was read: that of a new reply, or the last one.
unfoldable pub get_response_to_context : Round → MultiplexContext → Answered
unfolding get_smtp_response
get_response_to_context round context =
    if round.is_ready_for_read
    then get_smtp_response round.stack context.smtp_context
    else answered (record { status_code = context.status_code; message = none })
        context.smtp_context

abbrev pub quit : MultiplexContext → MultiplexContext
quit context = record context { smtp_context = smtp_send_quit context.smtp_context }

-- A request was made, and its answer is awaited.
abbrev pub awaiting : MultiplexContext → SmtpContext → MultiplexContext
awaiting context smtp = record context { smtp_context = smtp; status_code = not_answer }

abbrev pub is_rcpt_success : ℕ → Bool
is_rcpt_success status = is_smtp_success status || status == smtp_user_mailbox_was_unavailable

-- The next recipient, or DATA behind the last.
unfoldable pub next_rcpt : MultiplexContext → Message → MultiplexContext
unfolding smtp_send_rcpt smtp_send_data
next_rcpt context mes = elim (get_elem? mes.to context.iteration) [
  | some to_email ↦ record (awaiting context (smtp_send_rcpt context.smtp_context to_email)) {
    iteration = context.iteration + 1;
  }
  | none ↦ record (awaiting context (smtp_send_data context.smtp_context)) { iteration = 0 }
]

module _ {D : Type 0} where
  unfoldable pub with_status :
      Answered → MultiplexContext → (ℕ → MultiplexContext → HandlerResult D) → HandlerResult D
  with_status fault context go = faulted
  with_status exits context go = exited
  with_status (answered response smtp) context go =
      go response.status_code (record context { smtp_context = smtp })

  -- The part of the handlers that uses the selected message.
  unfoldable pub with_message : MultiplexContext → (Message → HandlerResult D) → HandlerResult D
  with_message context go = elim context.select_message [ none ↦ faulted | some mes ↦ go mes ]

  abbrev pub kept_or_fault : MultiplexContext → D → Option SmtpContext → HandlerResult D
  kept_or_fault context d none = faulted
  kept_or_fault context d (some smtp) = stays (record context { smtp_context = smtp }) d

  abbrev pub greeted : Round → D → MultiplexContext → HandlerResult D
  greeted round d noted =
      stays
        (if round.is_ready_for_write
          then awaiting noted (smtp_send_helo round.hostname noted.smtp_context)
          else noted)
        d

  abbrev pub send_sender : MultiplexContext → D → Message → HandlerResult D
  send_sender noted d mes =
      stays
        (record (awaiting noted (smtp_send_mail noted.smtp_context mes.from)) {
          iteration = noted.iteration + 1;
        })
        d

  -- Without a recipient the first is read out of range.
  abbrev pub send_first_recipient : MultiplexContext → D → List (List ℕ) → HandlerResult D
  send_first_recipient noted d [] = faulted
  send_first_recipient noted d (to_email ∷ _) =
      stays (record (awaiting noted (smtp_send_rcpt noted.smtp_context to_email)) { iteration = 1 })
        d

  -- The status stays a success, so that the next line does not wait for a reply.
  unfoldable pub send_string : MultiplexContext → D → List ℕ → HandlerResult D
  unfolding smtp_send_message
  send_string context d string =
      kept_or_fault (record context { iteration = context.iteration + 1 }) d
        (smtp_send_message context.smtp_context string)

  -- Of a text without a line the first is read out of range.
  abbrev pub first_string : MultiplexContext → D → Option (List ℕ) → HandlerResult D
  first_string noted d none = faulted
  first_string noted d (some string) = send_string noted d string

  abbrev pub next_string : MultiplexContext → D → Option (List ℕ) → HandlerResult D
  next_string noted d (some string) = send_string noted d string
  next_string noted d none =
      stays (record (awaiting noted (smtp_send_end_message noted.smtp_context)) { iteration = 0 }) d

  -- The mail was taken: its file goes, and the next mail of the server is due.
  unfoldable pub mail_taken : MultiplexContext → MaildirOtherServer × D → HandlerResult D
  unfolding smtp_send_quit
  mail_taken context (server, d) = elim server.message_full_file_names [
    | _ ∷ _ ↦
        stays
          (record context {
            server = server;
            select_message = none;
            smtp_context = record context.smtp_context { state_code = smtp_helo };
          })
          d
    | [] ↦
        removed
          (awaiting (record context { server = server }) (smtp_send_quit context.smtp_context)) d
  ]

module _ {D : Type 0} (files : MailFiles D) where
  -- A message that is NULL is not removed.
  unfoldable pub drop_message : MultiplexContext → D → HandlerResult D
  unfolding remove_message_server
  drop_message context d = elim context.select_message [
    | none ↦ removed context d
    | some mes ↦
        let (server, d') = remove_message_server files context.server mes d in
        removed (record context { server = server }) d'
  ]

  -- The branches for a status that is no success, which the handlers share.
  unfoldable pub not_success : ℕ → MultiplexContext → D → HandlerResult D
  unfolding smtp_send_quit with_message drop_message is_smtp_4xx_error is_smtp_5xx_error
  not_success status context d =
      if is_smtp_4xx_error status || status == undefined_error
      then with_message context (λ _. removed (quit context) d)
      else if is_smtp_5xx_error status
      then drop_message (quit context) d
      else stays context d

  -- A handler without its first lines: what a success leads to is `go`.
  unfoldable pub by_reply :
      (ℕ → Bool) → ℕ → MultiplexContext → D → (MultiplexContext → HandlerResult D) → HandlerResult D
  unfolding not_success
  by_reply is_success status context d go =
      let noted = record context { status_code = status } in
      if status == not_answer
      then stays context d
      else if is_success status
      then go noted
      else not_success status noted d

  -- A handler: what a success leads to is `go`.
  unfoldable pub answering :
      (ℕ → Bool)
      → Round
      → MultiplexContext
      → D
      → (MultiplexContext → HandlerResult D)
      → HandlerResult D
  unfolding get_response_to_context with_status by_reply
  answering is_success round context d go =
      with_status (get_response_to_context round context) context
        (λ status read. by_reply is_success status read d go)
