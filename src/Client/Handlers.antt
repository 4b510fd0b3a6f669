-- ===== src/Client/Handlers.antt =====
-- The handlers of client/src/context/context.c, and the body of the loop that calls them.
use postman.Prelude.{get_elem?, none, some, ◌==◌, if◌then◌else◌}
use postman.Client.Context.{
  MultiplexContext, Round, HandlerResult, faulted, stays, removed, get_response_to_context, quit,
  is_rcpt_success, next_rcpt, with_status, with_message, greeted, send_sender, send_first_recipient,
  send_string, first_string, next_string, mail_taken, by_reply, answering,
}
use postman.Client.Files.{Reading, out_of_fuel, null, read}
use postman.Client.Letter.{Message}
use postman.Client.Mailbox.{MailFiles, get_first_message, remove_message_server}
use postman.Client.Smtp.{
  StateCode, smtp_connect, smtp_helo, smtp_ehlo, smtp_mail, smtp_rcpt, smtp_data, smtp_message,
  smtp_end_message, smtp_rset, smtp_quit, smtp_invalid, is_smtp_success, smtp_send_helo,
  smtp_send_mail, smtp_send_rcpt, smtp_send_end_message, smtp_send_quit,
}

module _ {D : Type 0} (files : MailFiles D) where
  unfoldable pub connect_handler : Round → MultiplexContext → D → HandlerResult D
  unfolding get_response_to_context with_status by_reply smtp_send_helo is_smtp_success
  connect_handler round context d =
      with_status (get_response_to_context round context) context (λ status read.
        if status == context.status_code
        then stays read d
        else by_reply files is_smtp_success status read d (greeted round d))

  unfoldable pub helo_handler : Round → MultiplexContext → D → HandlerResult D
  unfolding answering with_message smtp_send_mail is_smtp_success
  helo_handler round context d = answering files is_smtp_success round context d (λ noted.
      if round.is_ready_for_write then with_message noted (send_sender noted d) else stays noted d)

  unfoldable pub mail_handler : Round → MultiplexContext → D → HandlerResult D
  unfolding answering with_message smtp_send_rcpt is_smtp_success
  mail_handler round context d = answering files is_smtp_success round context d (λ noted.
      if round.is_ready_for_write
      then with_message noted (λ mes. send_first_recipient noted d mes.to)
      else stays noted d)

  unfoldable pub rcpt_handler : Round → MultiplexContext → D → HandlerResult D
  unfolding answering with_message next_rcpt is_smtp_success
  rcpt_handler round context d = answering files is_rcpt_success round context d (λ noted.
      if round.is_ready_for_write
      then with_message noted (λ mes. stays (next_rcpt noted mes) d)
      else stays noted d)

  unfoldable pub data_handler : Round → MultiplexContext → D → HandlerResult D
  unfolding answering with_message send_string is_smtp_success
  data_handler round context d = answering files is_smtp_success round context d (λ noted.
      if round.is_ready_for_write
      then with_message noted (λ mes. first_string noted d (get_elem? mes.strings noted.iteration))
      else stays noted d)

  -- The next line, or the end behind the last; that the socket is ready is not awaiting.
  unfoldable pub message_handler : Round → MultiplexContext → D → HandlerResult D
  unfolding answering with_message send_string smtp_send_end_message is_smtp_success
  message_handler round context d = answering files is_smtp_success round context d (λ noted.
      with_message noted (λ mes. next_string noted d (get_elem? mes.strings noted.iteration)))

  unfoldable pub end_message_handler : Round → MultiplexContext → D → HandlerResult D
  unfolding answering with_message mail_taken remove_message_server is_smtp_success
  end_message_handler round context d = answering files is_smtp_success round context d (λ noted.
      if round.is_ready_for_write
      then with_message noted
          (λ mes. mail_taken noted (remove_message_server files noted.server mes d))
      else stays noted d)

  -- The switch of `start_thread`.
  unfoldable pub handle_state : StateCode → Round → MultiplexContext → D → HandlerResult D
  unfolding connect_handler helo_handler mail_handler rcpt_handler data_handler message_handler
      end_message_handler
  handle_state smtp_connect round context d = connect_handler round context d
  handle_state smtp_helo round context d = helo_handler round context d
  handle_state smtp_mail round context d = mail_handler round context d
  handle_state smtp_rcpt round context d = rcpt_handler round context d
  handle_state smtp_data round context d = data_handler round context d
  handle_state smtp_message round context d = message_handler round context d
  handle_state smtp_end_message round context d = end_message_handler round context d
  handle_state smtp_rset round context d = removed context d
  handle_state smtp_quit round context d = removed context d
  handle_state smtp_ehlo round context d = removed context d
  handle_state smtp_invalid round context d = removed context d

  -- A message was selected; NULL closes the connection.
  unfoldable pub selected : Round → MultiplexContext → D → Reading Message → HandlerResult D
  unfolding handle_state smtp_send_quit
  selected round context d out_of_fuel = faulted
  selected round context d Reading.fault = faulted
  selected round context d null = removed (quit context) d
  selected round context d (read mes) =
      handle_state context.smtp_context.state_code round
        (record context { select_message = some mes }) d

  -- The body of the loop over the connections in `start_thread`.
  unfoldable pub serve : Round → MultiplexContext → D → HandlerResult D
  unfolding handle_state selected get_first_message
  serve round context d = elim context.select_message [
    | some _ ↦ handle_state context.smtp_context.state_code round context d
    | none ↦ selected round context d (get_first_message files context.server d)
  ]
