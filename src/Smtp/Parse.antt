-- ===== src/Smtp/Parse.antt =====
-- The handling of a message in server/src/lib/smtp/state.c: `smtp_parse` and the functions that
-- carry out each command. `none` is a fault. Memory is always there.
use postman.Prelude.{ℕ, List, [], ◌∷◌, Option, none, some, bytes_eq, if◌then◌else◌}
use postman.Vector
use postman.Smtp.Fsm.{AutofsmState, AutofsmEvent, autofsm_step}
use postman.Smtp.Regex.{Matcher}
use postman.Smtp.State.{
  SmtpMailbox, SmtpAddress, SmtpState, SmtpStatus, ok, warning, continue, data_end, exit,
  SmtpCommandType, SmtpCommand, CommandArg, address, mailbox, bytes, smtp_make_response,
  pr_smtp_buffers_free, pr_smtp_rcpt_list_free,
}
use postman.Smtp.Command.{pr_smtp_command_parse}

-- `command->arg` as a pointer to an address, or to a mailbox.
unfoldable pub as_address : CommandArg → Option SmtpAddress
as_address (address a) = some a
as_address _ = none

unfoldable pub as_mailbox : CommandArg → Option SmtpMailbox
as_mailbox (mailbox m) = some m
as_mailbox _ = none

abbrev pub Outcome : Type 0
Outcome = Option (SmtpState × SmtpStatus)

abbrev respond : SmtpState → ℕ → List ℕ → SmtpStatus → SmtpState × SmtpStatus
respond s n msg st = (smtp_make_response s n msg, st)

abbrev pub ok_msg : List ℕ
ok_msg = bytes "Requested mail action okay, completed"

abbrev pub invalid_argument_msg : List ℕ
invalid_argument_msg = bytes "Invalid argument: "

abbrev pub hello_argument_msg : List ℕ
hello_argument_msg = bytes "Invalid argument:  Expected format <domain> or '['<ip>']'"

abbrev pub mail_input_msg : List ℕ
mail_input_msg = bytes "Start mail input; end with <CRLF>.<CRLF>"

abbrev pub syntax_error_msg : List ℕ
syntax_error_msg = bytes "Syntax error, command unrecognized"

abbrev pub not_implemented_msg : List ℕ
not_implemented_msg = bytes "Command not implemented"

abbrev pub invalid_sequence_msg : List ℕ
invalid_sequence_msg = bytes "Bad sequence of commands"

unfoldable pub pr_smtp_command_hello : SmtpState → SmtpCommand → SmtpState × SmtpStatus
unfolding as_address smtp_make_response
pr_smtp_command_hello s c =
    if c.status
    then (record (smtp_make_response s 250 ok_msg) { hello_addr = as_address c.arg }, ok)
    else respond s 501 hello_argument_msg warning

-- A new sender starts a new transaction: the recipients and the text of the last one go.
unfoldable pub pr_smtp_command_mailfrom : SmtpState → SmtpCommand → SmtpState × SmtpStatus
unfolding as_mailbox pr_smtp_rcpt_list_free smtp_make_response Vector.clear
pr_smtp_command_mailfrom s c =
    if c.status
    then respond
        (record s {
          rcpt_list = Vector.clear (pr_smtp_rcpt_list_free s.rcpt_list);
          mail_data = Vector.clear s.mail_data;
          mail_from = as_mailbox c.arg;
        })
        250 ok_msg ok
    else respond s 501 invalid_argument_msg warning

-- The recipient behind the pointer is copied to the end of the list.
unfoldable pub push_rcpt : SmtpState → Option SmtpMailbox → Outcome
unfolding Vector.push_back
push_rcpt s none = none
push_rcpt s (some m) = elim (Vector.push_back s.rcpt_list m) [
  | none ↦ none
  | some v ↦ some (record s { rcpt_list = v }, ok)
]

unfoldable pub pr_smtp_command_rcpto : SmtpState → SmtpCommand → Outcome
unfolding as_mailbox push_rcpt smtp_make_response
pr_smtp_command_rcpto s c =
    if c.status
    then push_rcpt (smtp_make_response s 250 ok_msg) (as_mailbox c.arg)
    else some (respond s 501 invalid_argument_msg warning)

unfoldable pub pr_smtp_command_data : SmtpState → SmtpCommand → SmtpState × SmtpStatus
unfolding smtp_make_response
pr_smtp_command_data s c = respond s 354 mail_input_msg ok

unfoldable pub pr_smtp_command_rset : SmtpState → SmtpCommand → SmtpState × SmtpStatus
unfolding pr_smtp_buffers_free smtp_make_response Vector.clear
pr_smtp_command_rset s c =
    let t = pr_smtp_buffers_free s in
    respond
      (record t { rcpt_list = Vector.clear t.rcpt_list; mail_data = Vector.clear t.mail_data }) 250
      ok_msg ok

-- The commands in a valid sequence, by their type. VRFY, EXPN and HELP have the event TEST.
unfoldable pub execute : SmtpCommandType → SmtpState → SmtpCommand → Outcome
unfolding pr_smtp_command_hello pr_smtp_command_mailfrom pr_smtp_command_rcpto pr_smtp_command_data
    pr_smtp_command_rset smtp_make_response
execute SmtpCommandType.hello s c = some (pr_smtp_command_hello s c)
execute SmtpCommandType.mailfrom s c = some (pr_smtp_command_mailfrom s c)
execute SmtpCommandType.rcptto s c = pr_smtp_command_rcpto s c
execute SmtpCommandType.data_cmd s c = some (pr_smtp_command_data s c)
execute SmtpCommandType.rset s c = some (pr_smtp_command_rset s c)
execute SmtpCommandType.quit s c = some (s, exit)
execute SmtpCommandType.noop s c = some (respond s 250 ok_msg ok)
execute SmtpCommandType.invalid_command s c = some (s, SmtpStatus.error)
execute _ s c = some (respond s 502 not_implemented_msg warning)

-- The new state of the machine is stored only if it is valid, and after the command.
unfoldable pub move_to : AutofsmState → Outcome → Outcome
move_to next none = none
move_to next (some (s, st)) = some (record s { fsm_state = next }, st)

unfoldable pub step_command : AutofsmState → SmtpState → SmtpCommand → Outcome
unfolding execute move_to smtp_make_response
step_command AutofsmState.invalid s c = some (respond s 503 invalid_sequence_msg warning)
step_command next s c = move_to next (execute c.type s c)

-- An unknown command leaves the machine alone.
unfoldable pub handle_command : SmtpCommandType → SmtpState → SmtpCommand → Outcome
unfolding step_command autofsm_step smtp_make_response
handle_command SmtpCommandType.invalid_command s c = some (respond s 500 syntax_error_msg warning)
handle_command _ s c = step_command (autofsm_step s.fsm_state c.event) s c

abbrev pub data_end_line : List ℕ
data_end_line = b'.' ∷ 0x0d ∷ 0x0a ∷ []

-- A line of the mail, or its end.
unfoldable pub read_line : SmtpState → List ℕ → Outcome
unfolding autofsm_step smtp_make_response Vector.push_all
read_line s message =
    if bytes_eq data_end_line message
    then some (
        respond (record s { fsm_state = autofsm_step s.fsm_state AutofsmEvent.end }) 250 ok_msg
          data_end)
    else elim (Vector.push_all s.mail_data message) [
      | none ↦ none
      | some v ↦ some (record s { mail_data = v }, continue)
    ]

-- The status is kept in the state; the reply is the state's buffer.
unfoldable pub store_status : Outcome → Outcome
store_status none = none
store_status (some (s, st)) = some (record s { status = st }, st)

module _ (regexec : Matcher) where
  unfoldable pub read_command : SmtpState → List ℕ → Outcome
  unfolding pr_smtp_command_parse handle_command
  read_command s message = elim (pr_smtp_command_parse regexec s message) [
    | none ↦ none
    | some (c, t) ↦ handle_command c.type t c
  ]

  unfoldable pub by_state : AutofsmState → SmtpState → List ℕ → Outcome
  unfolding read_command read_line
  by_state AutofsmState.read_data s message = read_line s message
  by_state _ s message = read_command s message

  -- `smtp_parse` of a state that is not NULL.
  unfoldable pub smtp_parse : SmtpState → List ℕ → Outcome
  unfolding by_state store_status
  smtp_parse s message = store_status (by_state s.fsm_state s message)
