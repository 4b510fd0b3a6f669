-- ===== src/Smtp/Refused.antt =====
-- Commands whose argument `smtp_parse` of server/src/lib/smtp/state.c refuses with the code 501:
-- the state of the machine is stored all the same.
use postman.Prelude.{ℕ, List, Bool, true, false, Option, some, ◌≡◌, ◌≢◌, refl, sym, ap, ◌∙◌}
use postman.Smtp.Fsm.{AutofsmState, AutofsmEvent, autofsm_step}
use postman.Smtp.Regex.{Matcher}
use postman.Smtp.State.{
  SmtpState, SmtpStatus, warning, ok, SmtpCommandType, SmtpCommand, smtp_make_response,
}
use postman.Smtp.Command.{pr_smtp_command_parse}
use postman.Smtp.Parse.{
  invalid_argument_msg, mail_input_msg, pr_smtp_command_rcpto, pr_smtp_command_mailfrom,
  pr_smtp_command_data, execute, move_to, step_command, handle_command, store_status, read_command,
  by_state, smtp_parse,
}

-- A message in which a command of this type is recognised.
abbrev pub Recognises :
    Matcher → SmtpState → List ℕ → SmtpCommandType → AutofsmEvent → Bool → Type 0
Recognises regexec s message ty ev good =
    (c : SmtpCommand) × (t : SmtpState) × (pr_smtp_command_parse regexec s message ≡ some (c, t))
    × (c.type ≡ ty)
    × (c.event ≡ ev)
    × (c.status ≡ good)
    × (t.fsm_state ≡ s.fsm_state)
    × (t.rcpt_list ≡ s.rcpt_list)
    × (t.mail_from ≡ s.mail_from)
    × (t.mail_data ≡ s.mail_data)

-- What a message left, in the parts that matter for the mail.
abbrev pub Leaves : Option (SmtpState × SmtpStatus) → SmtpStatus → AutofsmState → SmtpState → Type 0
Leaves o st m s =
    (t : SmtpState) × (o ≡ some (t, st))
    × (t.fsm_state ≡ m)
    × (t.rcpt_list ≡ s.rcpt_list)
    × (t.mail_from ≡ s.mail_from)
    × (t.mail_data ≡ s.mail_data)

-- The handling of a command that stands in the state `m` and leads to the state `next`.
handle_known :
    (ty : SmtpCommandType) (s : SmtpState) (c : SmtpCommand)
    → ty ≢ SmtpCommandType.invalid_command
    → handle_command ty s c ≡ step_command (autofsm_step s.fsm_state c.event) s c
unfolding handle_command
handle_known SmtpCommandType.invalid_command s c k = absurd (k refl)
handle_known _ s c k = refl

step_valid :
    (next : AutofsmState) (s : SmtpState) (c : SmtpCommand)
    → next ≢ AutofsmState.invalid
    → step_command next s c ≡ move_to next (execute c.type s c)
unfolding step_command
step_valid AutofsmState.invalid s c k = absurd (k refl)
step_valid _ s c k = refl

by_command :
    (regexec : Matcher) (m : AutofsmState) (s : SmtpState) (message : List ℕ)
    → m ≢ AutofsmState.read_data
    → by_state regexec m s message ≡ read_command regexec s message
unfolding by_state
by_command regexec AutofsmState.read_data s message k = absurd (k refl)
by_command regexec _ s message k = refl

handle_lem :
    (ty : SmtpCommandType) (m next : AutofsmState) (s : SmtpState) (c : SmtpCommand)
    → s.fsm_state ≡ m
    → c.type ≡ ty
    → ty ≢ SmtpCommandType.invalid_command
    → autofsm_step m c.event ≡ next
    → next ≢ AutofsmState.invalid
    → handle_command c.type s c ≡ move_to next (execute ty s c)
handle_lem ty m next s c f t k e v =
    handle_known c.type s c (λ p. k (sym t ∙ p))
    ∙ (ap (λ n. step_command n s c) (ap (λ n. autofsm_step n c.event) f ∙ e)
        ∙ (step_valid next s c v ∙ ap (λ y. move_to next (execute y s c)) t))

parse_command :
    (regexec : Matcher) (m : AutofsmState) (s t : SmtpState) (message : List ℕ) (c : SmtpCommand)
    → s.fsm_state ≡ m
    → m ≢ AutofsmState.read_data
    → pr_smtp_command_parse regexec s message ≡ some (c, t)
    → smtp_parse regexec s message ≡ store_status (handle_command c.type t c)
unfolding smtp_parse read_command
parse_command regexec m s t message c f k e =
    ap store_status
      (by_command regexec s.fsm_state s message (λ p. k (sym f ∙ p)) ∙ rw (e, read_command) refl)

module _ (regexec : Matcher) (s : SmtpState) (message : List ℕ) where
  -- In the state that expects the first recipient, a RCPT command whose argument is refused takes
  -- the machine on to the state in which DATA is allowed, with no recipient added to the list, the
  -- sender and the text kept.
  pub rcpt-refused :
      s.fsm_state ≡ AutofsmState.begin_transaction
      → Recognises regexec s message SmtpCommandType.rcptto AutofsmEvent.rcpt false
      → Leaves (smtp_parse regexec s message) warning AutofsmState.transaction s
  unfolding execute pr_smtp_command_rcpto move_to store_status autofsm_step smtp_make_response
  rcpt-refused m (c, t, e, ty, ev, bad, n, r, f, d) = (
    record (smtp_make_response t 501 invalid_argument_msg) {
      fsm_state = AutofsmState.transaction;
      status = warning;
    },
    parse_command regexec _ s t message c m (λ p. cc) e
        ∙ (ap store_status (
              handle_lem SmtpCommandType.rcptto AutofsmState.begin_transaction
                AutofsmState.transaction t c (n ∙ m) ty (λ p. cc)
                (ap (autofsm_step AutofsmState.begin_transaction) ev) (λ p. cc))
            ∙ rw (bad, store_status, move_to, execute, pr_smtp_command_rcpto) refl),
    refl,
    r,
    f,
    d,
  )

  -- Behind a greeting, a MAIL command whose argument is refused opens a transaction all the same,
  -- and the sender, the recipients and the text of the mail before are not cleared for it.
  pub mailfrom-refused :
      s.fsm_state ≡ AutofsmState.client_init
      → Recognises regexec s message SmtpCommandType.mailfrom AutofsmEvent.mail false
      → Leaves (smtp_parse regexec s message) warning AutofsmState.begin_transaction s
  unfolding execute pr_smtp_command_mailfrom move_to store_status autofsm_step smtp_make_response
  mailfrom-refused m (c, t, e, ty, ev, bad, n, r, f, d) = (
    record (smtp_make_response t 501 invalid_argument_msg) {
      fsm_state = AutofsmState.begin_transaction;
      status = warning;
    },
    parse_command regexec _ s t message c m (λ p. cc) e
        ∙ (ap store_status (
              handle_lem SmtpCommandType.mailfrom AutofsmState.client_init
                AutofsmState.begin_transaction t c (n ∙ m) ty (λ p. cc)
                (ap (autofsm_step AutofsmState.client_init) ev) (λ p. cc))
            ∙ rw (bad, store_status, move_to, execute, pr_smtp_command_mailfrom) refl),
    refl,
    r,
    f,
    d,
  )

  -- In the state that follows a recipient, a DATA command is accepted whatever the list of
  -- recipients holds, also nothing: the mail text is read next, with sender, recipients and text
  -- kept.
  pub data-accepted :
      s.fsm_state ≡ AutofsmState.transaction
      → Recognises regexec s message SmtpCommandType.data_cmd AutofsmEvent.data_ev true
      → Leaves (smtp_parse regexec s message) ok AutofsmState.read_data s
  unfolding execute pr_smtp_command_data move_to store_status autofsm_step smtp_make_response
  data-accepted m (c, t, e, ty, ev, good, n, r, f, d) = (
    record (smtp_make_response t 354 mail_input_msg) {
      fsm_state = AutofsmState.read_data;
      status = ok;
    },
    parse_command regexec _ s t message c m (λ p. cc) e
        ∙ ap store_status (
            handle_lem SmtpCommandType.data_cmd AutofsmState.transaction AutofsmState.read_data t c
              (n ∙ m) ty (λ p. cc) (ap (autofsm_step AutofsmState.transaction) ev) (λ p. cc)),
    refl,
    r,
    f,
    d,
  )
