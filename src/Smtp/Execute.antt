-- ===== src/Smtp/Execute.antt =====
-- What carrying out a command leaves: the functions pr_smtp_command_* and the part of
-- `smtp_parse` that calls them, in server/src/lib/smtp/state.c.
use postman.Prelude.{
  ℕ, List, length, Bool, true, Bool-cases, Option, none, some, ◌<◌, ◌≡◌, ◌≢◌, refl, sym, ap, ◌∙◌,
  inl, inr, arith,
}
use mathlib.Core.Path.{subst, subst₂}
use postman.Vector.{Vector}
use postman.Vector
use postman.Vector.Growth.{IsValid, clear-IsValid, push_back-Appended}
use postman.Smtp.Fsm.{AutofsmState, autofsm_step}
use postman.Smtp.Order.{advance, valid_or}
use postman.Smtp.State.{
  SmtpMailbox, SmtpState, ok, warning, exit, SmtpCommandType, SmtpCommand, mailbox,
  smtp_make_response, pr_smtp_buffers_free, pr_smtp_rcpt_list_free,
}
use postman.Smtp.Recognise.{IsFormed, IsMailbox, ArgFits, event_of}
use postman.Smtp.Parse.{
  Outcome, as_mailbox, push_rcpt, ok_msg, invalid_argument_msg, hello_argument_msg, mail_input_msg,
  syntax_error_msg, not_implemented_msg, invalid_sequence_msg, pr_smtp_command_hello,
  pr_smtp_command_mailfrom, pr_smtp_command_rcpto, pr_smtp_command_data, pr_smtp_command_rset,
  execute, move_to, step_command, handle_command,
}
use postman.Smtp.Replies.{IsWell, Replies, Done, response_text, response-IsWell, responds}

-- The machine's state is stored when the command is done.
moved : (m next : AutofsmState) (o : Outcome) → Done m o → Done next (move_to next o)
unfolding move_to
moved m next o (t, st, e, h, _, r) =
    rw (e, move_to)
      (
        record t { fsm_state = next },
        st,
        refl,
        record {
          buffer_sound = h.buffer_sound;
          rcpt_valid = h.rcpt_valid;
          data_valid = h.data_valid;
        },
        refl,
        r,
      )

hello-Done :
    (s : SmtpState) (c : SmtpCommand)
    → IsWell s
    → Done s.fsm_state (some (pr_smtp_command_hello s c))
unfolding pr_smtp_command_hello
hello-Done s c h = elim (Bool-cases c.status) [
  | inl e ↦
      let w = response-IsWell s 250 ok_msg h in
      rw (e, pr_smtp_command_hello)
        (
          _,
          ok,
          refl,
          record {
            buffer_sound = w.buffer_sound;
            rcpt_valid = w.rcpt_valid;
            data_valid = w.data_valid;
          },
          refl,
          inl (response_text s 250 ok_msg h.buffer_sound),
        )
  | inr e ↦
      rw (e, pr_smtp_command_hello)
        (responds s 501 hello_argument_msg warning h (λ t p. inr (inr (inl p))))
]

emptied-IsValid :
    (v : Vector SmtpMailbox) → IsValid v → IsValid (Vector.clear (pr_smtp_rcpt_list_free v))
unfolding pr_smtp_rcpt_list_free Vector.clear
emptied-IsValid v h = record { room = omega arith; grows = omega arith }

null_fits : (t : List ℕ) → ◌≡◌ {A = Option (List ℕ)} none (some t) → length t < 0
null_fits t p = cc

mailfrom-Done :
    (s : SmtpState) (c : SmtpCommand)
    → IsWell s
    → Done s.fsm_state (some (pr_smtp_command_mailfrom s c))
unfolding pr_smtp_command_mailfrom
mailfrom-Done s c h = elim (Bool-cases c.status) [
  | inl e ↦
      rw (e, pr_smtp_command_mailfrom)
        (responds _ 250 ok_msg ok
          (record {
            buffer_sound = h.buffer_sound;
            rcpt_valid = emptied-IsValid s.rcpt_list h.rcpt_valid;
            data_valid = clear-IsValid s.mail_data h.data_valid;
          })
          (λ t p. inl p))
  | inr e ↦
      rw (e, pr_smtp_command_mailfrom)
        (responds s 501 invalid_argument_msg warning h (λ t p. inr (inl p)))
]

push_rcpt-Done :
    (s : SmtpState) (n : SmtpMailbox)
    → IsWell s
    → Replies ok s.buffer.text
    → Done s.fsm_state (push_rcpt s (some n))
unfolding push_rcpt
push_rcpt-Done s n h r =
    let (v, e, _, w) = push_back-Appended s.rcpt_list n h.rcpt_valid in
    rw (e, push_rcpt)
      (
        record s { rcpt_list = v },
        ok,
        refl,
        record { buffer_sound = h.buffer_sound; rcpt_valid = w; data_valid = h.data_valid },
        refl,
        r,
      )

rcpto-Done :
    (s : SmtpState) (c : SmtpCommand)
    → IsWell s
    → (c.status ≡ true → (n : SmtpMailbox) × (c.arg ≡ mailbox n))
    → Done s.fsm_state (pr_smtp_command_rcpto s c)
unfolding pr_smtp_command_rcpto
rcpto-Done s c h arg = elim (Bool-cases c.status) [
  | inl e ↦
      let (n, p) = arg e in
      rw (e, pr_smtp_command_rcpto)
        (rw (p, as_mailbox)
          (push_rcpt-Done (smtp_make_response s 250 ok_msg) n (response-IsWell s 250 ok_msg h)
            (inl (response_text s 250 ok_msg h.buffer_sound))))
  | inr e ↦
      rw (e, pr_smtp_command_rcpto)
        (responds s 501 invalid_argument_msg warning h (λ t p. inr (inl p)))
]

rset-Done :
    (s : SmtpState) (c : SmtpCommand)
    → IsWell s
    → Done s.fsm_state (some (pr_smtp_command_rset s c))
unfolding pr_smtp_command_rset pr_smtp_buffers_free
rset-Done s c h =
    responds _ 250 ok_msg ok
      (record {
        buffer_sound = record { null_empty = λ _. refl; fits = null_fits };
        rcpt_valid = emptied-IsValid s.rcpt_list h.rcpt_valid;
        data_valid = clear-IsValid s.mail_data h.data_valid;
      })
      (λ t p. inl p)

-- The state of the machine is kept while a command is carried out.
execute-Done :
    (ty : SmtpCommandType) (s : SmtpState) (c : SmtpCommand)
    → ty ≡ c.type
    → ty ≢ SmtpCommandType.invalid_command
    → IsFormed c
    → IsWell s
    → Done s.fsm_state (execute ty s c)
unfolding execute pr_smtp_command_data
execute-Done SmtpCommandType.hello s c e k f h = hello-Done s c h
execute-Done SmtpCommandType.mailfrom s c e k f h = mailfrom-Done s c h
execute-Done SmtpCommandType.rcptto s c e k f h =
    rcpto-Done s c h (λ p. one_mailbox (subst₂ ArgMailbox (sym e) p f.arg))
  where
    ArgMailbox : SmtpCommandType → Bool → Type 0
    ArgMailbox ty b = ArgFits ty b c.arg

    one_mailbox : IsMailbox c.arg → (m : SmtpMailbox) × (c.arg ≡ mailbox m)
    one_mailbox (user, server, q) = (record { user_name = some user; server_name = some server }, q)
execute-Done SmtpCommandType.data_cmd s c e k f h =
    responds s 354 mail_input_msg ok h (λ t p. inr p)
execute-Done SmtpCommandType.rset s c e k f h = rset-Done s c h
execute-Done SmtpCommandType.quit s c e k f h = (s, exit, refl, h, refl, tt)
execute-Done SmtpCommandType.noop s c e k f h = responds s 250 ok_msg ok h (λ t p. inl p)
execute-Done SmtpCommandType.invalid_command s c e k f h = absurd (k refl)
execute-Done _ s c e k f h =
    responds s 502 not_implemented_msg warning h (λ t p. inr (inr (inr (inl p))))

-- `valid_or` of the machine's driver.
step-Done :
    (next : AutofsmState) (s : SmtpState) (c : SmtpCommand)
    → c.type ≢ SmtpCommandType.invalid_command
    → IsFormed c
    → IsWell s
    → Done (valid_or s.fsm_state next) (step_command next s c)
unfolding step_command
step-Done AutofsmState.invalid s c k f h =
    responds s 503 invalid_sequence_msg warning h (λ t p. inr (inr (inr (inr p))))
step-Done next s c k f h = moved s.fsm_state next _ (execute-Done c.type s c refl k f h)

advance_known :
    (m : AutofsmState) (ty : SmtpCommandType)
    → ty ≢ SmtpCommandType.invalid_command
    → valid_or m (autofsm_step m (event_of ty)) ≡ advance m (event_of ty)
unfolding advance event_of
advance_known m SmtpCommandType.invalid_command k = absurd (k refl)
advance_known m _ k = refl

known-Done :
    (s : SmtpState) (c : SmtpCommand)
    → c.type ≢ SmtpCommandType.invalid_command
    → IsFormed c
    → IsWell s
    → Done (advance s.fsm_state c.event) (step_command (autofsm_step s.fsm_state c.event) s c)
known-Done s c k f h =
    subst (λ m. Done m (step_command (autofsm_step s.fsm_state c.event) s c))
      (subst (λ ev. valid_or s.fsm_state (autofsm_step s.fsm_state ev) ≡ advance s.fsm_state ev)
        (sym f.event) (advance_known s.fsm_state c.type k))
      (step-Done (autofsm_step s.fsm_state c.event) s c k f h)

advance_unknown :
    (m : AutofsmState) (ty : SmtpCommandType)
    → SmtpCommandType.invalid_command ≡ ty
    → m ≡ advance m (event_of ty)
unfolding advance event_of
advance_unknown m SmtpCommandType.invalid_command e = refl
advance_unknown m _ e = cc

pub handle-Done :
    (ty : SmtpCommandType) (s : SmtpState) (c : SmtpCommand)
    → ty ≡ c.type
    → IsFormed c
    → IsWell s
    → Done (advance s.fsm_state c.event) (handle_command ty s c)
unfolding handle_command
handle-Done SmtpCommandType.invalid_command s c e f h =
    subst (λ m. Done m (handle_command SmtpCommandType.invalid_command s c))
      (advance_unknown s.fsm_state c.type e ∙ ap (advance s.fsm_state) (sym f.event))
      (responds s 500 syntax_error_msg warning h (λ t p. inl p))
handle-Done _ s c e f h = known-Done s c (λ p. cc) f h
