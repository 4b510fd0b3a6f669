-- ===== src/Smtp/Tests.antt =====
-- Runs of the model of server/src/lib/smtp on small inputs.
use postman.Prelude.{ℕ, List, [], ◌∷◌, ◌++◌, concat, Option, none, some, ◌≡◌, refl, arith}
use postman.Text.{is_space}
use postman.Smtp.Fsm.{AutofsmState, AutofsmEvent, autofsm_step}
use postman.Smtp.Definition.{init_helo, autofsm_step-iff-Transition}
use postman.Smtp.Order.{IsSubsequence}
use postman.Smtp.State.{
  SmtpState, ok, warning, data_end, SmtpAddressType, bytes, smtp_init, smtp_move_buffer,
}
use postman.Smtp.Command.{command_of, pr_smtp_command_parse}
use postman.Smtp.Parse.{smtp_parse, data_end_line, ok_msg}
use postman.Smtp.Recognise.{Forms, command_of-Forms}
use postman.Smtp.Replies.{IsWell, reply, smtp_init-IsWell}
use postman.Smtp.Invariant.{Handled, smtp_parse-Done, smtp_parse-blank}
use postman.Smtp.Session.{run, heard_all, run-read_data}
use postman.Smtp.Mail.{run-text}
use postman.Smtp.Refused.{Leaves, rcpt-refused, mailfrom-refused}
use postman.Smtp.Sample.{sample, sample-IsMatcher}

abbrev raw : SmtpState
raw = record {
  fsm_state = AutofsmState.init;
  rcpt_list = record { array = []; allocated = 0 };
  mail_from = none;
  hello_addr = none;
  mail_data = record { array = []; allocated = 0 };
  buffer = record { text = none; size = 0 };
  status = ok;
}

abbrev line : List ℕ → List ℕ
line t = t ++ 0x0d ∷ 0x0a ∷ []

abbrev greeting : List (List ℕ)
greeting = line (bytes "HELO there") ∷ []

abbrev opening : List (List ℕ)
opening =
    line (bytes "HELO there")
    ∷ line (bytes "MAIL FROM:<a@b>")
    ∷ line (bytes "RCPT TO:<c@d>")
    ∷ line (bytes "DATA")
    ∷ []

autofsm_step-iff-Transition_example :
    (autofsm_step AutofsmState.init AutofsmEvent.helo ≡ AutofsmState.client_init)
    × (AutofsmState.client_init ≡ AutofsmState.invalid → ⊥)
autofsm_step-iff-Transition_example =
    (autofsm_step-iff-Transition AutofsmState.init AutofsmState.client_init AutofsmEvent.helo
        (λ p. cc) (λ p. cc)).1
      init_helo

command_of-Forms_example : Forms (command_of sample (bytes "RCPT TO:<c@d>"))
command_of-Forms_example = command_of-Forms sample sample-IsMatcher (bytes "RCPT TO:<c@d>")

smtp_parse-Done_example : Handled sample (smtp_init raw) (line (bytes "HELO there"))
unfolding is_space
smtp_parse-Done_example =
    smtp_parse-Done sample sample-IsMatcher (smtp_init raw) (line (bytes "HELO there")) (λ _. refl)
      (smtp_init-IsWell raw)

smtp_parse-blank_example : smtp_parse sample (smtp_init raw) (line []) ≡ none
unfolding is_space smtp_init
smtp_parse-blank_example = smtp_parse-blank sample (smtp_init raw) (line []) (λ p. cc) refl

abbrev at_state : AutofsmState → SmtpState
at_state m = record {
  fsm_state = m;
  rcpt_list = record { array = []; allocated = 5 };
  mail_from = none;
  hello_addr = none;
  mail_data = record { array = []; allocated = 5 };
  buffer = record { text = some []; size = 1024 };
  status = ok;
}

abbrev quoted : List ℕ → Option (List ℕ)
quoted t = some t

abbrev opened : SmtpState
opened = record (at_state AutofsmState.read_data) {
  rcpt_list = record {
    array = record { user_name = quoted (bytes "<c"); server_name = quoted (bytes "d>") } ∷ [];
    allocated = 5;
  };
  mail_from = some (record { user_name = quoted (bytes "<a"); server_name = quoted (bytes "b>") });
  hello_addr = some (record { address = bytes "there"; type = SmtpAddressType.domain });
  buffer = record {
    text = some (line (bytes "354 Start mail input; end with <CRLF>.<CRLF>"));
    size = 1024;
  };
}

opening-run : run sample (smtp_init raw) opening ≡ some opened
unfolding run smtp_parse sample smtp_init
opening-run = refl

run-read_data_example :
    IsSubsequence
      (AutofsmEvent.helo ∷ AutofsmEvent.mail ∷ AutofsmEvent.rcpt ∷ AutofsmEvent.data_ev ∷ [])
      (heard_all sample (smtp_init raw) opening)
run-read_data_example = run-read_data sample sample-IsMatcher raw opened opening opening-run refl

at_state-IsWell : (m : AutofsmState) → IsWell (at_state m)
at_state-IsWell m = record {
  buffer_sound = record { null_empty = λ e. cc; fits = λ t e. ground arith };
  rcpt_valid = record { room = omega arith; grows = omega arith };
  data_valid = record { room = omega arith; grows = omega arith };
}

abbrev two_lines : List (List ℕ)
two_lines = line (bytes "Subject: x") ∷ line (bytes "..") ∷ []

run-text_example :
    (t : SmtpState) × (run sample
        (at_state AutofsmState.read_data)
        (two_lines ++ data_end_line ∷ [])
      ≡ some t)
    × (t.fsm_state ≡ AutofsmState.client_init)
    × ((smtp_move_buffer t).0 ≡ concat two_lines)
    × (t.mail_from ≡ none)
    × (t.rcpt_list ≡ record { array = []; allocated = 5 })
    × (t.status ≡ data_end)
    × (t.buffer.text ≡ some (reply 250 ok_msg))
run-text_example =
    run-text sample (at_state AutofsmState.read_data) two_lines refl
      (at_state-IsWell AutofsmState.read_data) (refl, (refl, tt))

rcpt-refused_example :
    Leaves
      (smtp_parse sample (at_state AutofsmState.begin_transaction) (line (bytes "RCPT TO:bob")))
      warning
      AutofsmState.transaction
      (at_state AutofsmState.begin_transaction)
unfolding pr_smtp_command_parse sample
rcpt-refused_example =
    rcpt-refused sample (at_state AutofsmState.begin_transaction) (line (bytes "RCPT TO:bob")) refl
      (_, _, refl, refl, refl, refl, refl, refl, refl, refl)

mailfrom-refused_example :
    Leaves
      (smtp_parse sample (at_state AutofsmState.client_init) (line (bytes "MAIL FROM:bob")))
      warning
      AutofsmState.begin_transaction
      (at_state AutofsmState.client_init)
unfolding pr_smtp_command_parse sample
mailfrom-refused_example =
    mailfrom-refused sample (at_state AutofsmState.client_init) (line (bytes "MAIL FROM:bob")) refl
      (_, _, refl, refl, refl, refl, refl, refl, refl, refl)
