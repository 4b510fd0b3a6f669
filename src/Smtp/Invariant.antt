-- ===== src/Smtp/Invariant.antt =====
-- What every message does to an SMTP dialogue: `smtp_parse` of server/src/lib/smtp/state.c.
use postman.Prelude.{
  ℕ, List, [], ◌∷◌, ◌++◌, length, all, true, false, Bool-cases, none, some, bytes_eq, if◌then◌else◌,
  ◌≡◌, ◌≢◌, refl, sym, inl, inr, arith,
}
use mathlib.Core.Path.{subst}
use postman.Text.{is_space, trim_str}
use postman.Text.Line.{Line-of}
use postman.Text.Trim.{trim_str-strips, trim_str-Blank}
use postman.Vector.Growth.{push_all-Appended}
use postman.Smtp.Fsm.{AutofsmState, AutofsmEvent, autofsm_step}
use postman.Smtp.Order.{advance}
use postman.Smtp.Regex.{Matcher, IsMatcher}
use postman.Smtp.State.{SmtpState, SmtpStatus, continue, data_end, SmtpCommand}
use postman.Smtp.Command.{pr_smtp_command_parse}
use postman.Smtp.Recognise.{IsFormed, command_of-Forms}
use postman.Smtp.Parse.{
  ok_msg, handle_command, data_end_line, read_line, store_status, read_command, by_state,
  smtp_parse,
}
use postman.Smtp.Replies.{IsWell, Replies, Done, IsSound-of, responds}
use postman.Smtp.Execute.{handle-Done}

-- The event of a command; a fault has none.
unfoldable pub heard_command : Matcher → SmtpState → List ℕ → AutofsmEvent
heard_command regexec s message = elim (pr_smtp_command_parse regexec s message) [
  | none ↦ AutofsmEvent.invalid_ev
  | some (c, _) ↦ c.event
]

unfoldable pub heard_in : AutofsmState → Matcher → SmtpState → List ℕ → AutofsmEvent
unfolding heard_command
heard_in AutofsmState.read_data regexec s message =
    if bytes_eq data_end_line message then AutofsmEvent.end else AutofsmEvent.read
heard_in _ regexec s message = heard_command regexec s message

-- The event of a message, in the state in which it is read.
unfoldable pub heard : Matcher → SmtpState → List ℕ → AutofsmEvent
unfolding heard_in
heard regexec s message = heard_in s.fsm_state regexec s message

-- A message with a result: the new state and the status, what the state is like, and the reply.
abbrev pub Handled : Matcher → SmtpState → List ℕ → Type 0
Handled regexec s message =
    (t : SmtpState) × (st : SmtpStatus) × (smtp_parse regexec s message ≡ some (t, st))
    × IsWell t
    × (t.fsm_state ≡ advance s.fsm_state (heard regexec s message))
    × (t.status ≡ st)
    × Replies st t.buffer.text

read_line-Done :
    (s : SmtpState) (message : List ℕ)
    → IsWell s
    → Done
        (if bytes_eq data_end_line message
          then autofsm_step s.fsm_state AutofsmEvent.end
          else s.fsm_state)
        (read_line s message)
unfolding read_line
read_line-Done s message h = elim (Bool-cases (bytes_eq data_end_line message)) [
  | inl e ↦
      rw (e, read_line)
        (responds (record s { fsm_state = autofsm_step s.fsm_state AutofsmEvent.end }) 250 ok_msg
          data_end
          (record {
            buffer_sound = h.buffer_sound;
            rcpt_valid = h.rcpt_valid;
            data_valid = h.data_valid;
          })
          (λ t p. p))
  | inr e ↦
      let (v, p, _, w) = push_all-Appended s.mail_data message h.data_valid in
      rw (e, read_line)
        (rw (p, read_line)
          (
            record s { mail_data = v },
            continue,
            refl,
            record { buffer_sound = h.buffer_sound; rcpt_valid = h.rcpt_valid; data_valid = w },
            refl,
            tt,
          ))
]

read_line_advance :
    (s : SmtpState) (message : List ℕ)
    → AutofsmState.read_data ≡ s.fsm_state
    → (if bytes_eq data_end_line message
        then autofsm_step s.fsm_state AutofsmEvent.end
        else s.fsm_state)
      ≡ advance s.fsm_state
          (if bytes_eq data_end_line message then AutofsmEvent.end else AutofsmEvent.read)
unfolding autofsm_step advance
read_line_advance s message e = rw (← e) (ground arith)

read_command-blank :
    (regexec : Matcher) (s : SmtpState) (message : List ℕ)
    → all is_space message ≡ true
    → read_command regexec s message ≡ none
unfolding read_command pr_smtp_command_parse
read_command-blank regexec s message b =
    rw (trim_str-Blank message s.buffer b, read_command, pr_smtp_command_parse) refl

by_state-blank :
    (regexec : Matcher) (m : AutofsmState) (s : SmtpState) (message : List ℕ)
    → m ≢ AutofsmState.read_data
    → all is_space message ≡ true
    → by_state regexec m s message ≡ none
unfolding by_state
by_state-blank regexec AutofsmState.read_data s message k b = absurd (k refl)
by_state-blank regexec _ s message k b = read_command-blank regexec s message b

module _ (regexec : Matcher) (law : IsMatcher regexec) where
  parse_command-total :
      (s : SmtpState) (message : List ℕ)
      → all is_space message ≡ false
      → IsWell s
      → (c : SmtpCommand) × (t : SmtpState) × (pr_smtp_command_parse regexec s message
          ≡ some (c, t))
        × IsFormed c
        × IsWell t
        × (t.fsm_state ≡ s.fsm_state)
  unfolding pr_smtp_command_parse
  parse_command-total s message dark h =
      let l = Line-of message dark in
      let (b, e, f, k) =
        trim_str-strips l.pre l.body l.post l.last s.buffer l.pre_blank l.starts l.last_dark
          l.post_blank h.buffer_sound.null_empty in
      let trimmed : trim_str message (length message) s.buffer ≡ some b =
        subst (λ m. trim_str m (length m) s.buffer ≡ some b) (sym l.whole) e in
      let (c, g, p) = command_of-Forms regexec law (l.body ++ l.last ∷ []) in
      (
        c,
        record s { buffer = b },
        rw (trimmed, pr_smtp_command_parse)
            (rw (f, pr_smtp_command_parse) (rw (g, pr_smtp_command_parse) refl)),
        p,
        record {
          buffer_sound = IsSound-of b (l.body ++ l.last ∷ []) f k;
          rcpt_valid = h.rcpt_valid;
          data_valid = h.data_valid;
        },
        refl,
      )

  read_command-Done :
      (s : SmtpState) (message : List ℕ)
      → all is_space message ≡ false
      → IsWell s
      → Done
          (advance s.fsm_state (heard_command regexec s message))
          (read_command regexec s message)
  unfolding read_command heard_command
  read_command-Done s message dark h =
      let (c, t, e, f, w, m) = parse_command-total s message dark h in
      rw (e, read_command, heard_command)
        (subst (λ n. Done (advance n c.event) (handle_command c.type t c)) m
          (handle-Done c.type t c refl f w))

  by_state-Done :
      (m : AutofsmState) (s : SmtpState) (message : List ℕ)
      → m ≡ s.fsm_state
      → (m ≢ AutofsmState.read_data → all is_space message ≡ false)
      → IsWell s
      → Done (advance s.fsm_state (heard_in m regexec s message)) (by_state regexec m s message)
  unfolding by_state heard_in
  by_state-Done AutofsmState.read_data s message e dark h =
      subst (λ n. Done n (read_line s message)) (read_line_advance s message e)
        (read_line-Done s message h)
  by_state-Done AutofsmState.init s message e dark h =
      read_command-Done s message (dark (λ p. cc)) h
  by_state-Done _ s message e dark h = read_command-Done s message (dark (λ p. cc)) h

  -- Every message to a well-formed state, other than a blank one where a command is due, is
  -- handled with no fault: the new state is well-formed, the machine takes the step of what was
  -- heard, the status is stored, and the reply in the buffer is one that goes with the status. The
  -- regex matcher is any that obeys the documented laws in IsMatcher.
  pub smtp_parse-Done :
      (s : SmtpState) (message : List ℕ)
      → (s.fsm_state ≢ AutofsmState.read_data → all is_space message ≡ false)
      → IsWell s
      → Handled regexec s message
  unfolding smtp_parse store_status heard
  smtp_parse-Done s message dark h =
      let (t, st, e, w, m, r) = by_state-Done s.fsm_state s message refl dark h in
      (
        record t { status = st },
        st,
        rw (e, store_status) refl,
        record {
          buffer_sound = w.buffer_sound;
          rcpt_valid = w.rcpt_valid;
          data_valid = w.data_valid;
        },
        m,
        refl,
        r,
      )

-- A blank message where a command is due makes `trim_str` read before the string: no result, in
-- every state but that of the mail text.
pub smtp_parse-blank :
    (regexec : Matcher) (s : SmtpState) (message : List ℕ)
    → s.fsm_state ≢ AutofsmState.read_data
    → all is_space message ≡ true
    → smtp_parse regexec s message ≡ none
unfolding smtp_parse store_status
smtp_parse-blank regexec s message k b =
    rw (by_state-blank regexec s.fsm_state s message k b, store_status) refl
