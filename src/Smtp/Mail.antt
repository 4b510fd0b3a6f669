-- ===== src/Smtp/Mail.antt =====
-- The text of a mail, between DATA and the line with a dot: `smtp_parse` and `smtp_move_buffer` of
-- server/src/lib/smtp/state.c.
use postman.Prelude.{
  ℕ, List, [], ◌∷◌, ◌++◌, concat, false, some, bytes_eq, ◌≡◌, refl, sym, ap, ◌∙◌, append-nil,
  append_assoc,
}
use postman.Vector.Growth.{push_all-Appended}
use postman.Smtp.Fsm.{AutofsmState, AutofsmEvent, autofsm_step}
use postman.Smtp.Regex.{Matcher}
use postman.Smtp.State.{SmtpState, continue, data_end, smtp_make_response, smtp_move_buffer}
use postman.Smtp.Parse.{data_end_line, ok_msg, read_line, store_status, by_state, smtp_parse}
use postman.Smtp.Replies.{IsWell, reply, response_text}
use postman.Smtp.Session.{run}

-- No line is the one that ends the text.
abbrev pub NoEnd : List (List ℕ) → Type 0
NoEnd [] = Unit {0}
NoEnd (l ∷ ls) = (bytes_eq data_end_line l ≡ false) × NoEnd ls

module _ (regexec : Matcher) where
  -- A line of the text.
  text_line :
      (s : SmtpState) (line : List ℕ)
      → s.fsm_state ≡ AutofsmState.read_data
      → bytes_eq data_end_line line ≡ false
      → IsWell s
      → (t : SmtpState) × (smtp_parse regexec s line ≡ some (t, continue))
        × IsWell t
        × (t.fsm_state ≡ AutofsmState.read_data)
        × (t.mail_data.array ≡ s.mail_data.array ++ line)
        × (t.mail_from ≡ s.mail_from)
        × (t.rcpt_list ≡ s.rcpt_list)
  unfolding smtp_parse by_state read_line store_status
  text_line s line m d h =
      let (v, e, p, w) = push_all-Appended s.mail_data line h.data_valid in
      (
        record s { mail_data = v; status = continue },
        rw (m, smtp_parse, by_state)
            (rw (d, read_line, store_status) (rw (e, read_line, store_status) refl)),
        record { buffer_sound = h.buffer_sound; rcpt_valid = h.rcpt_valid; data_valid = w },
        m,
        p,
        refl,
        refl,
      )

  -- The end of the text.
  text_end :
      (s : SmtpState)
      → s.fsm_state ≡ AutofsmState.read_data
      → IsWell s
      → (t : SmtpState) × (smtp_parse regexec s data_end_line ≡ some (t, data_end))
        × (t.fsm_state ≡ AutofsmState.client_init)
        × (t.mail_data ≡ s.mail_data)
        × (t.mail_from ≡ s.mail_from)
        × (t.rcpt_list ≡ s.rcpt_list)
        × (t.status ≡ data_end)
        × (t.buffer.text ≡ some (reply 250 ok_msg))
  unfolding smtp_parse by_state read_line store_status smtp_make_response autofsm_step
  text_end s m h = (
    record (smtp_make_response (record s { fsm_state = autofsm_step s.fsm_state AutofsmEvent.end })
        250 ok_msg) { status = data_end },
    rw (m, smtp_parse, by_state) refl,
    rw m refl,
    refl,
    refl,
    refl,
    refl,
    response_text s 250 ok_msg h.buffer_sound,
  )

  -- To a well-formed state in the mail text come lines, none of them the line with a dot alone,
  -- and then that line: the dialogue goes on behind a greeting, the mail text is what it was with
  -- the lines joined to it, sender and recipients are kept, the status is DATA_END and the reply
  -- 250.
  pub run-text :
      (s : SmtpState) (lines : List (List ℕ))
      → s.fsm_state ≡ AutofsmState.read_data
      → IsWell s
      → NoEnd lines
      → (t : SmtpState) × (run regexec s (lines ++ data_end_line ∷ []) ≡ some t)
        × (t.fsm_state ≡ AutofsmState.client_init)
        × ((smtp_move_buffer t).0 ≡ s.mail_data.array ++ concat lines)
        × (t.mail_from ≡ s.mail_from)
        × (t.rcpt_list ≡ s.rcpt_list)
        × (t.status ≡ data_end)
        × (t.buffer.text ≡ some (reply 250 ok_msg))
  unfolding smtp_move_buffer run
  run-text s [] m h d =
      let (t, e, c, a, f, r, st, b) = text_end s m h in
      (
        t,
        rw (e, run) refl,
        c,
        ap (λ v. v.array) a ∙ sym (append-nil s.mail_data.array),
        f,
        r,
        st,
        b,
      )
  run-text s (line ∷ lines) m h d =
      let (u, e, w, n, a, f, r) = text_line s line m d.0 h in
      let (t, g, c, b, f', r', st, reply_text) = run-text u lines n w d.1 in
      (
        t,
        rw (e, run) g,
        c,
        b ∙ (ap (λ x. x ++ concat lines) a ∙ append_assoc s.mail_data.array line (concat lines)),
        f' ∙ f,
        r' ∙ r,
        st,
        reply_text,
      )
