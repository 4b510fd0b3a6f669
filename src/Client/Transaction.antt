-- ===== src/Client/Transaction.antt =====
-- What the handlers of client/src/context/context.c send of a mail, over many rounds.
use mathlib.Core.Path.{subst}
use postman.Prelude.{ℕ, List, [], append-nil, none, some, ◌≡◌, ◌⊎◌, inl, inr, refl, sym, ◌∙◌}
use postman.Client.Commands.{helo_handler-Goes, mail_handler-Goes, rcpt_handler-Goes}
use postman.Client.Context.{MultiplexContext, Round, stays}
use postman.Client.Handlers.{handle_state}
use postman.Client.Letter.{Message}
use postman.Client.Lines.{data_handler-Goes, message_handler-Goes, end_message_handler-Goes}
use postman.Client.Mail.{sent_of, IsBehind, IsSending, HasSent}
use postman.Client.Mailbox.{MailFiles}
use postman.Client.Replies.{Keeps}
use postman.Client.Sends.{Goes}
use postman.Client.Smtp.{
  StateCode, smtp_connect, smtp_helo, smtp_ehlo, smtp_mail, smtp_rcpt, smtp_data, smtp_message,
  smtp_end_message, smtp_rset, smtp_quit, smtp_invalid,
}

module _ {D : Type 0} (files : MailFiles D) (base : List ℕ) (mes : Message) where
  pub state-Goes :
      (s : StateCode) (round : Round) (c : MultiplexContext) (d : D)
      → IsSending base mes c
      → c.smtp_context.state_code ≡ s
      → Keeps files (Goes files base mes) (handle_state files s round c d)
  unfolding handle_state
  state-Goes smtp_connect round c d h p =
      absurd (
        subst (λ q. IsBehind base c.smtp_context.socket_desc.wire (sent_of mes q c.iteration)) p
          h.2)
  state-Goes smtp_helo round c d h p = helo_handler-Goes files base mes round c d h p
  state-Goes smtp_mail round c d h p = mail_handler-Goes files base mes round c d h p
  state-Goes smtp_rcpt round c d h p = rcpt_handler-Goes files base mes round c d h p
  state-Goes smtp_data round c d h p = data_handler-Goes files base mes round c d h p
  state-Goes smtp_message round c d h p = message_handler-Goes files base mes round c d h p
  state-Goes smtp_end_message round c d h p = end_message_handler-Goes files base mes round c d h p
  state-Goes smtp_rset round c d h p = tt
  state-Goes smtp_quit round c d h p = tt
  state-Goes smtp_ehlo round c d h p = tt
  state-Goes smtp_invalid round c d h p = tt

none-some : {A : Type 0} {x : A} → none ≡ some x → ⊥
none-some h = cc h

module _ {D : Type 0} (files : MailFiles D) (mes : Message) where
  -- Some rounds with the same mail, in which the connection stays.
  pub data Dialogue (c : MultiplexContext) (d : D) : MultiplexContext → D → Type 0 where
    start : Dialogue c d c d
    next :
        {c' c'' : MultiplexContext} {d' d'' : D}
        → (round : Round) → Dialogue c d c' d'
        → c'.select_message ≡ some mes
        → handle_state files c'.smtp_context.state_code round c' d' ≡ stays c'' d''
        → Dialogue c d c'' d''

-- Where a mail is selected in the state behind HELO and the sends take all, after any rounds with
-- that mail in which the connection stays, the bytes that were sent in them are those that are due
-- of the mail in the state reached: the sender, then each recipient in order, then DATA, then the
-- lines of the text in order, then the end; or the mail was sent whole, each part once, and the
-- next is due.
pub Dialogue-whole_mail :
    {D : Type 0} (files : MailFiles D) (mes : Message) (c : MultiplexContext) (d : D)
    {c' : MultiplexContext} {d' : D}
    → c.select_message ≡ some mes
    → c.smtp_context.state_code ≡ smtp_helo
    → c.smtp_context.socket_desc.answers ≡ []
    → Dialogue files mes c d c' d'
    → IsSending c.smtp_context.socket_desc.wire mes c'
      ⊎ HasSent c.smtp_context.socket_desc.wire mes c'
Dialogue-whole_mail files mes c d sel s free start =
    let base = c.smtp_context.socket_desc.wire in
    inl (
      sel,
      free,
      subst (λ q. IsBehind base base (sent_of mes q c.iteration)) (sym s) (sym (append-nil base)),
    )
Dialogue-whole_mail files mes c d sel s free (next {c'} {c''} {d'} {d''} round before still e) =
    let base = c.smtp_context.socket_desc.wire in
    elim (Dialogue-whole_mail files mes c d sel s free before) [
      | inl sending ↦
          subst (Keeps files (Goes files base mes)) e
            (state-Goes files base mes c'.smtp_context.state_code round c' d' sending refl)
      | inr sent ↦ absurd (none-some (sym sent.0 ∙ still))
    ]
