-- ===== src/Client/Sends.antt =====
-- What the handlers of client/src/context/context.c share, for what they send of a mail.
use mathlib.Core.Path.{subst}
use postman.Prelude.{
  ℕ, List, [], ◌++◌, append_assoc, Bool, false, none, some, if◌then◌else◌, choose, ◌≡◌, ◌⊎◌, inl,
  refl, sym, ap, ◌∙◌,
}
use postman.Client.Context.{
  MultiplexContext, Round, HandlerResult, stays, faulted, get_response_to_context, with_message,
  answering,
}
use postman.Client.Letter.{Message}
use postman.Client.Mail.{sent_of, IsBehind, IsSending, HasSent}
use postman.Client.Mailbox.{MailFiles}
use postman.Client.Replies.{
  request-free, get_response_to_context-Same, Keeps, with_status-Keeps, by_reply-Keeps,
}
use postman.Client.Smtp.{StateCode, is_invalid, request, SmtpContext}

module _ {D : Type 0} (files : MailFiles D) (base : List ℕ) (mes : Message) where
  abbrev pub Goes : MultiplexContext → D → Type 0
  Goes c d = IsSending base mes c ⊎ HasSent base mes c

  pub read-IsSending :
      (c : MultiplexContext) (smtp : SmtpContext)
      → smtp.state_code ≡ c.smtp_context.state_code
      → smtp.socket_desc.answers ≡ c.smtp_context.socket_desc.answers
      → smtp.socket_desc.wire ≡ c.smtp_context.socket_desc.wire
      → IsSending base mes c
      → IsSending base mes (record c { smtp_context = smtp })
  read-IsSending c smtp s a w (sel, free, sent) = (
    sel,
    a ∙ free,
    subst (λ x. IsBehind base smtp.socket_desc.wire (sent_of mes x c.iteration)) (sym s)
        (subst (λ x. IsBehind base x (sent_of mes c.smtp_context.state_code c.iteration)) (sym w)
          sent),
  )

  -- The part of the handlers before what a success leads to.
  pub answering-Goes :
      (round : Round) (c : MultiplexContext) (d : D) (is_success : ℕ → Bool)
      (go : MultiplexContext → HandlerResult D)
      → IsSending base mes c
      → ((noted : MultiplexContext)
          → IsSending base mes noted
          → noted.smtp_context.state_code ≡ c.smtp_context.state_code
          → noted.iteration ≡ c.iteration
          → Keeps files Goes (go noted))
      → Keeps files Goes (answering files is_success round c d go)
  unfolding answering
  answering-Goes round c d is_success go h k =
      with_status-Keeps files Goes (get_response_to_context round c) c _
        (get_response_to_context-Same round c)
        (λ status smtp s a w.
          let now = read-IsSending c smtp s a w h in
          by_reply-Keeps files Goes is_success status (record c { smtp_context = smtp }) d go
            (inl now) (inl now)
            (k (record c { smtp_context = smtp; status_code = status }) now s refl))

  pub known_message :
      (c : MultiplexContext) (go : Message → HandlerResult D)
      → c.select_message ≡ some mes
      → Keeps files Goes (go mes)
      → Keeps files Goes (with_message c go)
  unfolding with_message
  known_message c go e h =
      subst (λ o. Keeps files Goes (elim o [ none ↦ faulted | some m ↦ go m ])) (sym e) h

  -- A request in a state, with what it adds to the wire.
  pub request-IsSending :
      (next : StateCode) (c : MultiplexContext) (str t : List ℕ) (status i : ℕ)
      → c.select_message ≡ some mes
      → c.smtp_context.socket_desc.answers ≡ []
      → is_invalid c.smtp_context.state_code ≡ false
      → c.smtp_context.socket_desc.wire ≡ base ++ t
      → sent_of mes next i ≡ some (t ++ str)
      → IsSending base mes (record c {
        smtp_context = request next c.smtp_context str;
        status_code = status;
        iteration = i;
      })
  request-IsSending next c str t status i sel free valid w e =
      subst
        (λ s.
          IsSending base mes (record c { smtp_context = s; status_code = status; iteration = i }))
        (sym (request-free next c.smtp_context str free valid))
        (
          sel,
          refl,
          subst (IsBehind base (c.smtp_context.socket_desc.wire ++ str)) (sym e)
              (ap (λ x. x ++ str) w ∙ append_assoc base t str),
        )

  -- What was sent in a known state.
  pub sent_in :
      (c : MultiplexContext) (s : StateCode) (i : ℕ) (t : List ℕ)
      → c.smtp_context.state_code ≡ s
      → c.iteration ≡ i
      → sent_of mes s i ≡ some t
      → IsSending base mes c
      → c.smtp_context.socket_desc.wire ≡ base ++ t
  sent_in c s i t p q e (sel, free, sent) =
      subst (IsBehind base c.smtp_context.socket_desc.wire) e (
        subst (λ j. IsBehind base c.smtp_context.socket_desc.wire (sent_of mes s j)) q
          (subst (λ x. IsBehind base c.smtp_context.socket_desc.wire (sent_of mes x c.iteration)) p
            sent))

  pub is_valid_state : (s t : StateCode) → s ≡ t → is_invalid t ≡ false → is_invalid s ≡ false
  is_valid_state s t p h = ap is_invalid p ∙ h

  -- What a success leads to, where the socket must be ready.
  pub if_ready-Goes :
      (round : Round) (c : MultiplexContext) (d : D) (go : Message → HandlerResult D)
      → IsSending base mes c
      → Keeps files Goes (go mes)
      → Keeps files Goes (if round.is_ready_for_write then with_message c go else stays c d)
  if_ready-Goes round c d go h g =
      choose (Keeps files Goes) round.is_ready_for_write (with_message c go) (stays c d)
        (known_message c go h.0 g) (inl h)
