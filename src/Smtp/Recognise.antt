-- ===== src/Smtp/Recognise.antt =====
-- What `pr_smtp_command_parse` of server/src/lib/smtp/state.c makes of a message.
use postman.Prelude.{
  ℕ, zero, suc, ◌+◌, ◌-◌, ◌≤◌, List, [], ◌∷◌, length, drop, Bool, true, Option, none, some,
  Option-cases, ◌≡◌, ◌≢◌, ◌⊎◌, refl, inl, inr, arith,
}
use postman.Text.{read_at, copy_range, sub_str}
use postman.Text.Split.{split_sub_str, split_sub_str-pair}
use postman.Smtp.Fsm.{AutofsmEvent}
use postman.Smtp.Regex.{
  Matcher, IsMatcher, MailboxAt, compiled, re_path, re_mailbox, re_address_literal, re_domain,
  re_empty_path,
}
use postman.Smtp.State.{
  SmtpCommandType, SmtpAddress, SmtpCommand, CommandArg, null, address, mailbox,
}
use postman.Smtp.Command.{
  pair_mailbox, with_address, pr_smtp_hello_proc, pr_smtp_mailfrom_proc, pr_smtp_rcptto_proc, Rows,
  rows, recognise, command_of,
}

-- The event that goes with a command.
unfoldable pub event_of : SmtpCommandType → AutofsmEvent
event_of SmtpCommandType.hello = AutofsmEvent.helo
event_of SmtpCommandType.mailfrom = AutofsmEvent.mail
event_of SmtpCommandType.rcptto = AutofsmEvent.rcpt
event_of SmtpCommandType.data_cmd = AutofsmEvent.data_ev
event_of SmtpCommandType.rset = AutofsmEvent.rset
event_of SmtpCommandType.quit = AutofsmEvent.quit
event_of SmtpCommandType.invalid_command = AutofsmEvent.invalid_ev
event_of _ = AutofsmEvent.test

-- A mailbox with both names.
abbrev pub IsMailbox : CommandArg → Type 0
IsMailbox a =
    (user : List ℕ) × (server : List ℕ) × (a
      ≡ mailbox (record { user_name = some user; server_name = some server }))

-- The argument of an accepted command of a type; one that is refused has none.
abbrev pub ArgFits : SmtpCommandType → Bool → CommandArg → Type 0
ArgFits SmtpCommandType.hello true a = (name : SmtpAddress) × (a ≡ address name)
ArgFits SmtpCommandType.mailfrom true a = (a ≡ null) ⊎ IsMailbox a
ArgFits SmtpCommandType.rcptto true a = IsMailbox a
ArgFits _ _ a = a ≡ null

-- A command carries the event of its type and the argument that its type and status ask for: an
-- accepted HELO an address, an accepted sender a mailbox or nothing, an accepted recipient a mailbox,
-- all else nothing.
pub record IsFormed (c : SmtpCommand) : Type 0 where
  pub event : c.event ≡ event_of c.type
  pub arg : ArgFits c.type c.status c.arg

abbrev pub Forms : Option SmtpCommand → Type 0
Forms o = (c : SmtpCommand) × (o ≡ some c) × IsFormed c

read_at-total : (src : List ℕ) (i : ℕ) → i ≤ length src → (c : ℕ) × (read_at src i ≡ some c)
unfolding read_at
read_at-total [] i h = (0, ground arith)
read_at-total (x ∷ src) zero h = (x, ground arith)
read_at-total (x ∷ src) (suc i) h =
    let (c, e) = read_at-total src i (omega arith) in (c, ground arith)

copy_range-total :
    (src : List ℕ) (i n : ℕ) → i + n ≤ length src → (t : List ℕ) × (copy_range src i n ≡ some t)
unfolding copy_range
copy_range-total src i zero h = ([], refl)
copy_range-total src i (suc n) h =
    let (c, e) = read_at-total src i (omega arith) in
    let (t, f) = copy_range-total src (suc i) n (omega arith) in
    (c ∷ t, rw (e, copy_range) (rw (f, copy_range) refl))

sub_str-total :
    (src : List ℕ) (begin end : ℕ)
    → begin ≤ end
    → end ≤ length src
    → (t : List ℕ) × (sub_str src begin end ≡ some t)
unfolding sub_str
sub_str-total src begin end h k = copy_range-total src begin (end - begin) (omega arith)

mailbox_pair :
    (s : List ℕ) (from to : ℕ)
    → MailboxAt s from to
    → (user domain : List ℕ) × (split_sub_str s from (some to) 2 b'@' ≡ some (user ∷ domain ∷ []))
mailbox_pair s from to m = (
  m.user,
  m.domain,
  rw (m.whole, m.starts, m.ends) (split_sub_str-pair m.pre m.user m.domain m.post b'@' m.lacks),
)

formed :
    (c : SmtpCommand) → c.event ≡ event_of c.type → ArgFits c.type c.status c.arg → Forms (some c)
formed c e a = (c, refl, record { event = e; arg = a })

is_some : {A : Type 0} (o : Option A) (a : A) → o ≡ some a → o ≢ none
is_some o a e n = cc

module _ (regexec : Matcher) (law : IsMatcher regexec) where
  hello_proc-Forms : (buff : List ℕ) → Forms (pr_smtp_hello_proc regexec buff)
  unfolding pr_smtp_hello_proc event_of
  hello_proc-Forms buff = elim (Option-cases (regexec re_address_literal buff)) [
    | inl e ↦ elim (Option-cases (regexec re_domain buff)) [
      | inl f ↦ rw (e, pr_smtp_hello_proc) (rw (f, pr_smtp_hello_proc) (formed _ refl refl))
      | inr ((so, eo), f) ↦
          let (l, u) = law.bounded re_domain buff so eo f in
          let (t, g) = sub_str-total buff so eo l u in
          rw (e, pr_smtp_hello_proc)
            (rw (f, pr_smtp_hello_proc) (rw (g, with_address) (formed _ refl (_, refl))))
    ]
    | inr ((so, eo), e) ↦
        let (l, u) = law.bounded re_address_literal buff so eo e in
        let b = law.brackets buff so eo e in
        let (t, g) = sub_str-total buff (so + 1) (eo - 1) (omega arith) (omega arith) in
        rw (e, pr_smtp_hello_proc) (rw (g, with_address) (formed _ refl (_, refl)))
  ]

  -- Where a path is matched, the two names of the mailbox are cut out.
  path_pair :
      (buff : List ℕ) (o : ℕ × ℕ)
      → regexec re_path buff ≡ some o
      → (so : ℕ) × (eo : ℕ) × (user : List ℕ) × (domain : List ℕ) × (regexec re_mailbox buff
          ≡ some (so, eo))
        × (split_sub_str buff so (some eo) 2 b'@' ≡ some (user ∷ domain ∷ []))
  path_pair buff o e = elim (Option-cases (regexec re_mailbox buff)) [
    | inl n ↦ absurd (law.mailbox buff (is_some _ o e) n)
    | inr ((so, eo), f) ↦
        let (user, domain, g) = mailbox_pair buff so eo (law.at_sign buff so eo f) in
        (so, eo, user, domain, f, g)
  ]

  mailfrom_proc-Forms : (buff : List ℕ) → Forms (pr_smtp_mailfrom_proc regexec buff)
  unfolding pr_smtp_mailfrom_proc event_of
  mailfrom_proc-Forms buff = elim (Option-cases (regexec re_path buff)) [
    | inl e ↦ elim (Option-cases (regexec re_empty_path buff)) [
      | inl f ↦ rw (e, pr_smtp_mailfrom_proc) (rw (f, pr_smtp_mailfrom_proc) (formed _ refl refl))
      | inr (o, f) ↦
          rw (e, pr_smtp_mailfrom_proc) (rw (f, pr_smtp_mailfrom_proc) (formed _ refl (inl refl)))
    ]
    | inr (o, e) ↦
        let (so, eo, user, domain, f, g) = path_pair buff o e in
        rw (e, pr_smtp_mailfrom_proc)
          (rw (f, pr_smtp_mailfrom_proc)
            (rw (g, pair_mailbox) (formed _ refl (inr (user, domain, refl)))))
  ]

  rcptto_proc-Forms : (buff : List ℕ) → Forms (pr_smtp_rcptto_proc regexec buff)
  unfolding pr_smtp_rcptto_proc event_of
  rcptto_proc-Forms buff = elim (Option-cases (regexec re_path buff)) [
    | inl e ↦ rw (e, pr_smtp_rcptto_proc) (formed _ refl refl)
    | inr (o, e) ↦
        let (so, eo, user, domain, f, g) = path_pair buff o e in
        rw (e, pr_smtp_rcptto_proc)
          (rw (f, pr_smtp_rcptto_proc) (rw (g, pair_mailbox) (formed _ refl (user, domain, refl))))
  ]

  abbrev RowsForm : Rows regexec → Type 0
  RowsForm [] = Unit {0}
  RowsForm ((r, proc) ∷ rest) = ((buff : List ℕ) → Forms (proc buff)) × RowsForm rest

  recognise-Forms :
      (rs : Rows regexec) → RowsForm rs → (buff : List ℕ) → Forms (recognise regexec rs buff)
  unfolding recognise event_of
  recognise-Forms [] h buff = formed _ refl refl
  recognise-Forms ((r, proc) ∷ rest) h buff = elim (Option-cases (regexec (compiled r) buff)) [
    | inl e ↦ rw (e, recognise) (recognise-Forms rest h.1 buff)
    | inr ((so, eo), e) ↦ rw (e, recognise) (h.0 (drop eo buff))
  ]

  rows-RowsForm : RowsForm (rows regexec)
  unfolding rows event_of
  rows-RowsForm = (
    hello_proc-Forms,
    (
      mailfrom_proc-Forms,
      (
        rcptto_proc-Forms,
        (
          (λ _. formed _ refl refl),
          (
            (λ _. formed _ refl refl),
            (
              (λ _. formed _ refl refl),
              (
                (λ _. formed _ refl refl),
                (
                  (λ _. formed _ refl refl),
                  ((λ _. formed _ refl refl), ((λ _. formed _ refl refl), tt)),
                ),
              ),
            ),
          ),
        ),
      ),
    ),
  )

  -- Every trimmed message is given a command with the event of its type and this argument: an
  -- address with a HELO that is accepted, a mailbox with both its names or nothing with an
  -- accepted MAIL, a mailbox with both its names with an accepted RCPT, and nothing with every
  -- other command, a refused one among them. So no read or copy leaves its string, and the failed
  -- assertion and the copy over the postmaster are never reached. The regex matcher is any that
  -- obeys the documented laws in IsMatcher.
  pub command_of-Forms : (buff : List ℕ) → Forms (command_of regexec buff)
  unfolding command_of
  command_of-Forms buff = recognise-Forms (rows regexec) rows-RowsForm buff
