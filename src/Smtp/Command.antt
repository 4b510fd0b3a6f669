-- ===== src/Smtp/Command.antt =====
-- The recognition of commands in server/src/lib/smtp/state.c: `pr_smtp_command_parse` and the
-- functions for each command. `none` is a read or write out of bounds, or a failed assertion.
use postman.Prelude.{
  ℕ, ◌+◌, ◌-◌, List, [], ◌∷◌, length, drop, Bool, true, false, Option, none, some,
}
use postman.Text.{sub_str, trim_str}
use postman.Text.Split.{split_sub_str}
use postman.Smtp.Fsm.{AutofsmEvent}
use postman.Smtp.Regex.{
  Matcher, Regex, compiled, reg_hello, reg_mailform, reg_rcptto, reg_data, reg_rset, reg_vrfy,
  reg_expn, reg_help, reg_noop, reg_quit, reg_domain, reg_addr_literal, reg_mailbox, reg_path,
  reg_empty_path, reg_postmaster,
}
use postman.Smtp.State.{
  SmtpMailbox, SmtpAddressType, ipv4, domain, SmtpState, SmtpCommandType, SmtpCommand, CommandArg,
  null, address, mailbox,
}

-- A command with no argument.
abbrev pub plain : SmtpCommandType → AutofsmEvent → Bool → CommandArg → SmtpCommand
plain t e good a = record { status = good; type = t; event = e; arg = a }

-- The two parts that `split_sub_str` put into `split[2]`; a part that is missing was never written.
unfoldable pub pair_mailbox : Option (List (List ℕ)) → Option SmtpMailbox
pair_mailbox (some (user ∷ server ∷ rest)) =
    some (record { user_name = some user; server_name = some server })
pair_mailbox _ = none

-- The address of HELO, or a fault in its copy.
unfoldable pub with_address : SmtpAddressType → Option (List ℕ) → Option SmtpCommand
with_address t none = none
with_address t (some a) = some (
    plain SmtpCommandType.hello AutofsmEvent.helo true (address (record { address = a; type = t })))

unfoldable pub with_mailbox :
    SmtpCommandType → AutofsmEvent → Option SmtpMailbox → Option SmtpCommand
with_mailbox t e none = none
with_mailbox t e (some m) = some (plain t e true (mailbox m))

module _ (regexec : Matcher) where
  abbrev matches : Regex → List ℕ → Option (ℕ × ℕ)
  matches r s = regexec (compiled r) s

  unfoldable pub pr_smtp_hello_proc : List ℕ → Option SmtpCommand
  unfolding compiled with_address sub_str
  pr_smtp_hello_proc buff = elim (matches reg_addr_literal buff) [
    | some (so, eo) ↦ with_address ipv4 (sub_str buff (so + 1) (eo - 1))
    | none ↦ elim (matches reg_domain buff) [
      | some (so, eo) ↦ with_address domain (sub_str buff so eo)
      | none ↦ some (plain SmtpCommandType.hello AutofsmEvent.helo false null)
    ]
  ]

  -- A path with no mailbox fails the assertion.
  unfoldable pub pr_smtp_mailfrom_proc : List ℕ → Option SmtpCommand
  unfolding compiled pair_mailbox with_mailbox split_sub_str
  pr_smtp_mailfrom_proc buff = elim (matches reg_path buff) [
    | some _ ↦ elim (matches reg_mailbox buff) [
      | some (so, eo) ↦
          with_mailbox SmtpCommandType.mailfrom AutofsmEvent.mail
            (pair_mailbox (split_sub_str buff so (some eo) 2 b'@'))
      | none ↦ none
    ]
    | none ↦ elim (matches reg_empty_path buff) [
      | some _ ↦ some (plain SmtpCommandType.mailfrom AutofsmEvent.mail true null)
      | none ↦ some (plain SmtpCommandType.mailfrom AutofsmEvent.mail false null)
    ]
  ]

  -- The branch for the postmaster copies the matched text over the structure that it has just
  -- built.
  unfoldable pub pr_smtp_rcptto_proc : List ℕ → Option SmtpCommand
  unfolding compiled pair_mailbox with_mailbox split_sub_str
  pr_smtp_rcptto_proc buff = elim (matches reg_path buff) [
    | some _ ↦ elim (matches reg_mailbox buff) [
      | some (so, eo) ↦
          with_mailbox SmtpCommandType.rcptto AutofsmEvent.rcpt
            (pair_mailbox (split_sub_str buff so (some eo) 2 b'@'))
      | none ↦ elim (matches reg_postmaster buff) [
        | some _ ↦ none
        | none ↦ some (plain SmtpCommandType.rcptto AutofsmEvent.rcpt false null)
      ]
    ]
    | none ↦ some (plain SmtpCommandType.rcptto AutofsmEvent.rcpt false null)
  ]

  unfoldable pub pr_smtp_data_proc : List ℕ → Option SmtpCommand
  pr_smtp_data_proc _ = some (plain SmtpCommandType.data_cmd AutofsmEvent.data_ev true null)

  unfoldable pub pr_smtp_rset_proc : List ℕ → Option SmtpCommand
  pr_smtp_rset_proc _ = some (plain SmtpCommandType.rset AutofsmEvent.rset true null)

  unfoldable pub pr_smtp_vrfy_proc : List ℕ → Option SmtpCommand
  pr_smtp_vrfy_proc _ = some (plain SmtpCommandType.vrfy AutofsmEvent.test true null)

  unfoldable pub pr_smtp_expn_proc : List ℕ → Option SmtpCommand
  pr_smtp_expn_proc _ = some (plain SmtpCommandType.expn AutofsmEvent.test true null)

  unfoldable pub pr_smtp_help_proc : List ℕ → Option SmtpCommand
  pr_smtp_help_proc _ = some (plain SmtpCommandType.help AutofsmEvent.test true null)

  unfoldable pub pr_smtp_noop_proc : List ℕ → Option SmtpCommand
  pr_smtp_noop_proc _ = some (plain SmtpCommandType.noop AutofsmEvent.test true null)

  unfoldable pub pr_smtp_quit_proc : List ℕ → Option SmtpCommand
  pr_smtp_quit_proc _ = some (plain SmtpCommandType.quit AutofsmEvent.quit true null)

  -- The chain of `else if`: the expressions in their order, each with its function.
  abbrev pub Rows : Type 0
  Rows = List (Regex × (List ℕ → Option SmtpCommand))

  unfoldable pub rows : Rows
  unfolding pr_smtp_hello_proc pr_smtp_mailfrom_proc pr_smtp_rcptto_proc pr_smtp_data_proc
      pr_smtp_rset_proc pr_smtp_vrfy_proc pr_smtp_expn_proc pr_smtp_help_proc pr_smtp_noop_proc
      pr_smtp_quit_proc
  rows =
      (reg_hello, pr_smtp_hello_proc)
      ∷ (reg_mailform, pr_smtp_mailfrom_proc)
      ∷ (reg_rcptto, pr_smtp_rcptto_proc)
      ∷ (reg_data, pr_smtp_data_proc)
      ∷ (reg_rset, pr_smtp_rset_proc)
      ∷ (reg_vrfy, pr_smtp_vrfy_proc)
      ∷ (reg_expn, pr_smtp_expn_proc)
      ∷ (reg_help, pr_smtp_help_proc)
      ∷ (reg_noop, pr_smtp_noop_proc)
      ∷ (reg_quit, pr_smtp_quit_proc)
      ∷ []

  -- The function gets what stands behind the match.
  unfoldable pub recognise : Rows → List ℕ → Option SmtpCommand
  unfolding compiled
  recognise [] buff =
      some (plain SmtpCommandType.invalid_command AutofsmEvent.invalid_ev false null)
  recognise ((r, proc) ∷ rest) buff = elim (matches r buff) [
    | none ↦ recognise rest buff
    | some (_, eo) ↦ proc (drop eo buff)
  ]

  -- The command of a trimmed message.
  unfoldable pub command_of : List ℕ → Option SmtpCommand
  unfolding rows recognise
  command_of buff = recognise rows buff

  -- The command, with the state whose buffer holds the trimmed message.
  unfoldable pub pr_smtp_command_parse : SmtpState → List ℕ → Option (SmtpCommand × SmtpState)
  unfolding trim_str command_of
  pr_smtp_command_parse s message = elim (trim_str message (length message) s.buffer) [
    | none ↦ none
    | some b ↦ elim b.text [
      | none ↦ none
      | some buff ↦ elim (command_of buff) [
        | none ↦ none
        | some command ↦ some (command, record s { buffer = b })
      ]
    ]
  ]
