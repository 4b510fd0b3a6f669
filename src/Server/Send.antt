-- ===== src/Server/Send.antt =====
-- The delivery of a mail: `send_mail` of server/src/lib/server/server.c. Memory is always there.
use postman.Prelude.{
  ℕ, List, [], ◌∷◌, length, Bool, true, false, ◌&&◌, Option, none, some, ◌==◌, if◌then◌else◌,
}
use postman.Vector.{Vector}
use postman.Vector
use postman.EventLoop.Event.{ErrorType}
use postman.Smtp.State.{SmtpMailbox, SmtpState, smtp_move_buffer}
use postman.Maildir.{
  FileSystem, Ending, fault, failed, done, Disk, pure, and_then, ◌>>=◌, ◌>>◌, Maildir,
  MaildirServer, MaildirUser, MaildirMessage,
}
use postman.Maildir.Accounts.{
  maildir_server_default_init, maildir_get_self_server, maildir_get_server, maildir_create_server,
  maildir_server_user, maildir_server_create_user,
}
use postman.Maildir.Message.{
  maildir_user_create_message, maildir_message_write, maildir_message_finalize,
}
use postman.Server.Table.{RecipientsTable, table_init, table_get, table_keys}
use postman.Server.Recipients.{Parted, part_recipients, group_recipients}
use postman.Server.Mail.{make_x_headers}

abbrev pub or_fault : {D A : Type 0} → Option A → Disk D A
or_fault none d = fault
or_fault (some a) d = done a d

-- An error that nobody looks at.
abbrev pub unchecked : {D : Type 0} → Ending D (Unit {0}) → Ending D (Unit {0})
unchecked fault = fault
unchecked (failed e n d) = done tt d
unchecked (done u d) = done u d

abbrev pub is_errno : ErrorType → Bool
is_errno ErrorType.errno = true
is_errno _ = false

abbrev pub is_not_found : ErrorType → Bool
is_not_found ErrorType.not_found = true
is_not_found _ = false

-- What is sent, and from whom.
pub record Letter : Type 0 where
  pub sender : SmtpMailbox
  pub message : List ℕ

module _ {D : Type 0} (fs : FileSystem D) (md : Maildir) where
  -- What follows `maildir_server_user`: a user that is not there, ENOENT, is created.
  unfoldable pub unless_user : MaildirServer → List ℕ → Ending D MaildirUser → Ending D MaildirUser
  unfolding maildir_server_create_user
  unless_user server name fault = fault
  unless_user server name (failed e n d) =
      if is_errno e && n == 2 then maildir_server_create_user fs server name d else failed e n d
  unless_user server name (done u d) = done u d

  unfoldable pub user_or_created : MaildirServer → List ℕ → Disk D MaildirUser
  unfolding maildir_server_user unless_user
  user_or_created server name d = unless_user server name (maildir_server_user fs server name d)

  -- What comes of `maildir_create_server` is not looked at: where it fails the server keeps its NULL.
  unfoldable pub whatever_created : Ending D MaildirServer → Ending D MaildirServer
  unfolding maildir_server_default_init
  whatever_created fault = fault
  whatever_created (failed _ _ d) = done maildir_server_default_init d
  whatever_created (done s d) = done s d

  -- What follows `maildir_get_server`: a server that is not there is created.
  unfoldable pub unless_server : List ℕ → Ending D MaildirServer → Ending D MaildirServer
  unfolding whatever_created maildir_create_server maildir_server_default_init
  unless_server name fault = fault
  unless_server name (failed e n d) =
      if is_not_found e
      then whatever_created (maildir_create_server fs md maildir_server_default_init name d)
      else failed e n d
  unless_server name (done s d) = done s d

  unfoldable pub server_or_created : List ℕ → Disk D MaildirServer
  unfolding maildir_get_server unless_server maildir_server_default_init
  server_or_created name d =
      unless_server name (maildir_get_server fs md maildir_server_default_init name d)

  -- The headers and the text, if there is one.
  unfoldable pub write_letter : MaildirMessage → List SmtpMailbox → Letter → Disk D (Unit {0})
  unfolding maildir_message_write make_x_headers
  write_letter mail rcpts letter = do
    headers ← λ d. or_fault (make_x_headers (fs.timestamp d) rcpts letter.sender) d
    maildir_message_write fs mail headers
    if length letter.message == 0 then pure tt else maildir_message_write fs mail letter.message

  -- A user name that is NULL is refused.
  unfoldable pub named_user : MaildirServer → Option (List ℕ) → Disk D MaildirUser
  unfolding user_or_created
  named_user server none d = failed ErrorType.fatal 0 d
  named_user server (some name) d = user_or_created server name d

  -- The body of the loop over the recipients of this server.
  unfoldable pub send_to_self : Letter → SmtpMailbox → Disk D (Unit {0})
  unfolding named_user write_letter maildir_user_create_message maildir_message_finalize
      maildir_get_self_server maildir_server_default_init
  send_to_self letter m = do
    user ← named_user (maildir_get_self_server md maildir_server_default_init) m.user_name
    mail ← maildir_user_create_message fs user
    write_letter mail (m ∷ []) letter
    λ d. unchecked (maildir_message_finalize fs mail d)

  -- The first failure ends the loop.
  unfoldable pub send_to_each_self : Letter → List SmtpMailbox → Disk D (Unit {0})
  unfolding send_to_self
  send_to_each_self letter [] = pure tt
  send_to_each_self letter (m ∷ ms) = send_to_self letter m >> send_to_each_self letter ms

  -- `table_get` of the key, whose result is not tested for NULL.
  abbrev pub recipients_of : Option (Vector SmtpMailbox) → Option (List SmtpMailbox)
  recipients_of none = none
  recipients_of (some v) = some v.array

  -- The body of the loop over the other servers.
  unfoldable pub send_to_server : Letter → RecipientsTable → List ℕ → Disk D (Unit {0})
  unfolding server_or_created maildir_server_user write_letter maildir_user_create_message
      maildir_message_finalize table_get
  send_to_server letter table key = do
    server ← server_or_created key
    user ← maildir_server_user fs server []
    mail ← maildir_user_create_message fs user
    rcpts ← or_fault (recipients_of (table_get table key))
    write_letter mail rcpts letter
    maildir_message_finalize fs mail

  -- A failure is remembered, and the loop goes on.
  unfoldable pub send_to_each_server : Letter → RecipientsTable → List (List ℕ) → Disk D Bool
  unfolding send_to_server
  send_to_each_server letter table [] d = done true d
  send_to_each_server letter table (key ∷ keys) d = elim (send_to_server letter table key d) [
    | fault ↦ fault
    | failed _ _ d' ↦ and_then (send_to_each_server letter table keys d') (λ _. pure false)
    | done _ d' ↦ send_to_each_server letter table keys d'
  ]

  unfoldable pub send_to_servers : Letter → List SmtpMailbox → Disk D Bool
  unfolding group_recipients send_to_each_server table_keys table_init Vector.init
  send_to_servers letter [] = pure true
  send_to_servers letter (m ∷ ms) = do
    table ← or_fault (group_recipients table_init (m ∷ ms))
    keys ← or_fault (table_keys table Vector.init)
    send_to_each_server letter table keys.array

  -- Those of this server first; then the others, unless one of them failed.
  unfoldable pub send_parted : Letter → Parted → Disk D Bool
  unfolding send_to_each_self send_to_servers
  send_parted letter parted d = elim (send_to_each_self letter parted.self_recipients.array d) [
    | fault ↦ fault
    | failed _ _ d' ↦ done false d'
    | done _ d' ↦ send_to_servers letter parted.foreign_recipients.array d'
  ]

  -- A mail without recipients is refused, and its text is gone all the same.
  unfoldable pub send_to : List ℕ → Letter → List SmtpMailbox → Disk D Bool
  unfolding send_parted part_recipients Vector.init
  send_to self_name letter [] d = done false d
  send_to self_name letter (m ∷ ms) d =
      elim (part_recipients self_name
        (record { self_recipients = Vector.init; foreign_recipients = Vector.init }) (m ∷ ms)) [
          | none ↦ fault
          | some parted ↦ send_parted letter parted d
        ]

  -- A sender that is NULL is read.
  unfoldable pub send_mail : List ℕ → SmtpState → Disk D (Bool × SmtpState)
  unfolding send_to smtp_move_buffer
  send_mail self_name smtp d = elim smtp.mail_from [
    | none ↦ fault
    | some sender ↦
        let (text, next) = smtp_move_buffer smtp in
        and_then
          (send_to self_name (record { sender = sender; message = text }) smtp.rcpt_list.array d)
          (λ status. pure (status, next))
  ]
