-- ===== src/Maildir/Message.antt =====
-- The file of a mail: server/src/lib/maildir/message.c and `maildir_user_create_message` of
-- server/src/lib/maildir/user.c.
use postman.Prelude.{
  ℕ, zero, suc, List, [], ◌∷◌, Bool, true, false, ◌||◌, Option, none, some, ◌==◌, if◌then◌else◌,
  length,
}
use postman.Text.Concat.{concat_new}
use postman.EventLoop.Event.{ErrorType}
use postman.Smtp.State.{bytes}
use postman.Maildir.{
  FileSystem, Ending, fault, failed, done, Disk, ◌>>=◌, libc_result, MaildirUser, MessageType,
  type_new, type_tmp, MaildirMessage, other_servers, slash,
}

-- The directory of a user of this server, or that of another server; none is a use of NULL.
unfoldable pub pr_maildir_make_full_path : MaildirUser → Option (List ℕ)
unfolding concat_new
pr_maildir_make_full_path user = elim user.pr_server.pr_md [
  | none ↦ none
  | some md ↦ some (
      if user.pr_server.is_self
      then concat_new md (slash ∷ user.pr_login ∷ [])
      else concat_new md (other_servers ∷ user.pr_server.pr_server_domain ∷ []))
]

unfoldable pub tmp_path : List ℕ → List ℕ → List ℕ
unfolding concat_new
tmp_path directory name = concat_new directory (slash ∷ bytes "tmp" ∷ slash ∷ name ∷ [])

-- The mails of this server lie in `new`, those for another one in its directory.
unfoldable pub new_path : Bool → List ℕ → List ℕ → List ℕ
unfolding concat_new
new_path is_self directory name =
    if is_self
    then concat_new directory (slash ∷ bytes "new" ∷ slash ∷ name ∷ [])
    else concat_new directory (slash ∷ name ∷ [])

unfoldable pub is_new : MessageType → Bool
is_new type_new = true
is_new _ = false

module _ {D : Type 0} (fs : FileSystem D) where
  -- The loop for a name that neither directory has, by the attempts left: the last one fails whatever
  -- it finds.
  unfoldable pub free_name : ℕ → Bool → List ℕ → Disk D (List ℕ)
  unfolding tmp_path new_path
  free_name zero is_self directory d = failed ErrorType.fatal 0 d
  free_name (suc left) is_self directory d =
      let (name, e) = fs.file_name d in
      let taken =
        fs.readable (tmp_path directory name) e
        || fs.readable (new_path is_self directory name) e in
      let later = free_name left is_self directory e in
      if left == 0 then failed ErrorType.fatal 0 e else if taken then later else done name e

  -- fopen for writing.
  unfoldable pub open_message : MaildirUser → List ℕ → List ℕ → Disk D MaildirMessage
  open_message user path name d =
      let (made, e) = fs.create path d in
      if made
      then done
          (record {
            pr_user = user;
            pr_filename = name;
            pr_fd = path;
            pr_type = type_tmp;
            pr_is_open = true;
          })
          e
      else failed ErrorType.fatal 0 e

  -- MAX_NUM_ATTEMPTS_TO_CREATE_FILENAME is 10.
  unfoldable pub maildir_user_create_message : MaildirUser → Disk D MaildirMessage
  unfolding pr_maildir_make_full_path free_name open_message tmp_path
  maildir_user_create_message user d = elim (pr_maildir_make_full_path user) [
    | none ↦ fault
    | some directory ↦
        (do
          name ← free_name 10 user.pr_server.is_self directory
          open_message user (tmp_path directory name) name)
          d
  ]

  -- What fwrite takes is an error only if it is nothing.
  unfoldable pub written : ℕ × D → Ending D (Unit {0})
  written (n, d) = if n == 0 then failed ErrorType.fatal 0 d else done tt d

  unfoldable pub maildir_message_write : MaildirMessage → List ℕ → Disk D (Unit {0})
  unfolding written
  maildir_message_write message buffer d =
      if length buffer == 0
      then failed ErrorType.fatal 0 d
      else if message.pr_is_open
      then written (fs.fwrite message.pr_fd buffer d)
      else failed ErrorType.fatal 0 d

  -- The name in `tmp` becomes that of the mail.
  unfoldable pub rename_message : MaildirMessage → Disk D (Unit {0})
  unfolding pr_maildir_make_full_path tmp_path new_path
  rename_message message d = elim (pr_maildir_make_full_path message.pr_user) [
    | none ↦ fault
    | some directory ↦ libc_result (
        fs.rename (tmp_path directory message.pr_filename)
          (new_path message.pr_user.pr_server.is_self directory message.pr_filename) d)
  ]

  -- The stream is closed, whatever comes of it, and the mail leaves the directory `tmp`. Its type stays
  -- as it is; that it is not open any more is left out, since no caller uses it again.
  unfoldable pub maildir_message_finalize : MaildirMessage → Disk D (Unit {0})
  unfolding rename_message is_new
  maildir_message_finalize message d =
      if is_new message.pr_type
      then done tt d
      else if message.pr_is_open
      then rename_message message (fs.fclose message.pr_fd d).1
      else failed ErrorType.fatal 0 d
