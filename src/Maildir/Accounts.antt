-- ===== src/Maildir/Accounts.antt =====
-- Servers and users of a mail directory: server/src/lib/maildir/maildir.c,
-- server/src/lib/maildir/server.c and a part of server/src/lib/maildir/user.c.
use postman.Prelude.{
  ℕ, zero, suc, List, [], ◌∷◌, Bool, true, false, none, some, ◌==◌, if◌then◌else◌, length,
}
use postman.Text.Concat.{concat_new, copy_strings}
use postman.EventLoop.Event.{ErrorType}
use postman.Smtp.State.{bytes}
use postman.Maildir.{
  FileSystem, fault, failed, done, Disk, pure, ◌>>◌, libc_result, Maildir, MaildirServer,
  MaildirUser, other_servers, slash,
}

-- The second loop of `pr_maildir_char_concatenate` copies each string behind the last.
unfoldable pub pr_maildir_char_concatenate : List ℕ → List (List ℕ) → List ℕ
unfolding copy_strings
pr_maildir_char_concatenate str rest = copy_strings 0 (length str) rest str

unfoldable pub maildir_server_default_init : MaildirServer
maildir_server_default_init = record { pr_server_domain = []; is_self = false; pr_md = none }

unfoldable pub maildir_get_self_server : Maildir → MaildirServer → MaildirServer
maildir_get_self_server md server = record server { is_self = true; pr_md = some md }

-- ENOENT is 2.
abbrev pub opened_directory : {D A : Type 0} → ErrorType → ℕ → A → Disk D A
opened_directory not_there zero a d = done a d
opened_directory not_there (suc n) a d =
    if n == 1 then failed not_there (suc n) d else failed ErrorType.errno (suc n) d

-- The path that `maildir_server_user` asks for; the name matters for this server only.
unfoldable pub user_path : Maildir → Bool → List ℕ → List ℕ
unfolding concat_new
user_path md is_self name =
    if is_self then concat_new md (slash ∷ name ∷ []) else concat_new md (other_servers ∷ [])

module _ {D : Type 0} (fs : FileSystem D) where
  unfoldable pub maildir_get_server : Maildir → MaildirServer → List ℕ → Disk D MaildirServer
  unfolding pr_maildir_char_concatenate
  maildir_get_server md server name d =
      opened_directory ErrorType.not_found
        (fs.opendir (pr_maildir_char_concatenate md (other_servers ∷ name ∷ [])) d)
        (record server { pr_server_domain = name; pr_md = some md; is_self = false }) d

  -- mkdir whose failure is ERRNO.
  unfoldable pub pr_maildir_server_mkdir : List ℕ → Disk D (Unit {0})
  pr_maildir_server_mkdir path d = libc_result (fs.mkdir path d)

  unfoldable pub maildir_create_server : Maildir → MaildirServer → List ℕ → Disk D MaildirServer
  unfolding pr_maildir_char_concatenate pr_maildir_server_mkdir
  maildir_create_server md server domain = do
    pr_maildir_server_mkdir (pr_maildir_char_concatenate md (other_servers ∷ domain ∷ []))
    pr_maildir_server_mkdir
        (pr_maildir_char_concatenate md (other_servers ∷ domain ∷ slash ∷ bytes "tmp" ∷ []))
    pure (record server { pr_server_domain = domain; pr_md = some md; is_self = false })

  -- The maildir of the server is read without a test for NULL.
  unfoldable pub maildir_server_user : MaildirServer → List ℕ → Disk D MaildirUser
  unfolding user_path
  maildir_server_user server name d = elim server.pr_md [
    | none ↦ fault
    | some md ↦
        opened_directory ErrorType.errno (fs.opendir (user_path md server.is_self name) d)
          (record { pr_server = server; pr_login = name }) d
  ]

  unfoldable pub create_directories : List ℕ → Disk D (Unit {0})
  unfolding pr_maildir_server_mkdir concat_new
  create_directories path = do
    pr_maildir_server_mkdir path
    pr_maildir_server_mkdir (concat_new path (slash ∷ bytes "tmp" ∷ []))
    pr_maildir_server_mkdir (concat_new path (slash ∷ bytes "cur" ∷ []))
    pr_maildir_server_mkdir (concat_new path (slash ∷ bytes "new" ∷ []))

  -- The user of another server has no directories of its own.
  unfoldable pub maildir_server_create_user : MaildirServer → List ℕ → Disk D MaildirUser
  unfolding create_directories concat_new
  maildir_server_create_user server name d = elim server.pr_md [
    | none ↦ fault
    | some md ↦
        if server.is_self
        then (do
          create_directories (concat_new md (slash ∷ name ∷ []))
          pure (record { pr_server = server; pr_login = name }))
            d
        else done (record { pr_server = server; pr_login = name }) d
  ]
