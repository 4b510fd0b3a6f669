-- ===== src/Server/Lost.antt =====
-- A server for which no directory can be made: `send_mail` of server/src/lib/server/server.c.
use postman.Prelude.{false, some, ℕ, suc, List, [], ◌∷◌, ◌≡◌, refl, sym, ap}
use mathlib.Core.Path.{subst}
use postman.Smtp.State.{bytes}
use postman.Maildir.{
  slash, pure, FileSystem, fault, failed, and_then, libc_result, Maildir, other_servers,
}
use postman.Maildir.Accounts.{
  maildir_server_default_init, maildir_get_server, maildir_create_server, maildir_server_user,
  pr_maildir_char_concatenate, pr_maildir_server_mkdir,
}
use postman.EventLoop.Event.{ErrorType}
use postman.Server.Table.{RecipientsTable}
use postman.Server.Send.{Letter, send_to_server, server_or_created, unless_server, whatever_created}

mkdir_fails :
    {D : Type 0} (r : ℕ × D) (n : ℕ)
    → r.0 ≡ suc n
    → libc_result r ≡ failed ErrorType.errno (suc n) r.1
mkdir_fails (m, d) n h =
    subst (λ k. libc_result (k, d) ≡ failed ErrorType.errno (suc n) d) (sym h) refl

module _ {D : Type 0} (fs : FileSystem D) (md : Maildir) (key : List ℕ) (d : D) where
  abbrev path : List ℕ
  path = pr_maildir_char_concatenate md (other_servers ∷ key ∷ [])

  not_there :
      fs.opendir path d ≡ 2
      → maildir_get_server fs md maildir_server_default_init key d ≡ failed ErrorType.not_found 2 d
  unfolding maildir_get_server
  not_there h = rw h refl

  not_made :
      (n : ℕ)
      → (fs.mkdir path d).0 ≡ suc n
      → maildir_create_server fs md maildir_server_default_init key d
        ≡ failed ErrorType.errno (suc n) (fs.mkdir path d).1
  unfolding maildir_create_server pr_maildir_server_mkdir
  not_made n h =
      ap
        (λ r. and_then r (λ _. λ e.
          and_then
            (pr_maildir_server_mkdir fs
              (pr_maildir_char_concatenate md (other_servers ∷ key ∷ slash ∷ bytes "tmp" ∷ [])) e)
            (λ _. pure (record maildir_server_default_init {
              pr_server_domain = key;
              pr_md = some md;
              is_self = false;
            }))))
        (mkdir_fails (fs.mkdir path d) n h)

  -- If the directory of another server is not there and cannot be made, then `send_to_server`
  -- reads through NULL.
  pub send_to_server-lost :
      (n : ℕ) (letter : Letter) (table : RecipientsTable)
      → fs.opendir (pr_maildir_char_concatenate md (other_servers ∷ key ∷ [])) d ≡ 2
      → (fs.mkdir (pr_maildir_char_concatenate md (other_servers ∷ key ∷ [])) d).0 ≡ suc n
      → send_to_server fs md letter table key d ≡ fault
  unfolding send_to_server server_or_created unless_server whatever_created maildir_server_user
      maildir_server_default_init
  send_to_server-lost n letter table h k = rw (not_there h, not_made n k) refl
