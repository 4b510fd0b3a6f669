-- ===== src/Server/Directories.antt =====
-- The servers and users that `send_mail` of server/src/lib/server/server.c finds or makes in the
-- directory of mails, and their directories.
use postman.Prelude.{
  ℕ, zero, suc, List, [], ◌∷◌, true, false, ◌&&◌, Bool-cases, Option, none, some, ◌==◌, ◌≡◌, ◌⊎◌,
  refl, sym, ap, ◌∙◌, inl, inr,
}
use mathlib.Core.Path.{subst}
use postman.Text.Concat.{concat_new}
use postman.EventLoop.Event.{ErrorType}
use postman.Smtp.State.{bytes}
use postman.Maildir.{
  FileSystem, Ending, fault, failed, done, Maildir, MaildirServer, MaildirUser, other_servers,
  slash,
}
use postman.Maildir.Accounts.{
  maildir_server_default_init, maildir_get_self_server, maildir_get_server, maildir_create_server,
  maildir_server_user, maildir_server_create_user, create_directories, user_path, opened_directory,
  pr_maildir_char_concatenate, pr_maildir_server_mkdir,
}
use postman.Maildir.Message.{pr_maildir_make_full_path}
use postman.Maildir.Laws.{and_then-done, done_value}
use postman.Server.Send.{
  is_errno, is_not_found, unless_user, user_or_created, named_user, whatever_created, unless_server,
  server_or_created,
}

opened_directory-done :
    {D A : Type 0} (t : ErrorType) (n : ℕ) (a b : A) (d e : D)
    → opened_directory t n a d ≡ done b e
    → b ≡ a
opened_directory-done t zero a b d e h = sym (done_value h)
opened_directory-done t (suc n) a b d e h = elim (Bool-cases (n == 1)) [
  | inl c ↦ absurd (cc (rw c at h))
  | inr c ↦ absurd (cc (rw c at h))
]

-- Another server, as `maildir_get_server` and `maildir_create_server` give it.
abbrev pub other_server : Maildir → List ℕ → MaildirServer
other_server md key = record { pr_server_domain = key; is_self = false; pr_md = some md }

module _ {D : Type 0} (fs : FileSystem D) (md : Maildir) where
  created-done :
      (key : List ℕ) (s : MaildirServer) (d e : D)
      → maildir_create_server fs md maildir_server_default_init key d ≡ done s e
      → s ≡ other_server md key
  unfolding maildir_create_server maildir_server_default_init
  created-done key s d e h =
      let server_path = pr_maildir_char_concatenate md (other_servers ∷ key ∷ []) in
      let tmp = pr_maildir_char_concatenate md (other_servers ∷ key ∷ slash ∷ bytes "tmp" ∷ []) in
      let (_, d1, _, h1) = and_then-done (pr_maildir_server_mkdir fs server_path d) _ s e h in
      let (_, d2, _, h2) = and_then-done (pr_maildir_server_mkdir fs tmp d1) _ s e h1 in
      sym (done_value h2)

  -- A server that was found or made, or the one that has no maildir.
  abbrev pub Known : List ℕ → MaildirServer → Type 0
  Known key s = (s ≡ other_server md key) ⊎ (s.pr_md ≡ none)

  whatever-Known :
      (key : List ℕ) (r : Ending D MaildirServer) (s : MaildirServer) (e : D)
      → ((t : MaildirServer) (f : D) → r ≡ done t f → t ≡ other_server md key)
      → whatever_created fs md r ≡ done s e
      → Known key s
  unfolding whatever_created maildir_server_default_init
  whatever-Known key fault s e k h = absurd (cc h)
  whatever-Known key (failed _ _ d) s e k h = inr (ap (λ x. x.pr_md) (sym (done_value h)))
  whatever-Known key (done t d) s e k h = inl (sym (done_value h) ∙ k t d refl)

  unless-Known :
      (key : List ℕ) (r : Ending D MaildirServer) (s : MaildirServer) (e : D)
      → ((t : MaildirServer) (f : D) → r ≡ done t f → t ≡ other_server md key)
      → unless_server fs md key r ≡ done s e
      → Known key s
  unfolding unless_server
  unless-Known key fault s e k h = absurd (cc h)
  unless-Known key (failed t n d) s e k h = elim (Bool-cases (is_not_found t)) [
    | inl c ↦ whatever-Known key _ s e (λ u f. created-done key u d f) (rw c at h)
    | inr c ↦ absurd (cc (rw c at h))
  ]
  unless-Known key (done t d) s e k h = inl (sym (done_value h) ∙ k t d refl)

  get-done :
      (key : List ℕ) (s : MaildirServer) (d e : D)
      → maildir_get_server fs md maildir_server_default_init key d ≡ done s e
      → s ≡ other_server md key
  unfolding maildir_get_server
  get-done key s d e h =
      opened_directory-done ErrorType.not_found
        (fs.opendir (pr_maildir_char_concatenate md (other_servers ∷ key ∷ [])) d)
        (other_server md key) s d e h

  pub server_or_created-Known :
      (key : List ℕ) (s : MaildirServer) (d e : D)
      → server_or_created fs md key d ≡ done s e
      → Known key s
  unfolding server_or_created
  server_or_created-Known key s d e h =
      unless-Known key (maildir_get_server fs md maildir_server_default_init key d) s e
        (λ t f g. get-done key t d f g) h

  abbrev pub other_user : List ℕ → MaildirUser
  other_user key = record { pr_server = other_server md key; pr_login = [] }

  -- The user of another server; its name is empty.
  pub server_user-done :
      (key : List ℕ) (s : MaildirServer) (u : MaildirUser) (d e : D)
      → Known key s
      → maildir_server_user fs s [] d ≡ done u e
      → u ≡ other_user key
  unfolding maildir_server_user
  server_user-done key s u d e (inl k) h =
      opened_directory-done ErrorType.errno (fs.opendir (user_path md false []) d) (other_user key)
        u d e (subst (λ x. maildir_server_user fs x [] d ≡ done u e) k h)
  server_user-done key s u d e (inr k) h = absurd (cc (rw (k, maildir_server_user) at h))

  pub other_directory :
      (key : List ℕ)
      → pr_maildir_make_full_path (other_user key) ≡ some (concat_new md (other_servers ∷ key ∷ []))
  unfolding pr_maildir_make_full_path
  other_directory key = refl

  abbrev pub self_server : MaildirServer
  self_server = record { pr_server_domain = []; is_self = true; pr_md = some md }

  abbrev pub self_user : List ℕ → MaildirUser
  self_user name = record { pr_server = self_server; pr_login = name }

  create_user-done :
      (name : List ℕ) (u : MaildirUser) (d e : D)
      → maildir_server_create_user fs self_server name d ≡ done u e
      → u ≡ self_user name
  unfolding maildir_server_create_user
  create_user-done name u d e h =
      let (_, _, _, made) =
        and_then-done (create_directories fs (concat_new md (slash ∷ name ∷ [])) d) _ u e h in
      sym (done_value made)

  unless_user-done :
      (name : List ℕ) (r : Ending D MaildirUser) (u : MaildirUser) (e : D)
      → ((t : MaildirUser) (f : D) → r ≡ done t f → t ≡ self_user name)
      → unless_user fs md self_server name r ≡ done u e
      → u ≡ self_user name
  unfolding unless_user
  unless_user-done name fault u e k h = absurd (cc h)
  unless_user-done name (failed t n d) u e k h = elim (Bool-cases (is_errno t && n == 2)) [
    | inl c ↦ create_user-done name u d e (rw c at h)
    | inr c ↦ absurd (cc (rw c at h))
  ]
  unless_user-done name (done t d) u e k h = sym (done_value h) ∙ k t d refl

  find_user-done :
      (name : List ℕ) (u : MaildirUser) (d e : D)
      → maildir_server_user fs self_server name d ≡ done u e
      → u ≡ self_user name
  unfolding maildir_server_user
  find_user-done name u d e h =
      opened_directory-done ErrorType.errno (fs.opendir (user_path md true name) d) (self_user name)
        u d e h

  pub named_user-done :
      (o : Option (List ℕ)) (u : MaildirUser) (d e : D)
      → named_user fs md (maildir_get_self_server md maildir_server_default_init) o d ≡ done u e
      → (name : List ℕ) × (o ≡ some name) × (u ≡ self_user name)
  unfolding named_user user_or_created maildir_get_self_server maildir_server_default_init
  named_user-done none u d e h = absurd (cc h)
  named_user-done (some name) u d e h = (
    name,
    refl,
    unless_user-done name (maildir_server_user fs self_server name d) u e
        (λ t f g. find_user-done name t d f g) h,
  )

  pub self_directory :
      (name : List ℕ)
      → pr_maildir_make_full_path (self_user name) ≡ some (concat_new md (slash ∷ name ∷ []))
  unfolding pr_maildir_make_full_path
  self_directory name = refl
