-- ===== src/Server/Delivered.antt =====
-- What `send_mail` of server/src/lib/server/server.c leaves in the directory of mails.
use postman.Prelude.{
  ℕ, zero, suc, Bool-cases, false, List, [], ◌∷◌, ◌++◌, true, false, Option, none, some, ◌≡◌, ◌⊎◌,
  refl, sym, ap, ◌∙◌, inl, inr,
}
use mathlib.Core.Path.{subst}
use postman.Smtp.State.{SmtpMailbox}
use postman.Maildir.{
  FileSystem, done, libc_result, Maildir, MaildirUser, other_servers, slash, MaildirMessage,
}
use postman.Maildir.Message.{
  maildir_user_create_message, maildir_message_finalize, new_path, tmp_path,
  pr_maildir_make_full_path,
}
use postman.Maildir.Laws.{IsFileSystem, Took, and_then-done, done_state}
use postman.Maildir.Written.{
  Holds, create_message-Holds, finalize-new, finalize-either, finalize-renamed, renamed,
}
use postman.Server.Mail.{make_x_headers}
use postman.Vector.{Vector}
use postman.Text.Concat.{concat_new}
use postman.Maildir.Accounts.{
  maildir_server_user, maildir_get_self_server, maildir_server_default_init,
}
use postman.Server.Table.{RecipientsTable, table_get}
use postman.Server.Directories.{
  server_or_created-Known, server_user-done, other_user, other_directory, named_user-done,
  self_user, self_directory,
}
use postman.Server.Send.{
  server_or_created, recipients_of, named_user, Letter, or_fault, unchecked, write_letter,
  send_to_self, send_to_server,
}
use postman.Server.Letters.{or_fault-done, write_letter-Holds}

path_injective : {a b : List ℕ} → some a ≡ some b → a ≡ b
path_injective h = cc

rcpts_injective : {a b : List SmtpMailbox} → some a ≡ some b → a ≡ b
rcpts_injective h = cc

-- The headers for some recipients and the text of a letter behind them, each as far as a call of
-- fwrite on a stream took it, were written on it last before a state.
abbrev pub IsLetter :
    {D : Type 0} → FileSystem D → List ℕ → List SmtpMailbox → Letter → List ℕ → D → Type 0
IsLetter {D = D} fs p rcpts letter text last =
    (start : D) × (mid : D) × (headers : List ℕ) × (front : List ℕ) × (back : List ℕ)
    × (make_x_headers (fs.timestamp start) rcpts letter.sender ≡ some headers)
    × Took fs p headers front start mid
    × Took fs p letter.message back mid last
    × (text ≡ front ++ back)

-- A run ends with them: the stream is closed behind them and the file renamed. A file, the one at the
-- stream's path or at its new one, holds them and nothing else.
abbrev pub HoldsLetter :
    {D : Type 0} {fs : FileSystem D}
    → IsFileSystem fs
    → D
    → List ℕ
    → List ℕ
    → List ℕ
    → List SmtpMailbox
    → Letter
    → Type 0
HoldsLetter {D = D} {fs = fs} law e path p q rcpts letter =
    (text : List ℕ) × (last : D) × IsLetter fs p rcpts letter text last
    × ((fs.rename p q (fs.fclose p last).1).1 ≡ e)
    × (law.content e path ≡ some text)

-- A run ends with them in the same way, but that close of the stream failed.
abbrev pub IsCut :
    {D : Type 0} {fs : FileSystem D}
    → IsFileSystem fs
    → D
    → List ℕ
    → List ℕ
    → List SmtpMailbox
    → Letter
    → Type 0
IsCut {D = D} {fs = fs} law e p q rcpts letter =
    (text : List ℕ) × (last : D) × IsLetter fs p rcpts letter text last
    × ((fs.rename p q (fs.fclose p last).1).1 ≡ e)
    × (law.stream last p ≡ some text)
    × ((fs.fclose p last).0 ≡ false)

module _ {D : Type 0} (fs : FileSystem D) (law : IsFileSystem fs) (md : Maildir)
    (letter : Letter) where
  -- What was written of a new mail.
  begun :
      (user : MaildirUser) (mail : MaildirMessage) (directory : List ℕ) (rcpts : List SmtpMailbox)
      (d d1 d2 : D)
      → pr_maildir_make_full_path user ≡ some directory
      → maildir_user_create_message fs user d ≡ done mail d1
      → write_letter fs md mail rcpts letter d1 ≡ done tt d2
      → (text : List ℕ) × (mail.pr_user ≡ user)
        × IsLetter fs mail.pr_fd rcpts letter text d2
        × Holds fs law mail directory text d2
  begun user mail directory rcpts d d1 d2 dir h1 h2 =
      let (found, same, empty) = create_message-Holds fs law user mail d d1 h1 in
      let place : found ≡ directory =
        path_injective (sym empty.directory_of ∙ ap pr_maildir_make_full_path same ∙ dir) in
      let (headers, front, back, mid, made, took, also, whole) =
        write_letter-Holds fs law md mail directory rcpts letter d1 d2
          (subst (λ x. Holds fs law mail x [] d1) place empty) h2 in
      (front ++ back, same, (d1, mid, headers, front, back, made, took, also, refl), whole)

  -- The path of the stream is that of the file.
  by_stream :
      (mail : MaildirMessage) (directory text : List ℕ) (d e : D)
      → Holds fs law mail directory text d
      → (renamed fs law mail directory d).1 ≡ e
      → (fs.rename mail.pr_fd
          (new_path mail.pr_user.pr_server.is_self directory mail.pr_filename)
          (fs.fclose mail.pr_fd d).1).1
        ≡ e
  by_stream mail directory text d e w h =
      ap
        (λ p.
          (fs.rename p (new_path mail.pr_user.pr_server.is_self directory mail.pr_filename)
            (fs.fclose mail.pr_fd d).1).1)
        w.stream_of
      ∙ h

  cut :
      (mail : MaildirMessage) (directory text : List ℕ) (rcpts : List SmtpMailbox) (d e : D)
      → IsLetter fs mail.pr_fd rcpts letter text d
      → Holds fs law mail directory text d
      → (renamed fs law mail directory d).1 ≡ e
      → (fs.fclose mail.pr_fd d).0 ≡ false
      → IsCut law e
          (tmp_path directory mail.pr_filename)
          (new_path mail.pr_user.pr_server.is_self directory mail.pr_filename)
          rcpts
          letter
  cut mail directory text rcpts d e t w h c =
      subst
        (λ p.
          IsCut law e p (new_path mail.pr_user.pr_server.is_self directory mail.pr_filename) rcpts
            letter)
        w.stream_of (text, d, t, by_stream mail directory text d e w h, w.text_of, c)

  held :
      (mail : MaildirMessage) (directory text path : List ℕ) (rcpts : List SmtpMailbox) (d e : D)
      → IsLetter fs mail.pr_fd rcpts letter text d
      → Holds fs law mail directory text d
      → (renamed fs law mail directory d).1 ≡ e
      → law.content e path ≡ some text
      → HoldsLetter law e path
          (tmp_path directory mail.pr_filename)
          (new_path mail.pr_user.pr_server.is_self directory mail.pr_filename)
          rcpts
          letter
  held mail directory text path rcpts d e t w h c =
      subst
        (λ p.
          HoldsLetter law e path p
            (new_path mail.pr_user.pr_server.is_self directory mail.pr_filename) rcpts letter)
        w.stream_of (text, d, t, by_stream mail directory text d e w h, c)

  -- Where a mail for another server is once its work was ended with success.
  abbrev Arrived : List ℕ → List ℕ → List SmtpMailbox → D → Type 0
  Arrived p q rcpts e = HoldsLetter law e q p q rcpts letter ⊎ IsCut law e p q rcpts letter

  -- The mail that was written and finalized.
  finished :
      (user : MaildirUser) (mail : MaildirMessage) (directory : List ℕ) (rcpts : List SmtpMailbox)
      (d d1 d2 e : D)
      → pr_maildir_make_full_path user ≡ some directory
      → maildir_user_create_message fs user d ≡ done mail d1
      → write_letter fs md mail rcpts letter d1 ≡ done tt d2
      → maildir_message_finalize fs mail d2 ≡ done tt e
      → Arrived
          (tmp_path directory mail.pr_filename)
          (new_path user.pr_server.is_self directory mail.pr_filename)
          rcpts
          e
  finished user mail directory rcpts d d1 d2 e dir h1 h2 h3 =
      let (text, same, is_letter, whole) = begun user mail directory rcpts d d1 d2 dir h1 h2 in
      let (by_rename, ended) = finalize-new fs law mail directory text d2 e whole h3 in
      subst
        (λ u.
          Arrived (tmp_path directory mail.pr_filename)
            (new_path u.pr_server.is_self directory mail.pr_filename) rcpts e)
        same
        (elim ended [
          | inl c ↦ inl (held mail directory text _ rcpts d2 e is_letter whole by_rename c)
          | inr c ↦ inr (cut mail directory text rcpts d2 e is_letter whole by_rename c)
        ])

  recipients_of-some :
      (o : Option (Vector SmtpMailbox)) (rcpts : List SmtpMailbox)
      → recipients_of fs md o ≡ some rcpts
      → (v : Vector SmtpMailbox) × (o ≡ some v) × (v.array ≡ rcpts)
  recipients_of-some none rcpts h = absurd (cc h)
  recipients_of-some (some v) rcpts h = (v, refl, rcpts_injective h)

  to_other :
      (table : RecipientsTable) (key : List ℕ) (user : MaildirUser) (mail : MaildirMessage)
      (rcpts : List SmtpMailbox) (d2 d3 d4 d5 e : D)
      → user ≡ other_user fs md key
      → maildir_user_create_message fs user d2 ≡ done mail d3
      → or_fault (recipients_of fs md (table_get table key)) d3 ≡ done rcpts d4
      → write_letter fs md mail rcpts letter d4 ≡ done tt d5
      → maildir_message_finalize fs mail d5 ≡ done tt e
      → (v : Vector SmtpMailbox) × (name : List ℕ) × (table_get table key ≡ some v)
        × (HoldsLetter law e
              (new_path false (concat_new md (other_servers ∷ key ∷ [])) name)
              (tmp_path (concat_new md (other_servers ∷ key ∷ [])) name)
              (new_path false (concat_new md (other_servers ∷ key ∷ [])) name)
              v.array
              letter
            ⊎ IsCut law e
                (tmp_path (concat_new md (other_servers ∷ key ∷ [])) name)
                (new_path false (concat_new md (other_servers ∷ key ∷ [])) name)
                v.array
                letter)
  to_other table key user mail rcpts d2 d3 d4 d5 e same h3 h4 h5 r5 =
      let (found, state) =
        or_fault-done fs law md (recipients_of fs md (table_get table key)) rcpts d3 d4 h4 in
      let (v, there, all_of) = recipients_of-some (table_get table key) rcpts found in
      let directory = concat_new md (other_servers ∷ key ∷ []) in
      (
        v,
        mail.pr_filename,
        there,
        subst
            (λ x.
              Arrived (tmp_path directory mail.pr_filename)
                (new_path false directory mail.pr_filename) x e)
            (sym all_of)
            (finished (other_user fs md key) mail directory rcpts d2 d3 d5 e
              (other_directory fs md key)
              (subst (λ u. maildir_user_create_message fs u d2 ≡ done mail d3) same h3)
              (subst (λ x. write_letter fs md mail rcpts letter x ≡ done tt d5) (sym state) h5) r5),
      )

  -- If the calls of libc keep the laws in IsFileSystem and `send_to_server` succeeds, then the
  -- table has recipients for the key, and the run ends with calls that write the headers for them
  -- and behind them the text of the mail to a stream in `tmp`, each as far as a call of fwrite
  -- took it, which is all of it or a front part that is not nothing, close the stream, and rename
  -- its file into the directory of that server; the file there holds exactly what was written, or
  -- the close of the stream, whose result is not looked at, has failed.
  pub send_to_server-Holds :
      (table : RecipientsTable) (key : List ℕ) (d e : D)
      → send_to_server fs md letter table key d ≡ done tt e
      → (v : Vector SmtpMailbox) × (name : List ℕ) × (table_get table key ≡ some v)
        × (HoldsLetter law e
              (new_path false (concat_new md (other_servers ∷ key ∷ [])) name)
              (tmp_path (concat_new md (other_servers ∷ key ∷ [])) name)
              (new_path false (concat_new md (other_servers ∷ key ∷ [])) name)
              v.array
              letter
            ⊎ IsCut law e
                (tmp_path (concat_new md (other_servers ∷ key ∷ [])) name)
                (new_path false (concat_new md (other_servers ∷ key ∷ [])) name)
                v.array
                letter)
  unfolding send_to_server
  send_to_server-Holds table key d e h =
      let (server, d1, h1, r1) = and_then-done (server_or_created fs md key d) _ tt e h in
      let (user, d2, h2, r2) = and_then-done (maildir_server_user fs server [] d1) _ tt e r1 in
      let (mail, d3, h3, r3) = and_then-done (maildir_user_create_message fs user d2) _ tt e r2 in
      let (rcpts, d4, h4, r4) =
        and_then-done (or_fault (recipients_of fs md (table_get table key)) d3) _ tt e r3 in
      let (_, d5, h5, r5) = and_then-done (write_letter fs md mail rcpts letter d4) _ tt e r4 in
      let same =
        server_user-done fs md key server user d1 d2
          (server_or_created-Known fs md key server d d1 h1) h2 in
      to_other table key user mail rcpts d2 d3 d4 d5 e same h3 h4 h5 r5

  unchecked-libc_result : (r : ℕ × D) (e : D) → unchecked (libc_result r) ≡ done tt e → r.1 ≡ e
  unchecked-libc_result (zero, d) e h = done_state h
  unchecked-libc_result (suc n, d) e h = done_state h

  -- Where the mail is once its work was ended, with or without success.
  Somewhere : MaildirUser → MaildirMessage → List ℕ → List SmtpMailbox → D → Type 0
  Somewhere user mail directory rcpts e =
      let p = tmp_path directory mail.pr_filename in
      let q = new_path user.pr_server.is_self directory mail.pr_filename in
      HoldsLetter law e q p q rcpts letter
      ⊎ (HoldsLetter law e p p q rcpts letter ⊎ IsCut law e p q rcpts letter)

  renamed-Somewhere :
      (mail : MaildirMessage) (directory text : List ℕ) (rcpts : List SmtpMailbox) (d : D)
      → IsLetter fs mail.pr_fd rcpts letter text d
      → Holds fs law mail directory text d
      → Somewhere mail.pr_user mail directory rcpts (renamed fs law mail directory d).1
  unfolding Somewhere
  renamed-Somewhere mail directory text rcpts d t w =
      let e = (renamed fs law mail directory d).1 in
      elim (Bool-cases (fs.fclose mail.pr_fd d).0) [
        | inr c ↦ inr (inr (cut mail directory text rcpts d e t w refl c))
        | inl c ↦ elim (finalize-either fs law mail directory text d w c) [
          | inl new ↦ inl (held mail directory text _ rcpts d e t w refl new)
          | inr tmp ↦ inr (inl (held mail directory text _ rcpts d e t w refl tmp))
        ]
      ]

  to_self :
      (user : MaildirUser) (mail : MaildirMessage) (directory : List ℕ) (rcpts : List SmtpMailbox)
      (d d1 d2 e : D)
      → pr_maildir_make_full_path user ≡ some directory
      → maildir_user_create_message fs user d ≡ done mail d1
      → write_letter fs md mail rcpts letter d1 ≡ done tt d2
      → unchecked (maildir_message_finalize fs mail d2) ≡ done tt e
      → Somewhere user mail directory rcpts e
  to_self user mail directory rcpts d d1 d2 e dir h1 h2 h3 =
      let (text, same, is_letter, whole) = begun user mail directory rcpts d d1 d2 dir h1 h2 in
      subst (λ u. Somewhere u mail directory rcpts e) same
        (subst (λ x. Somewhere mail.pr_user mail directory rcpts x)
          (unchecked-libc_result (renamed fs law mail directory d2) e
            (ap unchecked (sym (finalize-renamed fs law mail directory text d2 whole)) ∙ h3))
          (renamed-Somewhere mail directory text rcpts d2 is_letter whole))

  -- If the calls of libc keep the laws in IsFileSystem and `send_to_self` succeeds, then the
  -- recipient has a name, and the run ends with calls that write the headers for it and behind
  -- them the text of the mail to a stream in `tmp`, each as far as a call of fwrite took it, which
  -- is all of it or a front part that is not nothing, close the stream, and rename its file into
  -- the directory `new` of that user; the file there, or the one in `tmp`, holds exactly what was
  -- written, or the close of the stream, whose result is not looked at, has failed.
  pub send_to_self-Holds :
      (m : SmtpMailbox) (d e : D)
      → send_to_self fs md letter m d ≡ done tt e
      → (user : List ℕ) × (name : List ℕ) × (m.user_name ≡ some user)
        × (HoldsLetter law e
              (new_path true (concat_new md (slash ∷ user ∷ [])) name)
              (tmp_path (concat_new md (slash ∷ user ∷ [])) name)
              (new_path true (concat_new md (slash ∷ user ∷ [])) name)
              (m ∷ [])
              letter
            ⊎ (HoldsLetter law e
                  (tmp_path (concat_new md (slash ∷ user ∷ [])) name)
                  (tmp_path (concat_new md (slash ∷ user ∷ [])) name)
                  (new_path true (concat_new md (slash ∷ user ∷ [])) name)
                  (m ∷ [])
                  letter
                ⊎ IsCut law e
                    (tmp_path (concat_new md (slash ∷ user ∷ [])) name)
                    (new_path true (concat_new md (slash ∷ user ∷ [])) name)
                    (m ∷ [])
                    letter))
  unfolding send_to_self Somewhere
  send_to_self-Holds m d e h =
      let (user, d1, h1, r1) =
        and_then-done
          (named_user fs md (maildir_get_self_server md maildir_server_default_init) m.user_name d)
          _ tt e h in
      let (mail, d2, h2, r2) = and_then-done (maildir_user_create_message fs user d1) _ tt e r1 in
      let (_, d3, h3, r3) = and_then-done (write_letter fs md mail (m ∷ []) letter d2) _ tt e r2 in
      let (name, named, same) = named_user-done fs md m.user_name user d d1 h1 in
      (
        name,
        mail.pr_filename,
        named,
        to_self (self_user fs md name) mail (concat_new md (slash ∷ name ∷ [])) (m ∷ []) d1 d2 d3 e
            (self_directory fs md name)
            (subst (λ u. maildir_user_create_message fs u d1 ≡ done mail d2) same h2) h3 r3,
      )
