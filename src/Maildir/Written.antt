-- ===== src/Maildir/Written.antt =====
-- What the functions of server/src/lib/maildir/message.c and `maildir_user_create_message` leave in
-- the files.
use postman.Prelude.{
  ℕ, zero, suc, List, [], ◌++◌, length, take, Bool, true, false, Bool-cases, some, Option-cases,
  ◌==◌, if◌then◌else◌, ==_iff, ◌≡◌, ◌≢◌, ◌⊎◌, refl, sym, ap, ◌∙◌, inl, inr, arith,
}
use mathlib.Core.Path.{subst}
use postman.Maildir.{
  FileSystem, Ending, done, and_then, libc_result, MaildirUser, type_tmp, MaildirMessage,
}
use postman.Maildir.Message.{
  pr_maildir_make_full_path, tmp_path, new_path, free_name, open_message,
  maildir_user_create_message, written, maildir_message_write, rename_message, is_new,
  maildir_message_finalize,
}
use postman.Maildir.Laws.{IsFileSystem, Took, and_then-done, done_state, done_value}

module _ {D : Type 0} (fs : FileSystem D) (law : IsFileSystem fs) where
  -- A mail whose file is open in the directory `tmp`, with a text written on its stream.
  pub record Holds (mail : MaildirMessage) (directory text : List ℕ) (d : D) : Type 0 where
    pub directory_of : pr_maildir_make_full_path mail.pr_user ≡ some directory
    pub stream_of : mail.pr_fd ≡ tmp_path directory mail.pr_filename
    pub tmp : mail.pr_type ≡ type_tmp
    pub is_open : mail.pr_is_open ≡ true
    pub text_of : law.stream d mail.pr_fd ≡ some text

  -- The mail that a successful fopen makes.
  open_mail : MaildirUser → List ℕ → List ℕ → MaildirMessage
  open_mail user path name = record {
    pr_user = user;
    pr_filename = name;
    pr_fd = path;
    pr_type = type_tmp;
    pr_is_open = true;
  }

  open_message-done :
      (user : MaildirUser) (path name : List ℕ) (mail : MaildirMessage) (d e : D)
      → open_message fs user path name d ≡ done mail e
      → (mail ≡ open_mail user path name) × (law.stream e path ≡ some [])
  unfolding open_message open_mail
  open_message-done user path name mail d e h = elim (Bool-cases (fs.create path d).0) [
    | inl c ↦
        let g = rw c at h in
        (
          sym (done_value g),
          subst (λ x. law.stream x path ≡ some []) (done_state g) (law.create_makes path d c),
        )
    | inr c ↦ absurd (cc (rw c at h))
  ]

  open_mail-Holds :
      (user : MaildirUser) (directory name : List ℕ) (mail : MaildirMessage) (d : D)
      → pr_maildir_make_full_path user ≡ some directory
      → mail ≡ open_mail user (tmp_path directory name) name
      → law.stream d (tmp_path directory name) ≡ some []
      → Holds mail directory [] d
  unfolding open_mail
  open_mail-Holds user directory name mail d dir e c =
      subst (λ m. Holds m directory [] d) (sym e)
        (record { directory_of = dir; stream_of = refl; tmp = refl; is_open = refl; text_of = c })

  create_message-eq :
      (user : MaildirUser) (directory : List ℕ) (d : D)
      → pr_maildir_make_full_path user ≡ some directory
      → maildir_user_create_message fs user d
        ≡ and_then
            (free_name fs 10 user.pr_server.is_self directory d)
            (λ name. open_message fs user (tmp_path directory name) name)
  unfolding maildir_user_create_message
  create_message-eq user directory d c = rw (c, maildir_user_create_message) refl

  -- A mail that was created is empty.
  pub create_message-Holds :
      (user : MaildirUser) (mail : MaildirMessage) (d e : D)
      → maildir_user_create_message fs user d ≡ done mail e
      → (directory : List ℕ) × (mail.pr_user ≡ user) × Holds mail directory [] e
  unfolding maildir_user_create_message open_mail
  create_message-Holds user mail d e h = elim (Option-cases (pr_maildir_make_full_path user)) [
    | inl c ↦ absurd (cc (rw (c, maildir_user_create_message) at h))
    | inr (directory, c) ↦
        let (name, f, named, made) =
          and_then-done (free_name fs 10 user.pr_server.is_self directory d)
            (λ name. open_message fs user (tmp_path directory name) name) mail e
            (sym (create_message-eq user directory d c) ∙ h) in
        let (same, empty) = open_message-done user (tmp_path directory name) name mail f e made in
        (
          directory,
          ap (λ m. m.pr_user) same,
          open_mail-Holds user directory name mail e c same empty,
        )
  ]

  written-done : (r : ℕ × D) (e : D) → written fs r ≡ done tt e → (r.0 ≢ 0) × (r.1 ≡ e)
  unfolding written
  written-done (n, d) e h = elim (Bool-cases (n == 0)) [
    | inl c ↦ absurd (cc (rw c at h))
    | inr c ↦ (λ z. ground (arith, ==_iff n 0, c, z), done_state (rw c at h))
  ]

  fwrite-done :
      (mail : MaildirMessage) (buffer : List ℕ) (d e : D)
      → mail.pr_is_open ≡ true
      → maildir_message_write fs mail buffer d ≡ done tt e
      → ((fs.fwrite mail.pr_fd buffer d).0 ≢ 0) × ((fs.fwrite mail.pr_fd buffer d).1 ≡ e)
  unfolding maildir_message_write
  fwrite-done mail buffer d e o h = elim (Bool-cases (length buffer == 0)) [
    | inl c ↦ absurd (cc (rw c at h))
    | inr c ↦ written-done (fs.fwrite mail.pr_fd buffer d) e (rw (c, o) at h)
  ]

  -- A write that succeeds adds what fwrite took.
  pub write-Holds :
      (mail : MaildirMessage) (directory text buffer : List ℕ) (d e : D)
      → Holds mail directory text d
      → maildir_message_write fs mail buffer d ≡ done tt e
      → (part : List ℕ) × Took fs mail.pr_fd buffer part d e × Holds mail directory (text ++ part) e
  write-Holds mail directory text buffer d e w h =
      let (some_written, same) = fwrite-done mail buffer d e w.is_open h in
      (
        take (fs.fwrite mail.pr_fd buffer d).0 buffer,
        inr (some_written, refl, same),
        record {
          directory_of = w.directory_of;
          stream_of = w.stream_of;
          tmp = w.tmp;
          is_open = w.is_open;
          text_of =
              subst
                (λ x.
                  law.stream x mail.pr_fd
                  ≡ some (text ++ take (fs.fwrite mail.pr_fd buffer d).0 buffer))
                same (law.fwrite_adds mail.pr_fd buffer text d w.text_of);
        },
      )

  libc_result-done : (r : ℕ × D) (e : D) → libc_result r ≡ done tt e → (r.0 ≡ 0) × (r.1 ≡ e)
  libc_result-done (zero, d) e h = (refl, done_state h)
  libc_result-done (suc n, d) e h = absurd (cc h)

  -- The rename that ends the work on a mail.
  abbrev pub renamed : MaildirMessage → List ℕ → D → ℕ × D
  renamed mail directory d =
      fs.rename (tmp_path directory mail.pr_filename)
        (new_path mail.pr_user.pr_server.is_self directory mail.pr_filename)
        (fs.fclose mail.pr_fd d).1

  rename_message-eq :
      (mail : MaildirMessage) (directory : List ℕ) (d : D)
      → pr_maildir_make_full_path mail.pr_user ≡ some directory
      → rename_message fs mail (fs.fclose mail.pr_fd d).1 ≡ libc_result (renamed mail directory d)
  unfolding rename_message
  rename_message-eq mail directory d c = rw (c, rename_message) refl

  if_false : {b : Bool} (x y : Ending D (Unit {0})) → b ≡ false → (if b then x else y) ≡ y
  if_false x y c = rw c refl

  if_true : {b : Bool} (x y : Ending D (Unit {0})) → b ≡ true → (if b then x else y) ≡ x
  if_true x y c = rw c refl

  is_new-tmp : is_new type_tmp ≡ false
  unfolding is_new
  is_new-tmp = refl

  pub finalize-renamed :
      (mail : MaildirMessage) (directory text : List ℕ) (d : D)
      → Holds mail directory text d
      → maildir_message_finalize fs mail d ≡ libc_result (renamed mail directory d)
  unfolding maildir_message_finalize
  finalize-renamed mail directory text d w =
      if_false _ _ (ap is_new w.tmp ∙ is_new-tmp)
      ∙ if_true _ _ w.is_open
      ∙ rename_message-eq mail directory d w.directory_of

  in_tmp :
      (mail : MaildirMessage) (directory text : List ℕ) (d : D)
      → Holds mail directory text d
      → (fs.fclose mail.pr_fd d).0 ≡ true
      → law.content (fs.fclose mail.pr_fd d).1 (tmp_path directory mail.pr_filename) ≡ some text
  in_tmp mail directory text d w c =
      ap (law.content (fs.fclose mail.pr_fd d).1) (sym w.stream_of)
      ∙ law.fclose_flushes mail.pr_fd text d w.text_of c

  -- The mail that is finalized is where the new ones are, if its stream could be closed.
  pub finalize-new :
      (mail : MaildirMessage) (directory text : List ℕ) (d e : D)
      → Holds mail directory text d
      → maildir_message_finalize fs mail d ≡ done tt e
      → ((renamed mail directory d).1 ≡ e)
        × ((law.content e (new_path mail.pr_user.pr_server.is_self directory mail.pr_filename)
              ≡ some text)
            ⊎ ((fs.fclose mail.pr_fd d).0 ≡ false))
  finalize-new mail directory text d e w h =
      let (ok, same) = libc_result-done _ e (sym (finalize-renamed mail directory text d w) ∙ h) in
      (
        same,
        elim (Bool-cases (fs.fclose mail.pr_fd d).0) [
          | inl c ↦ inl (
              subst
                (λ x.
                  law.content x (new_path mail.pr_user.pr_server.is_self directory mail.pr_filename)
                  ≡ some text)
                same (law.rename_moves _ _ _ ok ∙ in_tmp mail directory text d w c))
          | inr c ↦ inr c
        ],
      )

  -- Where the rename fails it stays in `tmp`.
  pub finalize-either :
      (mail : MaildirMessage) (directory text : List ℕ) (d : D)
      → Holds mail directory text d
      → (fs.fclose mail.pr_fd d).0 ≡ true
      → (law.content
            (renamed mail directory d).1
            (new_path mail.pr_user.pr_server.is_self directory mail.pr_filename)
          ≡ some text)
        ⊎ (law.content (renamed mail directory d).1 (tmp_path directory mail.pr_filename)
            ≡ some text)
  finalize-either mail directory text d w f =
      elim (Bool-cases ((renamed mail directory d).0 == 0)) [
        | inl c ↦ inl (law.rename_moves _ _ _ ((==_iff _ 0).0 c) ∙ in_tmp mail directory text d w f)
        | inr c ↦ inr (
            law.rename_fails _ _ _ _ (λ z. ground (arith, ==_iff _ 0, c, z))
            ∙ in_tmp mail directory text d w f)
      ]
