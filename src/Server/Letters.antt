-- ===== src/Server/Letters.antt =====
-- What `write_letter`, a part of `send_mail` of server/src/lib/server/server.c, leaves in a file.
use postman.Prelude.{
  ℕ, List, [], ◌∷◌, ◌++◌, length, append-nil, Bool-cases, Option, none, some, ◌==◌, ==_iff,
  if◌then◌else◌, ◌≡◌, refl, sym, ap, inl, inr, arith,
}
use mathlib.Core.Path.{subst}
use postman.Smtp.State.{SmtpMailbox}
use postman.Maildir.{FileSystem, done, pure, Maildir, MaildirMessage}
use postman.Maildir.Message.{maildir_message_write}
use postman.Maildir.Laws.{IsFileSystem, Took, and_then-done, done_state, done_value}
use postman.Maildir.Written.{Holds, write-Holds}
use postman.Server.Mail.{make_x_headers}
use postman.Server.Send.{Letter, or_fault, write_letter}

module _ {D : Type 0} (fs : FileSystem D) (law : IsFileSystem fs) (md : Maildir) where
  pub or_fault-done :
      {A : Type 0} (o : Option A) (a : A) (d e : D)
      → or_fault o d ≡ done a e
      → (o ≡ some a) × (d ≡ e)
  or_fault-done none a d e h = absurd (cc h)
  or_fault-done (some b) a d e h = (ap some (done_value h), done_state h)

  nothing : (xs : List ℕ) → length xs ≡ 0 → xs ≡ []
  nothing [] h = refl
  nothing (x ∷ xs) h = absurd (omega (arith, h))

  -- The text, if there is one.
  write_text-Holds :
      (mail : MaildirMessage) (directory text message : List ℕ) (d e : D)
      → Holds fs law mail directory text d
      → (if length message == 0 then pure tt else maildir_message_write fs mail message) d
        ≡ done tt e
      → (part : List ℕ) × Took fs mail.pr_fd message part d e
        × Holds fs law mail directory (text ++ part) e
  write_text-Holds mail directory text message d e w h = elim (Bool-cases (length message == 0)) [
    | inl c ↦ (
      [],
      inl (nothing message ((==_iff _ 0).0 c), refl, done_state (rw c at h)),
      subst (λ x. Holds fs law mail directory x e) (sym (append-nil text))
          (subst (λ x. Holds fs law mail directory text x) (done_state (rw c at h)) w),
    )
    | inr c ↦ write-Holds fs law mail directory text message d e w (rw c at h)
  ]

  -- The headers of the recipients, and the text behind them, as far as fwrite took them.
  pub write_letter-Holds :
      (mail : MaildirMessage) (directory : List ℕ) (rcpts : List SmtpMailbox) (letter : Letter)
      (d e : D)
      → Holds fs law mail directory [] d
      → write_letter fs md mail rcpts letter d ≡ done tt e
      → (headers : List ℕ) × (front : List ℕ) × (back : List ℕ) × (mid : D) × (make_x_headers
            (fs.timestamp d)
            rcpts
            letter.sender
          ≡ some headers)
        × Took fs mail.pr_fd headers front d mid
        × Took fs mail.pr_fd letter.message back mid e
        × Holds fs law mail directory (front ++ back) e
  unfolding write_letter
  write_letter-Holds mail directory rcpts letter d e w h =
      let (headers, d1, made, after) =
        and_then-done (or_fault (make_x_headers (fs.timestamp d) rcpts letter.sender) d) _ tt e h in
      let (some_headers, same) = or_fault-done _ headers d d1 made in
      let (_, d2, wrote, last) =
        and_then-done (maildir_message_write fs mail headers d1) _ tt e after in
      let (front, took, first) =
        write-Holds fs law mail directory [] headers d1 d2
          (subst (λ x. Holds fs law mail directory [] x) same w) wrote in
      let (back, also, whole) =
        write_text-Holds mail directory front letter.message d2 e first last in
      (
        headers,
        front,
        back,
        d2,
        some_headers,
        subst (λ x. Took fs mail.pr_fd headers front x d2) (sym same) took,
        also,
        whole,
      )
