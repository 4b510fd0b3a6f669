-- ===== src/Smtp/Replies.antt =====
-- The well-formed states of an SMTP dialogue and its replies: server/src/lib/smtp/state.c.
use postman.Prelude.{
  ℕ, List, [], ◌∷◌, ◌++◌, length, concat, Option, some, ◌<◌, ◌≡◌, refl, sym, ◌∙◌, ◌⊎◌, arith,
}
use postman.Text.{Buffer}
use postman.Text.Concat.{IsSound, char_make_buf_concat-Holds}
use postman.Vector.Growth.{IsValid, init-IsValid}
use postman.Smtp.Fsm.{AutofsmState}
use postman.Smtp.State.{
  SmtpState, SmtpStatus, ok, warning, continue, data_end, exit, bytes, digits, smtp_init,
  smtp_make_response,
}
use postman.Smtp.Parse.{
  Outcome, ok_msg, invalid_argument_msg, hello_argument_msg, mail_input_msg, syntax_error_msg,
  not_implemented_msg, invalid_sequence_msg,
}

-- The buffer is NULL only at size 0 and its string fits; the two vectors can be appended to.
pub record IsWell (s : SmtpState) : Type 0 where
  pub buffer_sound : IsSound s.buffer
  pub rcpt_valid : IsValid s.rcpt_list
  pub data_valid : IsValid s.mail_data

-- A reply line: the code, a space, the message and CRLF.
abbrev tail_of : List ℕ → List (List ℕ)
tail_of msg = bytes " " ∷ msg ∷ (0x0d ∷ 0x0a ∷ []) ∷ []

abbrev pub reply : ℕ → List ℕ → List ℕ
reply n msg = digits n ++ concat (tail_of msg)

-- The replies that go with a status: a positive code with `ok` and `data_end`, a code from 500 on
-- with `warning`; `error` is never a result.
abbrev pub Replies : SmtpStatus → Option (List ℕ) → Type 0
Replies SmtpStatus.error t = ⊥
Replies ok t = (t ≡ some (reply 250 ok_msg)) ⊎ (t ≡ some (reply 354 mail_input_msg))
Replies warning t =
    (t ≡ some (reply 500 syntax_error_msg))
    ⊎ (t ≡ some (reply 501 invalid_argument_msg))
    ⊎ (t ≡ some (reply 501 hello_argument_msg))
    ⊎ (t ≡ some (reply 502 not_implemented_msg))
    ⊎ (t ≡ some (reply 503 invalid_sequence_msg))
Replies continue t = Unit {0}
Replies data_end t = t ≡ some (reply 250 ok_msg)
Replies exit t = Unit {0}

pub IsSound-of : (b : Buffer) (t : List ℕ) → b.text ≡ some t → length t < b.size → IsSound b
IsSound-of b t e l = record {
  null_empty = λ n. absurd (cc (sym n ∙ e));
  fits = λ u f. ground (arith, f);
}

pub smtp_init-IsWell : (s : SmtpState) → IsWell (smtp_init s)
unfolding smtp_init
smtp_init-IsWell s = record {
  buffer_sound = IsSound-of _ [] refl (omega arith);
  rcpt_valid = init-IsValid;
  data_valid = init-IsValid;
}

pub response_text :
    (s : SmtpState) (n : ℕ) (msg : List ℕ)
    → IsSound s.buffer
    → (smtp_make_response s n msg).buffer.text ≡ some (reply n msg)
unfolding smtp_make_response
response_text s n msg h = (char_make_buf_concat-Holds s.buffer (digits n) (tail_of msg) h).1

pub response-IsWell :
    (s : SmtpState) (n : ℕ) (msg : List ℕ) → IsWell s → IsWell (smtp_make_response s n msg)
unfolding smtp_make_response
response-IsWell s n msg h =
    let holds = char_make_buf_concat-Holds s.buffer (digits n) (tail_of msg) h.buffer_sound in
    record {
      buffer_sound = IsSound-of _ (reply n msg) holds.1 holds.2;
      rcpt_valid = h.rcpt_valid;
      data_valid = h.data_valid;
    }

-- A message or a command that is carried out: no fault, a well-formed state whose machine stands at
-- `m`, and the reply that goes with the status.
abbrev pub Done : AutofsmState → Outcome → Type 0
Done m o =
    (t : SmtpState) × (st : SmtpStatus) × (o ≡ some (t, st))
    × IsWell t
    × (t.fsm_state ≡ m)
    × Replies st t.buffer.text

pub responds :
    (s : SmtpState) (n : ℕ) (msg : List ℕ) (st : SmtpStatus)
    → IsWell s
    → ((t : Option (List ℕ)) → t ≡ some (reply n msg) → Replies st t)
    → Done s.fsm_state (some (smtp_make_response s n msg, st))
unfolding smtp_make_response
responds s n msg st h fit = (
  smtp_make_response s n msg,
  st,
  refl,
  response-IsWell s n msg h,
  refl,
  fit _ (response_text s n msg h.buffer_sound),
)
