-- ===== src/Smtp/State.antt =====
-- The state of an SMTP dialogue and what builds and clears it: server/include/smtp/state.h,
-- server/include/smtp/response.h and the first part of server/src/lib/smtp/state.c.
use Prim.Native.Char.{code}
use Prim.Native.String.{String}
use postman.Prelude.{ℕ, ◌+◌, ◌/◌, ◌%◌, List, [], ◌∷◌, map, Option, none, some, Bool}
use postman.Vector.{Vector}
use postman.Vector
use postman.Text.{Buffer}
use postman.Text.Concat.{char_make_buf_concat}
use postman.Smtp.Fsm.{AutofsmState, AutofsmEvent}
use postman.Smtp.Fsm

-- A NULL name is `none`.
pub record SmtpMailbox : Type 0 where
  pub user_name : Option (List ℕ)
  pub server_name : Option (List ℕ)

pub data SmtpAddressType : Type 0 where
  ipv4 ipv6 domain no_type : SmtpAddressType

pub record SmtpAddress : Type 0 where
  pub address : List ℕ
  pub type : SmtpAddressType

pub data SmtpStatus : Type 0 where
  error ok warning continue data_end exit : SmtpStatus

pub record SmtpState : Type 0 where
  pub fsm_state : AutofsmState
  pub rcpt_list : Vector SmtpMailbox
  pub mail_from : Option SmtpMailbox
  pub hello_addr : Option SmtpAddress
  pub mail_data : Vector ℕ
  pub buffer : Buffer
  pub status : SmtpStatus

pub data SmtpCommandType : Type 0 where
  hello mailfrom rcptto data_cmd rset vrfy expn help noop quit invalid_command : SmtpCommandType

-- What `arg` points to.
pub data CommandArg : Type 0 where
  null : CommandArg
  address : SmtpAddress → CommandArg
  mailbox : SmtpMailbox → CommandArg

pub record SmtpCommand : Type 0 where
  pub status : Bool
  pub type : SmtpCommandType
  pub event : AutofsmEvent
  pub arg : CommandArg

abbrev pub bytes : String → List ℕ
bytes String.[] = []
bytes (String.◌∷◌ c s) = code c ∷ bytes s

-- The codes of response.h have three digits.
abbrev pub digits : ℕ → List ℕ
digits n = (48 + n / 100) ∷ (48 + n / 10 % 10) ∷ (48 + n % 10) ∷ []

-- `smtp_init`, over memory whose `status` it leaves as it is. The new buffer is not yet written.
unfoldable pub smtp_init : SmtpState → SmtpState
unfolding Vector.init
smtp_init s = record {
  fsm_state = Fsm.init;
  rcpt_list = Vector.init;
  mail_from = none;
  hello_addr = none;
  mail_data = Vector.init;
  buffer = record { text = some []; size = 1024 };
  status = s.status;
}

-- `pr_smtp_rcpt_list_free`: the names go, the entries stay.
unfoldable pub pr_smtp_rcpt_list_free : Vector SmtpMailbox → Vector SmtpMailbox
pr_smtp_rcpt_list_free v = record v {
  array = map (λ _. record { user_name = none; server_name = none }) v.array;
}

unfoldable pub pr_smtp_buffers_free : SmtpState → SmtpState
unfolding pr_smtp_rcpt_list_free
pr_smtp_buffers_free s = record s {
  rcpt_list = pr_smtp_rcpt_list_free s.rcpt_list;
  hello_addr = none;
  mail_from = none;
  buffer = record { text = none; size = 0 };
}

-- The three strings behind the code: a space, the message and SMTP_COMMAND_END.
unfoldable pub smtp_make_response : SmtpState → ℕ → List ℕ → SmtpState
unfolding char_make_buf_concat
smtp_make_response s n msg = record s {
  buffer = (char_make_buf_concat s.buffer (digits n) (bytes " " ∷ msg ∷ (0x0d ∷ 0x0a ∷ []) ∷ [])).0;
}

-- `smtp_move_buffer`: the text of the mail, and the state with an empty one.
unfoldable pub smtp_move_buffer : SmtpState → List ℕ × SmtpState
unfolding Vector.init
smtp_move_buffer s = (s.mail_data.array, record s { mail_data = Vector.init })
