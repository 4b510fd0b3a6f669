-- ===== src/Server/Recipients.antt =====
-- The loops of `send_mail` in server/src/lib/server/server.c that part the recipients of a mail and
-- gather those of a server. Memory is always there, and `none` is a fault.
use postman.Prelude.{ℕ, List, [], ◌∷◌, Option, none, some, bytes_eq, if◌then◌else◌}
use postman.Vector.{Vector}
use postman.Vector
use postman.Smtp.State.{SmtpMailbox}
use postman.Server.Table.{RecipientsTable, table_push}

-- Those of this server and the others.
pub record Parted : Type 0 where
  pub self_recipients : Vector SmtpMailbox
  pub foreign_recipients : Vector SmtpMailbox

unfoldable pub put_self : Parted → Option (Vector SmtpMailbox) → Option Parted
put_self p none = none
put_self p (some v) = some (record p { self_recipients = v })

unfoldable pub put_foreign : Parted → Option (Vector SmtpMailbox) → Option Parted
put_foreign p none = none
put_foreign p (some v) = some (record p { foreign_recipients = v })

-- strcmp reads the name of the server, so NULL is a fault.
unfoldable pub put_mailbox : List ℕ → Parted → SmtpMailbox → Option (List ℕ) → Option Parted
unfolding put_self put_foreign Vector.push_back
put_mailbox self_name p m none = none
put_mailbox self_name p m (some name) =
    if bytes_eq name self_name
    then put_self p (Vector.push_back p.self_recipients m)
    else put_foreign p (Vector.push_back p.foreign_recipients m)

unfoldable pub part_recipients : List ℕ → Parted → List SmtpMailbox → Option Parted
unfolding put_mailbox
part_recipients self_name p [] = some p
part_recipients self_name p (m ∷ ms) = elim (put_mailbox self_name p m m.server_name) [
  | none ↦ none
  | some q ↦ part_recipients self_name q ms
]

unfoldable pub group_recipients : RecipientsTable → List SmtpMailbox → Option RecipientsTable
unfolding table_push
group_recipients table [] = some table
group_recipients table (m ∷ ms) = elim (table_push table m.server_name m) [
  | none ↦ none
  | some next ↦ group_recipients next ms
]
