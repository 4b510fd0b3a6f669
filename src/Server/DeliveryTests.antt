-- ===== src/Server/DeliveryTests.antt =====
-- Runs of the model of the server on small inputs: the delivery of a mail.
use postman.Prelude.{
  ℕ, List, [], ◌∷◌, AtMostOne, find_entry, true, false, none, some, ◌≡◌, ◌≢◌, ◌⊎◌, refl, arith,
}
use postman.Vector.{Vector, init}
use postman.Text.Concat.{concat_new}
use postman.Smtp.State.{SmtpMailbox, bytes}
use postman.Maildir.{Ending, fault, done, other_servers, slash}
use postman.Maildir.Message.{new_path, tmp_path}
use postman.Maildir.Sample.{Files, disk, read_only, disk-IsFileSystem}
use postman.Server.Table.{RecipientsTable, has_key, table_init, table_get}
use postman.Server.Group.{group_of}
use postman.Server.Grouped.{is_of, keep}
use postman.Server.Recipients.{Parted, part_recipients, group_recipients}
use postman.Server.Delivery.{recipients-Gathered}
use postman.Server.Send.{Letter, send_to_self, send_to_server}
use postman.Server.Headers.{Address, mailbox}
use postman.Server.Delivered.{HoldsLetter, IsCut, send_to_server-Holds, send_to_self-Holds}
use postman.Server.Lost.{send_to_server-lost}

abbrev address : List ℕ → List ℕ → Address
address user server = record { user = user; server = server }

abbrev ann : Address
ann = address (bytes "ann") (bytes "s")

abbrev bob : Address
bob = address (bytes "bob") (bytes "t")

abbrev recipients : List SmtpMailbox
recipients = mailbox bob ∷ mailbox ann ∷ []

recipients-Gathered_example :
    (q : Parted) × (table : RecipientsTable) × (part_recipients
        (bytes "s")
        (record { self_recipients = init; foreign_recipients = init })
        recipients
      ≡ some q)
    × (group_recipients table_init q.foreign_recipients.array ≡ some table)
    × (q.self_recipients.array ≡ keep (is_of (bytes "s")) recipients)
    × (group_of table (bytes "s") ≡ [])
    × ((key : List ℕ) → key ≢ bytes "s" → group_of table key ≡ keep (is_of key) recipients)
    × ((key : List ℕ) → AtMostOne (has_key key) table)
recipients-Gathered_example =
    recipients-Gathered (bytes "s") recipients
      ((bytes "t", refl, omega arith), ((bytes "s", refl, omega arith), tt))

abbrev letter : Letter
letter = record { sender = mailbox ann; message = bytes "hi" }

abbrev table : RecipientsTable
table = record { array = record { array = mailbox bob ∷ []; allocated = 5 }; key = bytes "t" } ∷ []

abbrev files_of : Ending Files (Unit {0}) → Files
files_of (done _ files) = files
files_of _ = λ p. none

abbrev empty_disk : Files
empty_disk p = none

abbrev sent : Files
sent = files_of (send_to_server disk (bytes "/m") letter table (bytes "t") empty_disk)

send_to_server-Holds_example :
    (v : Vector SmtpMailbox) × (name : List ℕ) × (table_get table (bytes "t") ≡ some v)
    × (HoldsLetter disk-IsFileSystem sent
          (new_path false (concat_new (bytes "/m") (other_servers ∷ bytes "t" ∷ [])) name)
          (tmp_path (concat_new (bytes "/m") (other_servers ∷ bytes "t" ∷ [])) name)
          (new_path false (concat_new (bytes "/m") (other_servers ∷ bytes "t" ∷ [])) name)
          v.array
          letter
        ⊎ IsCut disk-IsFileSystem sent
            (tmp_path (concat_new (bytes "/m") (other_servers ∷ bytes "t" ∷ [])) name)
            (new_path false (concat_new (bytes "/m") (other_servers ∷ bytes "t" ∷ [])) name)
            v.array
            letter)
unfolding send_to_server disk find_entry
send_to_server-Holds_example =
    send_to_server-Holds disk disk-IsFileSystem (bytes "/m") letter table (bytes "t") empty_disk
      sent refl

abbrev kept_files : Files
kept_files = files_of (send_to_self disk (bytes "/m") letter (mailbox ann) empty_disk)

send_to_self-Holds_example :
    (user : List ℕ) × (name : List ℕ) × (some (bytes "ann") ≡ some user)
    × (HoldsLetter disk-IsFileSystem kept_files
          (new_path true (concat_new (bytes "/m") (slash ∷ user ∷ [])) name)
          (tmp_path (concat_new (bytes "/m") (slash ∷ user ∷ [])) name)
          (new_path true (concat_new (bytes "/m") (slash ∷ user ∷ [])) name)
          (mailbox ann ∷ [])
          letter
        ⊎ (HoldsLetter disk-IsFileSystem kept_files
              (tmp_path (concat_new (bytes "/m") (slash ∷ user ∷ [])) name)
              (tmp_path (concat_new (bytes "/m") (slash ∷ user ∷ [])) name)
              (new_path true (concat_new (bytes "/m") (slash ∷ user ∷ [])) name)
              (mailbox ann ∷ [])
              letter
            ⊎ IsCut disk-IsFileSystem kept_files
                (tmp_path (concat_new (bytes "/m") (slash ∷ user ∷ [])) name)
                (new_path true (concat_new (bytes "/m") (slash ∷ user ∷ [])) name)
                (mailbox ann ∷ [])
                letter))
unfolding send_to_self disk
send_to_self-Holds_example =
    send_to_self-Holds disk disk-IsFileSystem (bytes "/m") letter (mailbox ann) empty_disk
      kept_files refl

send_to_server-lost_example :
    send_to_server read_only (bytes "/m") letter table (bytes "t") empty_disk ≡ fault
unfolding read_only
send_to_server-lost_example =
    send_to_server-lost read_only (bytes "/m") (bytes "t") empty_disk 29 letter table refl refl
