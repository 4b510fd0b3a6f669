-- ===== src/Maildir.antt =====
-- The directory of mails: server/include/maildir and server/src/lib/maildir. The calls of libc are
-- an interface over a state of the disk. Memory is always there, and names fit their fields.
pub mod Accounts
pub mod Message
pub mod Laws
pub mod Written
pub mod Sample
use postman.Prelude.{ℕ, zero, suc, List, [], ◌∷◌, Bool, true, false, Option, none, some}
use postman.EventLoop.Event.{ErrorType}
use postman.Smtp.State.{bytes}

-- The calls of libc; a number is 0 or the value of errno. A stream is known by the path that it was
-- opened at; what fwrite takes is on the stream, and in the file at the latest when fclose succeeds.
-- `file_name` is what time() and rand() give as `<time>_<number>`, `timestamp` what time() gives in
-- decimal.
pub record FileSystem (D : Type 0) : Type 0 where
  pub opendir : List ℕ → D → ℕ
  pub mkdir : List ℕ → D → ℕ × D
  pub readable : List ℕ → D → Bool
  pub create : List ℕ → D → Bool × D
  pub fwrite : List ℕ → List ℕ → D → ℕ × D
  pub fclose : List ℕ → D → Bool × D
  pub rename : List ℕ → List ℕ → D → ℕ × D
  pub file_name : D → List ℕ × D
  pub timestamp : D → List ℕ

-- How a function ends: with a use of NULL, with an error and errno, or with its results.
pub data Ending (D A : Type 0) : Type 0 where
  fault : Ending D A
  failed : ErrorType → ℕ → D → Ending D A
  done : A → D → Ending D A

abbrev pub Disk : Type 0 → Type 0 → Type 0
Disk D A = D → Ending D A

abbrev pub pure : {D A : Type 0} → A → Disk D A
pure a d = done a d

abbrev pub and_then : {D A B : Type 0} → Ending D A → (A → Disk D B) → Ending D B
and_then fault f = fault
and_then (failed e n d) f = failed e n d
and_then (done a d) f = f a d

infixl 5 ◌>>=◌ ◌>>◌
abbrev pub ◌>>=◌ : {D A B : Type 0} → Disk D A → (A → Disk D B) → Disk D B
◌>>=◌ m f d = and_then (m d) f

abbrev pub ◌>>◌ : {D B : Type 0} → Disk D (Unit {0}) → Disk D B → Disk D B
m >> k = m >>= λ _. k

-- A call of libc whose failure is ERRNO.
abbrev pub libc_result : {D : Type 0} → ℕ × D → Ending D (Unit {0})
libc_result (zero, d) = done tt d
libc_result (suc n, d) = failed ErrorType.errno (suc n) d

-- `maildir`, by its `pr_path`.
abbrev pub Maildir : Type 0
Maildir = List ℕ

-- `maildir_server`; its maildir may be NULL.
pub record MaildirServer : Type 0 where
  pub pr_server_domain : List ℕ
  pub is_self : Bool
  pub pr_md : Option Maildir

pub record MaildirUser : Type 0 where
  pub pr_server : MaildirServer
  pub pr_login : List ℕ

-- `message_type`.
pub data MessageType : Type 0 where
  type_new type_tmp type_server type_none : MessageType

-- The stream `pr_fd` is the path that it was opened at.
pub record MaildirMessage : Type 0 where
  pub pr_user : MaildirUser
  pub pr_filename : List ℕ
  pub pr_fd : List ℕ
  pub pr_type : MessageType
  pub pr_is_open : Bool

abbrev pub other_servers : List ℕ
other_servers = bytes "/.OTHER_SERVERS/"

abbrev pub slash : List ℕ
slash = bytes "/"
