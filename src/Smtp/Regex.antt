-- ===== src/Smtp/Regex.antt =====
-- The regular expressions of server/include/smtp/regex.h and their compiled forms in
-- server/src/lib/smtp/state.c. The matcher, regexec of the C library, is a parameter: for an
-- expression and a string it gives the offsets of a match, or `none`.
use postman.Prelude.{ℕ, ◌+◌, ◌≤◌, List, ◌∷◌, ◌++◌, length, Option, none, some, ◌≡◌, ◌≢◌}
use postman.Text.Search.{Lacks}

-- The expressions RE_HELLO, RE_MAIL_FROM and so on.
pub data Pattern : Type 0 where
  re_hello re_mail_from re_rcpt_to re_data re_rset re_vrfy re_expn re_help : Pattern
  re_noop re_quit re_domain re_address_literal re_mailbox re_path re_empty_path : Pattern

-- The globals pr_smtp_reg_hello and so on.
pub data Regex : Type 0 where
  reg_hello reg_mailform reg_rcptto reg_data reg_rset reg_vrfy reg_expn reg_help : Regex
  reg_noop reg_quit reg_domain reg_addr_literal reg_mailbox reg_path reg_empty_path : Regex
  reg_postmaster : Regex

-- `smtp_lib_init`, which compiles `reg_postmaster` from RE_PATH too.
unfoldable pub compiled : Regex → Pattern
compiled reg_hello = re_hello
compiled reg_mailform = re_mail_from
compiled reg_rcptto = re_rcpt_to
compiled reg_data = re_data
compiled reg_rset = re_rset
compiled reg_vrfy = re_vrfy
compiled reg_expn = re_expn
compiled reg_help = re_help
compiled reg_noop = re_noop
compiled reg_quit = re_quit
compiled reg_domain = re_domain
compiled reg_addr_literal = re_address_literal
compiled reg_mailbox = re_mailbox
compiled reg_path = re_path
compiled reg_empty_path = re_empty_path
compiled reg_postmaster = re_path

abbrev pub Matcher : Type 0
Matcher = Pattern → List ℕ → Option (ℕ × ℕ)

-- A match lies within the string.
abbrev pub IsBounded : Matcher → Type 0
IsBounded regexec =
    (p : Pattern) (s : List ℕ) (from to : ℕ)
    → regexec p s ≡ some (from, to)
    → (from ≤ to) × (to ≤ length s)

-- A match of RE_ADDRESS_LITERAL has its two brackets.
abbrev pub HasBrackets : Matcher → Type 0
HasBrackets regexec =
    (s : List ℕ) (from to : ℕ) → regexec re_address_literal s ≡ some (from, to) → from + 2 ≤ to

-- RE_MAILBOX is a part of RE_PATH, so a string with a match of the one has a match of the other.
abbrev pub HasMailbox : Matcher → Type 0
HasMailbox regexec = (s : List ℕ) → regexec re_path s ≢ none → regexec re_mailbox s ≢ none

-- A mailbox at the offsets `from` and `to` of a string: a name with no `@`, an `@` and a domain.
pub record MailboxAt (s : List ℕ) (from to : ℕ) : Type 0 where
  pub pre : List ℕ
  pub user : List ℕ
  pub domain : List ℕ
  pub post : List ℕ
  pub whole : s ≡ pre ++ (user ++ b'@' ∷ (domain ++ post))
  pub starts : from ≡ length pre
  pub ends : to ≡ length pre + (length user + 1 + length domain)
  pub lacks : Lacks b'@' user

-- RE_MAILBOX is a name of letters and digits, an `@` and a domain.
abbrev pub HasAt : Matcher → Type 0
HasAt regexec =
    (s : List ℕ) (from to : ℕ) → regexec re_mailbox s ≡ some (from, to) → MailboxAt s from to

-- What the code relies on from regexec.
pub record IsMatcher (regexec : Matcher) : Type 0 where
  pub bounded : IsBounded regexec
  pub brackets : HasBrackets regexec
  pub mailbox : HasMailbox regexec
  pub at_sign : HasAt regexec
