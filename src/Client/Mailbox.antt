-- ===== src/Client/Mailbox.antt =====
-- The mails for other servers as the client lists, reads and removes them: client/src/maildir/maildir.c.
use postman.Prelude.{
  ℕ, List, [], ◌∷◌, ◌++◌, Bool, true, false, ◌||◌, Option, none, some, bytes_eq, if◌then◌else◌,
}
use postman.Smtp.State.{bytes}
use postman.Client.Files.{Reading, null}
use postman.Client.Letter.{Message, parse_message}
use postman.Client.Strings.{contains}

pub record MaildirOtherServer : Type 0 where
  pub directory : List ℕ
  pub server : List ℕ
  pub message_full_file_names : List (List ℕ)

-- What `readdir`, `fopen`, `stat` and `remove` give: the entries of a directory, what a file holds,
-- whether stat succeeds and the path is no regular file, or no directory, and whether the removal
-- succeeds. A directory opens.
pub record MailFiles (D : Type 0) : Type 0 where
  pub entries : List ℕ → D → List (List ℕ)
  pub content : List ℕ → D → Option (List ℕ)
  pub is_not_file : List ℕ → D → Bool
  pub is_not_directory : List ℕ → D → Bool
  pub remove : List ℕ → D → Bool × D

module _ {D : Type 0} (files : MailFiles D) where
  unfoldable pub read_message : List ℕ → D → Reading Message
  unfolding parse_message
  read_message filepath d = elim (files.content filepath d) [
    | none ↦ null
    | some file ↦ parse_message filepath file
  ]

  -- The loop over the times always leaves the first index.
  unfoldable pub get_first_message : MaildirOtherServer → D → Reading Message
  unfolding read_message
  get_first_message server d = elim server.message_full_file_names [
    | [] ↦ null
    | name ∷ _ ↦ read_message name d
  ]

-- The name leaves the list where it stands first.
unfoldable pub without_name : List ℕ → List (List ℕ) → List (List ℕ)
without_name path [] = []
without_name path (name ∷ names) =
    let rest = without_name path names in if bytes_eq name path then names else name ∷ rest

abbrev pub other_servers_part : List ℕ
other_servers_part = bytes ".OTHER_SERVERS"

module _ {D : Type 0} (files : MailFiles D) where
  -- What follows the removal of the file.
  unfoldable pub file_removed : MaildirOtherServer → List ℕ → Bool × D → MaildirOtherServer × D
  unfolding without_name
  file_removed server path (false, d) = (server, d)
  file_removed server path (true, d) = (
    record server { message_full_file_names = without_name path server.message_full_file_names },
    d,
  )

  -- Of a message that is not NULL; what is freed is left out.
  unfoldable pub remove_message_server : MaildirOtherServer → Message → D → MaildirOtherServer × D
  unfolding file_removed contains
  remove_message_server server mes d =
      if files.is_not_file mes.directory d
      then (server, d)
      else if contains mes.directory other_servers_part
      then file_removed server mes.directory (files.remove mes.directory d)
      else (server, d)

  -- The loop over the names, whatever comes of each.
  unfoldable pub remove_each : List (List ℕ) → D → D
  remove_each [] d = d
  remove_each (name ∷ names) d = remove_each names (files.remove name d).1

  unfoldable pub remove_all_message_server : MaildirOtherServer → D → D
  unfolding remove_each contains
  remove_all_message_server server d =
      if files.is_not_directory server.directory d
      then d
      else if contains server.directory other_servers_part
      then remove_each server.message_full_file_names d
      else d

-- The names that the loops over a directory keep: not `.`, `..`, nor `tmp` among mails.
abbrev pub is_dots : List ℕ → Bool
is_dots name = bytes_eq name (bytes ".") || bytes_eq name (bytes "..")

unfoldable pub message_names : List ℕ → List (List ℕ) → List (List ℕ)
message_names directory [] = []
message_names directory (name ∷ names) =
    let rest = message_names directory names in
    if is_dots name || bytes_eq name (bytes "tmp")
    then rest
    else (directory ++ (bytes "/" ++ name)) ∷ rest

module _ {D : Type 0} (files : MailFiles D) where
  -- Of a path that is no directory the list stays empty.
  unfoldable pub read_maildir_servers_new : List ℕ → List ℕ → D → MaildirOtherServer
  unfolding message_names
  read_maildir_servers_new directory server d = record {
    directory = directory;
    server = server;
    message_full_file_names =
        if files.is_not_directory directory d
        then []
        else message_names directory (files.entries directory d);
  }

  unfoldable pub servers_of : List ℕ → List (List ℕ) → D → List MaildirOtherServer
  unfolding read_maildir_servers_new
  servers_of path [] d = []
  servers_of path (name ∷ names) d =
      let rest = servers_of path names d in
      if is_dots name
      then rest
      else read_maildir_servers_new (path ++ (bytes "/" ++ name)) name d ∷ rest

  -- Of a mail directory whose path is not NULL.
  unfoldable pub read_maildir_servers : List ℕ → D → List MaildirOtherServer
  unfolding servers_of
  read_maildir_servers directory d =
      let path = directory ++ (bytes "/" ++ other_servers_part) in
      if files.is_not_directory directory d then [] else servers_of path (files.entries path d) d
