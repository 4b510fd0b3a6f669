-- ===== src/Server/Users.antt =====
-- The contexts of the connected users: server/include/server/users_list.h and
-- server/src/lib/server/users_list.c. A function that holds the mutex runs as one step. Memory is
-- always there, and what is freed is left out.
use postman.Prelude.{
  ℕ, List, [], ◌∷◌, ◌++◌, Bool, true, false, Option, none, some, find_entry, remove_entry,
}
use postman.Vector.{Vector}
use postman.Smtp.State.{SmtpState}
use postman.EventLoop.Event.{ℤ, same_socket}

-- `client_addr`.
pub record ClientAddr : Type 0 where
  pub ip : List ℕ
  pub port : ℕ

pub record UserContext : Type 0 where
  pub smtp : SmtpState
  pub buffer : Vector ℕ
  pub read_buffer : List ℕ
  pub write_buffer : Vector ℕ
  pub socket : ℤ
  pub addr : ClientAddr

abbrev pub UsersList : Type 0
UsersList = List UserContext

-- A user taken out of its list; `none` once the accessor's pointers into the list are NULL.
abbrev pub UserAccessor : Type 0
UserAccessor = Option UserContext

abbrev pub has_socket : ℤ → UserContext → Bool
has_socket sock user = same_socket user.socket sock

unfoldable pub users_list_add : UsersList → UserContext → UsersList
users_list_add users user = users ++ user ∷ []

-- The first user with the socket leaves the list.
unfoldable pub user_find_by_sock : UsersList → ℤ → UserAccessor × UsersList
user_find_by_sock users sock =
    (find_entry (has_socket sock) users, remove_entry (has_socket sock) users)

unfoldable pub is_exist : UsersList → ℤ → Bool
is_exist users sock = elim (find_entry (has_socket sock) users) [ none ↦ false | some _ ↦ true ]

-- The user comes back, to the end of its list, and the accessor is empty.
unfoldable pub user_accessor_release : UsersList → UserAccessor → UsersList × UserAccessor
user_accessor_release users none = (users, none)
user_accessor_release users (some user) = (users ++ user ∷ [], none)

-- The entry is freed and stays out of the list.
unfoldable pub delete_user : UsersList → UserAccessor → UsersList × UserAccessor
delete_user users accessor = (users, none)
