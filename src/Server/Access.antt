-- ===== src/Server/Access.antt =====
-- The exclusive access to a user: what a search, a release and a removal make of the users list of
-- server/src/lib/server/users_list.c, as a map from sockets to users.
use postman.Prelude.{
  true, false, Bool-cases, [], ◌∷◌, ◌++◌, Option, none, some, find_entry, find_entry-append,
  or_else, find_entry-holds, find_entry-remove_same, find_entry-remove_other, AtMostOne,
  AtMostOne-append, AtMostOne-remove, Apart, ◌≡◌, refl, sym, ap, ◌∙◌, inl, inr, if◌then◌else◌,
}
use mathlib.Core.Path.{subst}
use postman.EventLoop.Event.{ℤ, same_socket, same_socket_iff}
use postman.Server.Users.{
  UserContext, UsersList, has_socket, user_find_by_sock, is_exist, user_accessor_release,
}

-- The user of a socket.
abbrev pub user_of : UsersList → ℤ → Option UserContext
user_of users sock = find_entry (has_socket sock) users

-- No two users have the same socket.
abbrev pub IsUsers : UsersList → Type 0
IsUsers users = (sock : ℤ) → AtMostOne (has_socket sock) users

has_socket-eq : (u : UserContext) (s : ℤ) → has_socket s u ≡ true → u.socket ≡ s
has_socket-eq u s h = (same_socket_iff u.socket s).0 h

pub same_socket_refl : (s : ℤ) → same_socket s s ≡ true
same_socket_refl s = (same_socket_iff s s).1 refl

has_socket-Apart : (s t : ℤ) → same_socket s t ≡ false → Apart (has_socket s) (has_socket t)
has_socket-Apart s t h u e = ap (λ x. same_socket x t) (has_socket-eq u s e) ∙ h

pub user_of-socket :
    (users : UsersList) (s : ℤ) (u : UserContext) → user_of users s ≡ some u → u.socket ≡ s
user_of-socket users s u h = has_socket-eq u s (find_entry-holds (has_socket s) users u h)

-- What is asked of a socket after `user` came to the list.
abbrev pub with_user : UserContext → UsersList → ℤ → Option UserContext
with_user user users t = if same_socket user.socket t then some user else user_of users t

or_else-none : (o : Option UserContext) → or_else o none ≡ o
or_else-none none = refl
or_else-none (some u) = refl

pub user_of-append :
    (users : UsersList) (u : UserContext) (t : ℤ)
    → user_of users u.socket ≡ none
    → user_of (users ++ u ∷ []) t ≡ with_user u users t
unfolding find_entry
user_of-append users u t h = elim (Bool-cases (same_socket u.socket t)) [
  | inl e ↦
      rw
        (
          find_entry-append (has_socket t) users (u ∷ []),
          e,
          sym ((same_socket_iff u.socket t).0 e),
          h,
        )
        refl
  | inr e ↦ rw (find_entry-append (has_socket t) users (u ∷ []), e) (or_else-none _)
]

IsUsers-append :
    (users : UsersList) (u : UserContext)
    → user_of users u.socket ≡ none
    → IsUsers users
    → IsUsers (users ++ u ∷ [])
IsUsers-append users u h k t =
    AtMostOne-append (has_socket t) users u
      (λ e. subst (λ x. user_of users x ≡ none) (has_socket-eq u t e) h) (k t)

pub with_user-IsUsers :
    (users : UsersList) (u : UserContext)
    → user_of users u.socket ≡ none
    → IsUsers users
    → IsUsers (users ++ u ∷ []) × ((t : ℤ) → user_of (users ++ u ∷ []) t ≡ with_user u users t)
with_user-IsUsers users u h k = (IsUsers-append users u h k, λ t. user_of-append users u t h)

-- A list without the user of a socket: every other user is where it was.
pub record Without (sock : ℤ) (users rest : UsersList) : Type 0 where
  pub valid : IsUsers rest
  pub gone : user_of rest sock ≡ none
  pub kept : (t : ℤ) → same_socket sock t ≡ false → user_of rest t ≡ user_of users t

pub find_by_sock-Without :
    (users : UsersList) (sock : ℤ)
    → IsUsers users
    → Without sock users (user_find_by_sock users sock).1
unfolding user_find_by_sock
find_by_sock-Without users sock h = record {
  valid = λ t. AtMostOne-remove (has_socket t) (has_socket sock) users (h t);
  gone = find_entry-remove_same (has_socket sock) users (h sock);
  kept = λ t e.
      find_entry-remove_other (has_socket sock) (has_socket t) users (has_socket-Apart sock t e);
}

-- The user comes back changed, with its socket.
pub Without-release :
    (sock : ℤ) (users rest : UsersList) (u : UserContext)
    → u.socket ≡ sock
    → Without sock users rest
    → IsUsers (user_accessor_release rest (some u)).0
      × ((t : ℤ) → user_of (user_accessor_release rest (some u)).0 t ≡ with_user u users t)
unfolding user_accessor_release
Without-release sock users rest u p w =
    let none_there : user_of rest u.socket ≡ none = ap (user_of rest) p ∙ w.gone in
    (
      IsUsers-append rest u none_there w.valid,
      λ t. user_of-append rest u t none_there ∙ elim (Bool-cases (same_socket u.socket t)) [
        | inl e ↦ rw e refl
        | inr e ↦ rw e (w.kept t (ap (λ s. same_socket s t) (sym p) ∙ e))
      ],
    )

is_exist-none : (users : UsersList) (s : ℤ) → user_of users s ≡ none → is_exist users s ≡ false
unfolding is_exist
is_exist-none users s h = rw (h, is_exist) refl

-- In a list with one user at most for a socket, a search that finds a user takes it out, so that
-- no search finds it; its release with new contents for the same socket empties the accessor and
-- gives a list with one user at most for a socket, in which the socket has the new contents and
-- every other socket what it had.
pub find_by_sock-release :
    (users : UsersList) (sock : ℤ) (u v : UserContext)
    → IsUsers users
    → user_of users sock ≡ some u
    → v.socket ≡ sock
    → let (found, rest) = user_find_by_sock users sock in
      let (back, accessor) = user_accessor_release rest (some v) in
      (found ≡ some u)
      × (is_exist rest sock ≡ false)
      × ((user_find_by_sock rest sock).0 ≡ none)
      × (accessor ≡ none)
      × IsUsers back
      × ((t : ℤ) → user_of back t ≡ with_user v users t)
unfolding user_find_by_sock user_accessor_release
find_by_sock-release users sock u v h k p =
    let w = find_by_sock-Without users sock h in
    let (valid, found) = Without-release sock users (user_find_by_sock users sock).1 v p w in
    (k, is_exist-none _ sock w.gone, w.gone, refl, valid, found)
