-- ===== src/Server/Paired.antt =====
-- The users and their timers on the server of server/src/lib/server: where there is one, there is the
-- other.
use mathlib.Core.Path.{subst}
use postman.Prelude.{
  ℕ, List, [], ◌∷◌, ◌++◌, Bool, true, false, ◌||◌, Bool-cases, Option, none, some, find_entry,
  remove_entry, change_entry, find_entry-remove_same, find_entry-remove_other, AtMostOne,
  AtMostOne-append, AtMostOne-remove, AtMostOne-change, Apart, ◌≡◌, refl, sym, ap, ◌∙◌, inl, inr,
  arith,
}
use postman.EventLoop.Event.{ℤ, same_socket, same_socket_iff}
use postman.Server.Users.{
  UserContext, UsersList, users_list_add, has_socket, is_exist, user_find_by_sock,
  user_accessor_release,
}
use postman.Server.Access.{
  IsUsers, user_of, with_user, find_by_sock-Without, Without-release, with_user-IsUsers,
}
use postman.Server.Timers.{
  TimersList, is_timer_of, pr_timers_get_by_sock, timers_add, timers_make_for_socket,
  timers_remove_for_socket, timers_update_by_socket, timers_is_exist_for_socket, updated,
}

abbrev pub IsTimers : TimersList → Type 0
IsTimers timers = (sock : ℤ) → AtMostOne (is_timer_of sock) timers

-- At most one user and one timer for a socket, and no one without the other.
pub record Paired (users : UsersList) (timers : TimersList) : Type 0 where
  pub users_once : IsUsers users
  pub timers_once : IsTimers timers
  pub together : (sock : ℤ) → is_exist users sock ≡ timers_is_exist_for_socket timers sock

module _ {A : Type 0} where
  abbrev there : Option A → Bool
  there none = false
  there (some _) = true

  there-append :
      (p : A → Bool) (xs : List A) (a : A)
      → there (find_entry p (xs ++ a ∷ [])) ≡ (there (find_entry p xs) || p a)
  unfolding find_entry
  there-append p [] a = ground arith
  there-append p (x ∷ xs) a = ground (arith, there-append p xs a)

  there-change :
      (p q : A → Bool) (f : A → A) (xs : List A)
      → ((x : A) → p (f x) ≡ p x)
      → there (find_entry p (change_entry q f xs)) ≡ there (find_entry p xs)
  unfolding find_entry change_entry
  there-change p q f [] h = refl
  there-change p q f (x ∷ xs) h = ground (arith, h x, there-change p q f xs h)

exist_there : (users : UsersList) (s : ℤ) → is_exist users s ≡ there (user_of users s)
unfolding is_exist
exist_there users s = ground arith

timer_there :
    (timers : TimersList) (s : ℤ)
    → timers_is_exist_for_socket timers s ≡ there (find_entry (is_timer_of s) timers)
unfolding timers_is_exist_for_socket pr_timers_get_by_sock
timer_there timers s = ground arith

pub timer-Apart : (s t : ℤ) → same_socket s t ≡ false → Apart (is_timer_of s) (is_timer_of t)
timer-Apart s t h u e = ap (λ x. same_socket x t) ((same_socket_iff u.t.socket s).0 e) ∙ h

-- The time of a timer plays no part.
pub update-Paired :
    (users : UsersList) (timers : TimersList) (now : ℕ) (sock : ℤ)
    → Paired users timers
    → Paired users (timers_update_by_socket now timers sock)
unfolding timers_update_by_socket
update-Paired users timers now sock h = record {
  users_once = h.users_once;
  timers_once = λ t.
      AtMostOne-change (is_timer_of t) (is_timer_of sock) (updated now) timers (λ _. refl)
        (h.timers_once t);
  together = λ t.
      h.together t
      ∙ timer_there timers t
      ∙ sym (
          timer_there _ t
          ∙ there-change (is_timer_of t) (is_timer_of sock) (updated now) timers (λ _. refl));
}

-- A user and its timer go together.
pub leave-Paired :
    (users : UsersList) (timers : TimersList) (sock : ℤ)
    → Paired users timers
    → Paired (user_find_by_sock users sock).1 (timers_remove_for_socket timers sock)
unfolding timers_remove_for_socket
leave-Paired users timers sock h =
    let w = find_by_sock-Without users sock h.users_once in
    record {
      users_once = w.valid;
      timers_once =
          λ t. AtMostOne-remove (is_timer_of t) (is_timer_of sock) timers (h.timers_once t);
      together = λ t. exist_there _ t ∙ elim (Bool-cases (same_socket sock t)) [
        | inl e ↦
            subst
              (λ s.
                there (user_of (user_find_by_sock users sock).1 s)
                ≡ timers_is_exist_for_socket (remove_entry (is_timer_of sock) timers) s)
              ((same_socket_iff sock t).0 e)
              (ap there w.gone
                ∙ sym (
                    timer_there _ sock
                    ∙ ap there
                        (find_entry-remove_same (is_timer_of sock) timers (h.timers_once sock))))
        | inr e ↦
            ap there (w.kept t e)
            ∙ sym (exist_there users t)
            ∙ h.together t
            ∙ timer_there timers t
            ∙ sym (
                timer_there _ t
                ∙ ap there (
                    find_entry-remove_other (is_timer_of sock) (is_timer_of t) timers
                      (timer-Apart sock t e)))
      ];
    }

no_one : {A : Type 0} (o : Option A) → there o ≡ false → o ≡ none
no_one none h = refl
no_one (some a) h = cc h

-- A user whose socket has none comes with a timer.
pub arrive-Paired :
    (users : UsersList) (timers : TimersList) (now : ℕ) (u : UserContext)
    → is_exist users u.socket ≡ false
    → Paired users timers
    → Paired (users_list_add users u) (timers_make_for_socket now timers u.socket)
unfolding users_list_add timers_make_for_socket timers_add
arrive-Paired users timers now u absent h =
    let no_user : user_of users u.socket ≡ none =
      no_one _ (sym (exist_there users u.socket) ∙ absent) in
    let no_timer : find_entry (is_timer_of u.socket) timers ≡ none =
      no_one _ (sym (timer_there timers u.socket) ∙ sym (h.together u.socket) ∙ absent) in
    record {
      users_once = (with_user-IsUsers users u no_user h.users_once).0;
      timers_once = λ t.
          AtMostOne-append (is_timer_of t) timers _
            (λ e.
              subst (λ s. find_entry (is_timer_of s) timers ≡ none)
                ((same_socket_iff u.socket t).0 e) no_timer)
            (h.timers_once t);
      together = λ t.
          exist_there _ t
          ∙ there-append (has_socket t) users u
          ∙ ap (λ b. b || same_socket u.socket t)
              (sym (exist_there users t) ∙ h.together t ∙ timer_there timers t)
          ∙ sym (timer_there _ t ∙ there-append (is_timer_of t) timers _);
    }

with_user_there :
    (users : UsersList) (sock : ℤ) (u v : UserContext)
    → user_of users sock ≡ some u
    → v.socket ≡ sock
    → (t : ℤ) → there (with_user v users t) ≡ is_exist users t
with_user_there users sock u v k p t = elim (Bool-cases (same_socket v.socket t)) [
  | inl e ↦ rw e (
      sym (
        exist_there users t
        ∙ subst (λ s. there (user_of users s) ≡ true) (sym p ∙ (same_socket_iff v.socket t).0 e)
            (ap there k)))
  | inr e ↦ rw e (sym (exist_there users t))
]

-- The user that was found comes back, with its socket.
pub release-Paired :
    (users : UsersList) (timers : TimersList) (sock : ℤ) (u v : UserContext)
    → user_of users sock ≡ some u
    → v.socket ≡ sock
    → Paired users timers
    → Paired (user_accessor_release (user_find_by_sock users sock).1 (some v)).0 timers
release-Paired users timers sock u v k p h =
    let (valid, found) =
      Without-release sock users (user_find_by_sock users sock).1 v p
        (find_by_sock-Without users sock h.users_once) in
    record {
      users_once = valid;
      timers_once = h.timers_once;
      together = λ t.
          exist_there _ t
          ∙ ap there (found t)
          ∙ with_user_there users sock u v k p t
          ∙ h.together t;
    }

pub empty-Paired : Paired [] []
unfolding is_exist timers_is_exist_for_socket pr_timers_get_by_sock find_entry
empty-Paired = record { users_once = λ sock. tt; timers_once = λ sock. tt; together = λ sock. refl }
