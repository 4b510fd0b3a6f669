-- ===== src/Server/Elapsed.antt =====
-- When a user's time is up: server/src/lib/server/timers.c.
use postman.Prelude.{
  ℕ, ◌+◌, Bool, true, false, ◌&&◌, Option, none, some, Option-cases, ltb, find_entry,
  find_entry-change_same, find_entry-change_none, find_entry-change_other, find_entry-holds, ◌≡◌,
  refl, sym, ◌∙◌, inl, inr,
}
use postman.EventLoop.Event.{ℤ, same_socket}
use postman.Server.Timers.{
  TimerEntry, TimersList, is_timer_of, pr_timers_get_by_sock, timers_update_by_socket,
  timers_is_elapsed_for_socket, timers_is_exist_for_socket, updated,
}
use postman.Server.Paired.{timer-Apart}

elapsed_of : Option TimerEntry → ℕ → ℕ → Bool
elapsed_of none later t = false
elapsed_of (some e) later t = ltb (e.t.last_update + t) later

elapsed_eq :
    (timers : TimersList) (sock : ℤ) (later t : ℕ) (o : Option TimerEntry)
    → find_entry (is_timer_of sock) timers ≡ o
    → timers_is_elapsed_for_socket later timers sock t ≡ elapsed_of o later t
unfolding timers_is_elapsed_for_socket pr_timers_get_by_sock elapsed_of
elapsed_eq timers sock later t none h = rw (h, timers_is_elapsed_for_socket) refl
elapsed_eq timers sock later t (some e) h = rw (h, timers_is_elapsed_for_socket) refl

exist_eq :
    (timers : TimersList) (sock : ℤ) (o : Option TimerEntry)
    → find_entry (is_timer_of sock) timers ≡ o
    → timers_is_exist_for_socket timers sock ≡ elim o [ none ↦ false | some _ ↦ true ]
unfolding timers_is_exist_for_socket pr_timers_get_by_sock
exist_eq timers sock none h = rw (h, timers_is_exist_for_socket) refl
exist_eq timers sock (some e) h = rw (h, timers_is_exist_for_socket) refl

-- After an update the timer of the socket is elapsed exactly if there is one and more than the
-- period has passed since the update; for any other socket nothing changes.
pub update-elapsed :
    (timers : TimersList) (sock : ℤ) (now later t : ℕ)
    → let after = timers_update_by_socket now timers sock in
      (timers_is_elapsed_for_socket later after sock t
        ≡ (timers_is_exist_for_socket timers sock && ltb (now + t) later))
      × ((other : ℤ)
          → same_socket sock other ≡ false
          → timers_is_elapsed_for_socket later after other t
            ≡ timers_is_elapsed_for_socket later timers other t)
unfolding timers_update_by_socket elapsed_of
update-elapsed timers sock now later t = (
  elim (Option-cases (find_entry (is_timer_of sock) timers)) [
    | inl h ↦
        elapsed_eq _ sock later t none (
          find_entry-change_none (is_timer_of sock) (is_timer_of sock) (updated now) timers
            (λ _. refl) h)
        ∙ rw (exist_eq timers sock none h) refl
    | inr (e, h) ↦
        elapsed_eq _ sock later t (some (updated now e)) (
          find_entry-change_same (is_timer_of sock) (updated now) timers e
            (find_entry-holds (is_timer_of sock) timers e h) h)
        ∙ rw (exist_eq timers sock (some e) h) refl
  ],
  λ other n.
      elapsed_eq _ other later t _ (
        find_entry-change_other (is_timer_of sock) (is_timer_of other) (updated now) timers
          (timer-Apart sock other n) (timer-Apart sock other n))
      ∙ sym (elapsed_eq timers other later t _ refl),
)
