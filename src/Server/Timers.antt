-- ===== src/Server/Timers.antt =====
-- The time of a user's last message: server/include/server/timers.h and
-- server/src/lib/server/timers.c. A function that holds the mutex runs as one step, and `now` is
-- what time() returns in it. Memory is always there.
use postman.Prelude.{
  ℕ, ◌+◌, List, [], ◌∷◌, ◌++◌, Bool, true, false, Option, none, some, ltb, find_entry, remove_entry,
  change_entry,
}
use postman.EventLoop.Event.{ℤ, same_socket}

pub record TimerType : Type 0 where
  pub socket : ℤ
  pub last_update : ℕ

-- struct timer_entry.
pub record TimerEntry : Type 0 where
  pub t : TimerType
  pub is_delete : Bool
  pub num_iterators : ℕ

abbrev pub TimersList : Type 0
TimersList = List TimerEntry

abbrev pub is_timer_of : ℤ → TimerEntry → Bool
is_timer_of sock entry = same_socket entry.t.socket sock

unfoldable pub pr_timers_get_by_sock : TimersList → ℤ → Option TimerEntry
pr_timers_get_by_sock timers sock = find_entry (is_timer_of sock) timers

unfoldable pub timers_add : TimersList → TimerType → TimersList
timers_add timers timer = timers ++ record { t = timer; is_delete = false; num_iterators = 0 } ∷ []

unfoldable pub timers_make_for_socket : ℕ → TimersList → ℤ → TimersList
unfolding timers_add
timers_make_for_socket now timers sock =
    timers_add timers (record { socket = sock; last_update = now })

unfoldable pub timers_remove_for_socket : TimersList → ℤ → TimersList
timers_remove_for_socket timers sock = remove_entry (is_timer_of sock) timers

abbrev pub updated : ℕ → TimerEntry → TimerEntry
updated now entry = record entry { t = record entry.t { last_update = now } }

unfoldable pub timers_update_by_socket : ℕ → TimersList → ℤ → TimersList
timers_update_by_socket now timers sock = change_entry (is_timer_of sock) (updated now) timers

unfoldable pub timers_is_elapsed_for_socket : ℕ → TimersList → ℤ → ℕ → Bool
unfolding pr_timers_get_by_sock
timers_is_elapsed_for_socket now timers sock t = elim (pr_timers_get_by_sock timers sock) [
  | none ↦ false
  | some entry ↦ ltb (entry.t.last_update + t) now
]

unfoldable pub timers_is_exist_for_socket : TimersList → ℤ → Bool
unfolding pr_timers_get_by_sock
timers_is_exist_for_socket timers sock = elim (pr_timers_get_by_sock timers sock) [
  | none ↦ false
  | some _ ↦ true
]
