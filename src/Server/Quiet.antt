-- ===== src/Server/Quiet.antt =====
-- A pass of the event loop of server/src/lib/event_loop/event_loop.c in which no timer is due.
use postman.Prelude.{
  ℕ, suc, ◌+◌, ◌<◌, List, [], ◌∷◌, ◌++◌, map, length, length-append, append_assoc, get_elem?, Bool,
  true, false, not, ◌&&◌, none, some, if◌then◌else◌, ◌≡◌, ◌⊎◌, inl, inr, refl, sym, ap, ◌∙◌, arith,
}
use postman.EventLoop.Event.{Event, s_malloc}
use postman.EventLoop.Loop.{take_occurred}
use postman.EventLoop.Occurred.{oeq_pop_begin}
use postman.Smtp.Regex.{Matcher}
use postman.Maildir.{FileSystem}
use postman.Server.Users.{ClientAddr, UserContext}
use postman.Server.State.{Configuration, Server, TimerEvent}
use postman.Server.Read.{Served, served}
use postman.Server.Dispatch.{
  change_timer, processed, is_due, without_removed, list_removed, after_timer, next_timer,
  fire_timer, run_timers, execute_event, next_event, run_event, after_timers, el_run,
}

-- A timer whose time has not come, or that was deleted.
abbrev pub IsQuiet : ℕ → TimerEvent → Type 0
IsQuiet now e = (now < e.time_start + e.period) ⊎ (e.has_delete ≡ true)

abbrev pub AreQuiet : ℕ → List TimerEvent → Type 0
AreQuiet now [] = Unit {0}
AreQuiet now (e ∷ events) = IsQuiet now e × AreQuiet now events

-- A timer that the pass takes out of the list.
abbrev pub is_leaving : TimerEvent → Bool
is_leaving e = e.has_delete && not e.is_processed

-- The timers that stay, in their order.
abbrev pub staying : List TimerEvent → List TimerEvent
staying [] = []
staying (e ∷ events) = if is_leaving e then staying events else e ∷ staying events

abbrev marked : TimerEvent → TimerEvent
marked e = if is_leaving e then processed e else e

not_due : (now : ℕ) (e : TimerEvent) → IsQuiet now e → is_due now e ≡ false
not_due now e (inl h) = ground (arith, h)
not_due now e (inr h) = ground (arith, h)

get_elem?-middle :
    (before events : List TimerEvent) (e : TimerEvent)
    → get_elem? (before ++ e ∷ events) (length before) ≡ some e
get_elem?-middle [] events e = refl
get_elem?-middle (x ∷ before) events e = get_elem?-middle before events e

change_timer-middle :
    (f : TimerEvent → TimerEvent) (before events : List TimerEvent) (e : TimerEvent)
    → change_timer f (before ++ e ∷ events) (length before) ≡ before ++ f e ∷ events
unfolding change_timer
change_timer-middle f [] events e = refl
change_timer-middle f (x ∷ before) events e = ap (◌∷◌ x) (change_timer-middle f before events e)

without_removed-marked :
    (events : List TimerEvent)
    → without_removed (map marked events) (map is_leaving events) ≡ staying events
unfolding without_removed
without_removed-marked [] = refl
without_removed-marked (e ∷ events) = by_flag (is_leaving e) refl (without_removed-marked events)
  where
    by_flag :
        (b : Bool)
        → is_leaving e ≡ b
        → without_removed (map marked events) (map is_leaving events) ≡ staying events
        → without_removed (map marked (e ∷ events)) (map is_leaving (e ∷ events))
          ≡ staying (e ∷ events)
    by_flag true h k = rw h k
    by_flag false h k = rw h (ap (◌∷◌ e) k)

module _ {D : Type 0} (config : Configuration) (now : ℕ) (srv : Server D) where
  -- The server with some timers, and with memory at hand.
  abbrev holding : List TimerEvent → Server D
  holding events = record srv { timer_events = events; memory = [] }

  list_removed-middle :
      (before events : List TimerEvent) (e : TimerEvent)
      → list_removed (length before) (holding (before ++ e ∷ events)) e
        ≡ some (holding (before ++ marked e ∷ events), is_leaving e)
  unfolding list_removed s_malloc
  list_removed-middle before events e = by_flag (is_leaving e) refl
    where
      by_flag :
          (b : Bool)
          → is_leaving e ≡ b
          → list_removed (length before) (holding (before ++ e ∷ events)) e
            ≡ some (holding (before ++ marked e ∷ events), is_leaving e)
      by_flag true h =
          rw h (ap (λ es. some (holding es, true)) (change_timer-middle processed before events e))
      by_flag false h = rw h refl

  fire_timer-quiet :
      (i : ℕ) (s : Server D) (e : TimerEvent) → IsQuiet now e → fire_timer config now i s e ≡ some s
  unfolding fire_timer
  fire_timer-quiet i s e h = rw (not_due now e h) refl

  -- A timer that is quiet is passed over, and marked if it is to leave.
  quiet_timer :
      (before events : List TimerEvent) (e : TimerEvent)
      → IsQuiet now e
      → after_timer
          (length before)
          (fire_timer config now (length before) (holding (before ++ e ∷ events)) e)
        ≡ some (holding (before ++ marked e ∷ events), is_leaving e)
  unfolding after_timer
  quiet_timer before events e h =
      ap (after_timer (length before))
        (fire_timer-quiet (length before) (holding (before ++ e ∷ events)) e h)
      ∙ ap
          (λ o. elim o [
            | none ↦ some (holding (before ++ e ∷ events), false)
            | some e' ↦ list_removed (length before) (holding (before ++ e ∷ events)) e'
          ])
          (get_elem?-middle before events e)
      ∙ list_removed-middle before events e

  -- The loop, behind timers that it has passed.
  abbrev Passed : List TimerEvent → List TimerEvent → List TimerEvent → Type 0
  Passed before events rest =
      run_timers config now (length events) (length before) (holding (before ++ events))
      ≡ some (holding (before ++ rest), map is_leaving events)

  longer :
      (before events rest : List TimerEvent) (e : TimerEvent)
      → Passed (before ++ e ∷ []) events rest
      → run_timers config now (length events) (suc (length before)) (holding (before ++ e ∷ events))
        ≡ some (holding (before ++ e ∷ rest), map is_leaving events)
  longer before events rest e h =
      ap (λ n. run_timers config now (length events) n (holding (before ++ e ∷ events)))
        (omega (arith, length-append before (e ∷ [])))
      ∙ ap (λ es. run_timers config now (length events) (length (before ++ e ∷ [])) (holding es))
          (sym (append_assoc before (e ∷ []) events))
      ∙ h
      ∙ ap (λ es. some (holding es, map is_leaving events)) (append_assoc before (e ∷ []) rest)

  run_timers-quiet :
      (before events : List TimerEvent)
      → AreQuiet now events
      → Passed before events (map marked events)
  unfolding run_timers next_timer
  run_timers-quiet before [] h = refl
  run_timers-quiet before (e ∷ events) h =
      let s = holding (before ++ e ∷ events) in
      let n = length before in
      ap
        (λ o. elim o [
          | none ↦ some (s, [])
          | some e' ↦ elim (after_timer n (fire_timer config now n s e')) [
            | none ↦ none
            | some (next, flag) ↦
                next_timer (run_timers config now (length events) (suc n) next) flag
          ]
        ])
        (get_elem?-middle before events e)
      ∙ ap
          (λ o. elim o [
            | none ↦ none
            | some (next, flag) ↦
                next_timer (run_timers config now (length events) (suc n) next) flag
          ])
          (quiet_timer before events e h.0)
      ∙ ap (λ r. next_timer r (is_leaving e))
          (longer before events (map marked events) (marked e)
            (run_timers-quiet (before ++ marked e ∷ []) events h.1))

module _ {D : Type 0} (fs : FileSystem D) (config : Configuration) (now : ℕ) (regexec : Matcher)
    (context : UserContext) (addr : ClientAddr) where
  -- The event that has occurred first goes to its handler, and the others wait.
  abbrev pub first_handled : Server D → List Event → Served D
  first_handled srv [] = served srv
  first_handled srv (event ∷ events) =
      execute_event fs config now regexec context addr
        (record srv { loop = record srv.loop { occurred_events = events } }) event event.type

  run_event-first :
      (srv : Server D) (q : List Event)
      → srv.loop.occurred_events ≡ q
      → run_event fs config now regexec context addr srv ≡ first_handled srv q
  unfolding run_event next_event take_occurred oeq_pop_begin
  run_event-first srv [] h = rw h refl
  run_event-first srv (e ∷ es) h = rw h refl

-- With memory at hand, where each timer is deleted or its period has not passed, a pass of
-- `el_run` fires none of them: it takes those that are deleted and not in use out of the list,
-- keeps the others as they are, in their order, and hands the event that has occurred first to its
-- handler, on a state in which the other events wait; without an event it ends.
pub el_run-quiet :
    {D : Type 0} (fs : FileSystem D) (config : Configuration) (now : ℕ) (regexec : Matcher)
    (context : UserContext) (addr : ClientAddr) (srv : Server D)
    → srv.memory ≡ []
    → AreQuiet now srv.timer_events
    → el_run fs config now regexec context addr srv
      ≡ first_handled fs config now regexec context addr
          (record srv { timer_events = staying srv.timer_events; memory = [] })
          srv.loop.occurred_events
unfolding el_run after_timers
el_run-quiet fs config now regexec context addr srv m h =
    ap
      (λ mem.
        after_timers fs config now regexec context addr
          (run_timers config now (length srv.timer_events) 0 (record srv { memory = mem })))
      m
    ∙ ap (after_timers fs config now regexec context addr)
        (run_timers-quiet config now srv [] srv.timer_events h)
    ∙ ap
        (λ es.
          run_event fs config now regexec context addr
            (record srv { timer_events = es; memory = [] }))
        (without_removed-marked srv.timer_events)
    ∙ run_event-first fs config now regexec context addr
        (record srv { timer_events = staying srv.timer_events; memory = [] })
        srv.loop.occurred_events refl
