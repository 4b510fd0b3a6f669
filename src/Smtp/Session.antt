-- ===== src/Smtp/Session.antt =====
-- A dialogue: the messages that a client sends, one `smtp_parse` of server/src/lib/smtp/state.c
-- for each.
use postman.Prelude.{
  ℕ, List, [], ◌∷◌, all, Bool-cases, Option, none, some, Option-cases, ◌≡◌, refl, sym, ap, ◌∙◌, inl,
  inr,
}
use mathlib.Core.Path.{subst}
use postman.Text.{is_space}
use postman.Smtp.Fsm.{AutofsmState, AutofsmEvent, AutofsmState-discrete}
use postman.Smtp.Order.{advance, advance_all, IsSubsequence, read_data-needs_all}
use postman.Smtp.Regex.{Matcher, IsMatcher}
use postman.Smtp.State.{SmtpState, SmtpStatus, smtp_init}
use postman.Smtp.Parse.{smtp_parse}
use postman.Smtp.Replies.{IsWell, smtp_init-IsWell}
use postman.Smtp.Invariant.{Handled, heard, smtp_parse-Done, smtp_parse-blank}

module _ (regexec : Matcher) where
  -- The state after the messages.
  unfoldable pub run : SmtpState → List (List ℕ) → Option SmtpState
  run s [] = some s
  run s (m ∷ ms) = elim (smtp_parse regexec s m) [ none ↦ none | some (t, _) ↦ run t ms ]

  -- What was heard on the way, up to a fault.
  unfoldable pub heard_all : SmtpState → List (List ℕ) → List AutofsmEvent
  heard_all s [] = []
  heard_all s (m ∷ ms) =
      heard regexec s m ∷ elim (smtp_parse regexec s m) [ none ↦ [] | some (t, _) ↦ heard_all t ms ]

  run-cons :
      (s t : SmtpState) (st : SmtpStatus) (m : List ℕ) (ms : List (List ℕ))
      → smtp_parse regexec s m ≡ some (t, st)
      → run s (m ∷ ms) ≡ run t ms
  unfolding run
  run-cons s t st m ms e = rw (e, run) refl

  run-fault :
      (s : SmtpState) (m : List ℕ) (ms : List (List ℕ))
      → smtp_parse regexec s m ≡ none
      → run s (m ∷ ms) ≡ none
  unfolding run
  run-fault s m ms e = rw (e, run) refl

  heard_all-cons :
      (s t : SmtpState) (st : SmtpStatus) (m : List ℕ) (ms : List (List ℕ))
      → smtp_parse regexec s m ≡ some (t, st)
      → heard_all s (m ∷ ms) ≡ heard regexec s m ∷ heard_all t ms
  unfolding heard_all
  heard_all-cons s t st m ms e = rw (e, heard_all) refl

  module _ (law : IsMatcher regexec) where
    -- A step that has a result leaves a well-formed state, where the machine says.
    smtp_parse-moves :
        (s t : SmtpState) (st : SmtpStatus) (m : List ℕ)
        → IsWell s
        → smtp_parse regexec s m ≡ some (t, st)
        → IsWell t × (t.fsm_state ≡ advance s.fsm_state (heard regexec s m))
    smtp_parse-moves s t st m h e =
        elim (AutofsmState-discrete s.fsm_state AutofsmState.read_data) [
          | yes p ↦ agree (smtp_parse-Done regexec law s m (λ k. absurd (k p)) h)
          | no k ↦ elim (Bool-cases (all is_space m)) [
            | inl b ↦ absurd (fault (smtp_parse-blank regexec s m k b))
            | inr d ↦ agree (smtp_parse-Done regexec law s m (λ _. d) h)
          ]
        ]
      where
        agree :
            Handled regexec s m → IsWell t × (t.fsm_state ≡ advance s.fsm_state (heard regexec s m))
        agree (u, su, f, w, p, _, _) =
            let q : u ≡ t = cc in
            (
              subst IsWell q w,
              subst (λ v. v.fsm_state ≡ advance s.fsm_state (heard regexec s m)) q p,
            )

        fault : smtp_parse regexec s m ≡ none → ⊥
        fault n = cc

    run-advance_all :
        (s t : SmtpState) (ms : List (List ℕ))
        → IsWell s
        → run s ms ≡ some t
        → advance_all s.fsm_state (heard_all s ms) ≡ t.fsm_state
    unfolding run advance_all heard_all
    run-advance_all s t [] h e = cc
    run-advance_all s t (m ∷ ms) h e = elim (Option-cases (smtp_parse regexec s m)) [
      | inl n ↦ absurd (cc (run-fault s m ms n))
      | inr ((u, su), f) ↦
          let (w, p) = smtp_parse-moves s u su m h f in
          ap (advance_all s.fsm_state) (heard_all-cons s u su m ms f)
          ∙ (ap (λ n. advance_all n (heard_all u ms)) (sym p)
              ∙ run-advance_all u t ms w (sym (run-cons s u su m ms f) ∙ e))
    ]

    -- When a dialogue from the initial state has come to the mail text, then a greeting, a sender,
    -- a recipient and DATA are, in this order, among the commands that were recognised in it. The
    -- regex matcher is any that obeys the documented laws in IsMatcher.
    pub run-read_data :
        (s t : SmtpState) (ms : List (List ℕ))
        → run (smtp_init s) ms ≡ some t
        → t.fsm_state ≡ AutofsmState.read_data
        → IsSubsequence
            (AutofsmEvent.helo ∷ AutofsmEvent.mail ∷ AutofsmEvent.rcpt ∷ AutofsmEvent.data_ev ∷ [])
            (heard_all (smtp_init s) ms)
    unfolding smtp_init
    run-read_data s t ms e d =
        read_data-needs_all _ (run-advance_all (smtp_init s) t ms (smtp_init-IsWell s) e ∙ d)
