-- ===== src/Smtp/Definition.antt =====
-- The definition file of the state machine, server/src/lib/smtp/smtp-states.def, from which the
-- table of generated/smtp-states-fsm.c was made, and the agreement of the two.
use postman.Prelude.{◌≡◌, refl, sym, ◌∙◌, ◌⊎◌, inl, inr, ◌≢◌, ◌↔◌, arith}
use mathlib.Core.Path.{subst}
use postman.Smtp.Fsm.{
  AutofsmState, init, client_init, begin_transaction, transaction, read_data, invalid, done,
  AutofsmEvent, test, rset, helo, mail, rcpt, data_ev, read, end, quit, autofsm_step,
}

-- A line `{tst = s; tev = e; next = t;}` of the definition file, in the file's order.
pub data Transition : AutofsmState → AutofsmEvent → AutofsmState → Type 0 where
  init_rset : Transition init rset init
  init_test : Transition init test init
  init_helo : Transition init helo client_init
  client_init_helo : Transition client_init helo client_init
  client_init_rset : Transition client_init rset init
  client_init_test : Transition client_init test client_init
  client_init_mail : Transition client_init mail begin_transaction
  begin_transaction_helo : Transition begin_transaction helo client_init
  begin_transaction_rset : Transition begin_transaction rset init
  begin_transaction_test : Transition begin_transaction test begin_transaction
  begin_transaction_rcpt : Transition begin_transaction rcpt transaction
  transaction_helo : Transition transaction helo client_init
  transaction_rset : Transition transaction rset init
  transaction_test : Transition transaction test transaction
  transaction_rcpt : Transition transaction rcpt transaction
  transaction_data : Transition transaction data_ev read_data
  read_data_read : Transition read_data read read_data
  read_data_end : Transition read_data end client_init
  init_quit : Transition init quit done
  client_init_quit : Transition client_init quit done
  begin_transaction_quit : Transition begin_transaction quit done
  transaction_quit : Transition transaction quit done

ruleset lines = (
  init_rset, init_test, init_helo, client_init_helo, client_init_rset, client_init_test,
  client_init_mail, begin_transaction_helo, begin_transaction_rset, begin_transaction_test,
  begin_transaction_rcpt, transaction_helo, transaction_rset, transaction_test, transaction_rcpt,
  transaction_data, read_data_read, read_data_end, init_quit, client_init_quit,
  begin_transaction_quit, transaction_quit,
)

listed :
    (s : AutofsmState) (e : AutofsmEvent)
    → s ≢ invalid
    → s ≢ done
    → (autofsm_step s e ≡ invalid) ⊎ Transition s e (autofsm_step s e)
unfolding autofsm_step
listed s e h k = grind (arith, lines)

made : {s t : AutofsmState} {e : AutofsmEvent} → Transition s e t → autofsm_step s e ≡ t
unfolding autofsm_step
made init_rset = refl
made _ = refl

target : {s t : AutofsmState} {e : AutofsmEvent} → Transition s e t → t ≢ invalid
target init_rset p = cc
target _ p = cc

-- The table agrees with the definition file: from a state that is neither `invalid` nor `done`, an
-- event leads to a state other than `invalid` exactly when a line of the file says so, and to that
-- state.
pub autofsm_step-iff-Transition :
    (s t : AutofsmState) (e : AutofsmEvent)
    → s ≢ invalid
    → s ≢ done
    → ((autofsm_step s e ≡ t) × (t ≢ invalid)) ↔ Transition s e t
autofsm_step-iff-Transition s t e h k = (forth, back)
  where
    forth : (autofsm_step s e ≡ t) × (t ≢ invalid) → Transition s e t
    forth (p, q) = elim (listed s e h k) [
      | inl r ↦ absurd (q (sym p ∙ r))
      | inr r ↦ subst (Transition s e) p r
    ]

    back : Transition s e t → (autofsm_step s e ≡ t) × (t ≢ invalid)
    back r = (made r, target r)
