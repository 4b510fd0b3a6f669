-- ===== src/Smtp/Fsm.antt =====
-- The state machine of the SMTP dialogue: server/src/lib/smtp/generated/smtp-states-fsm.c and .h.
-- `trans_table` has the table's rows by state and its columns by event. `handle` is the switch of
-- `autofsm_step`, whose cases leave the next state as the table gives it.
use postman.Prelude.{Bool, true, false, if◌then◌else◌}

pub data AutofsmState : Type 0 where
  init client_init begin_transaction transaction read_data invalid done : AutofsmState

pub AutofsmState-discrete : Discrete AutofsmState
AutofsmState-discrete = hlevel

pub data AutofsmEvent : Type 0 where
  test rset helo mail rcpt data_ev read end quit invalid_ev : AutofsmEvent

-- te_autofsm_trans.
pub data AutofsmTrans : Type 0 where
  begin_transaction_helo begin_transaction_quit begin_transaction_rcpt : AutofsmTrans
  begin_transaction_rset begin_transaction_test : AutofsmTrans
  client_init_helo client_init_mail client_init_quit client_init_rset : AutofsmTrans
  client_init_test init_helo init_quit init_rset init_test invalid_tr : AutofsmTrans
  read_data_end read_data_read : AutofsmTrans
  transaction_data transaction_helo transaction_quit transaction_rcpt : AutofsmTrans
  transaction_rset transaction_test : AutofsmTrans

-- A cell of the table.
pub record AutofsmTransition : Type 0 where
  pub next_state : AutofsmState
  pub transition : AutofsmTrans

abbrev cell : AutofsmState → AutofsmTrans → AutofsmTransition
cell s t = record { next_state = s; transition = t }

-- The rows of the two terminal states are beyond the table: `autofsm_step` never reads them.
trans_table : AutofsmState → AutofsmEvent → AutofsmTransition
trans_table init test = cell init init_test
trans_table init rset = cell init init_rset
trans_table init helo = cell client_init init_helo
trans_table init quit = cell done init_quit
trans_table client_init test = cell client_init client_init_test
trans_table client_init rset = cell init client_init_rset
trans_table client_init helo = cell client_init client_init_helo
trans_table client_init mail = cell begin_transaction client_init_mail
trans_table client_init quit = cell done client_init_quit
trans_table begin_transaction test = cell begin_transaction begin_transaction_test
trans_table begin_transaction rset = cell init begin_transaction_rset
trans_table begin_transaction helo = cell client_init begin_transaction_helo
trans_table begin_transaction rcpt = cell transaction begin_transaction_rcpt
trans_table begin_transaction quit = cell done begin_transaction_quit
trans_table transaction test = cell transaction transaction_test
trans_table transaction rset = cell init transaction_rset
trans_table transaction helo = cell client_init transaction_helo
trans_table transaction rcpt = cell transaction transaction_rcpt
trans_table transaction data_ev = cell read_data transaction_data
trans_table transaction quit = cell done transaction_quit
trans_table read_data read = cell read_data read_data_read
trans_table read_data end = cell client_init read_data_end
trans_table _ _ = cell invalid invalid_tr

-- (unsigned) state >= AUTOFSM_ST_INVALID.
is_terminal : AutofsmState → Bool
is_terminal invalid = true
is_terminal done = true
is_terminal _ = false

-- event >= AUTOFSM_EV_INVALID.
unfoldable pub is_invalid_event : AutofsmEvent → Bool
is_invalid_event invalid_ev = true
is_invalid_event _ = false

-- Each case of the switch is a `break`; the invalid transition prints and exits nothing.
handle : AutofsmTransition → AutofsmState
handle c = c.next_state

unfoldable pub autofsm_step : AutofsmState → AutofsmEvent → AutofsmState
unfolding trans_table is_terminal is_invalid_event handle
autofsm_step st ev =
    if is_terminal st
    then init
    else if is_invalid_event ev
    then handle (cell invalid invalid_tr)
    else handle (trans_table st ev)
