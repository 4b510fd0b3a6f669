-- ===== src/Client/Connections.antt =====
-- The connections of a thread: `start_thread` of client/src/context/context.c. A cell of the array
-- whose strings were freed is none. Threads take no steps between those of a round.
use postman.Prelude.{
  ℕ, zero, suc, ◌+◌, ◌-◌, ◌%◌, get_elem?, List, [], ◌∷◌, ◌++◌, length, take, bytes_eq, Bool, true,
  false, ◌&&◌, not, Option, none, some, ltb, ◌==◌, if◌then◌else◌,
}
use postman.Client.Network.{Peer}
use postman.Client.Mailbox.{
  MaildirOtherServer, MailFiles, remove_all_message_server, read_maildir_servers,
}
use postman.Client.Smtp.{smtp_connect, not_answer}
use postman.Client.Context.{MultiplexContext, Round, HandlerResult, faulted, exited, stays, removed}
use postman.Client.Handlers.{serve}

-- struct thread: its number, the array, the number of its connections, and whether the sets of ready
-- sockets were emptied since pselect, which `remove_socket_from_context` does.
pub record Thread : Type 0 where
  pub id_thread : ℕ
  pub multiplex_context : List (Option MultiplexContext)
  pub multiplex_context_size : ℕ
  pub is_cleared : Bool

-- How a round ends: the client stops, a use of memory that was freed or is out of range, a wait for a
-- mutex that is never unlocked, or the end of the round.
pub data Pass (A : Type 0) : Type 0 where
  stops : Pass A
  breaks : Pass A
  hangs : Pass A
  passes : A → Pass A

abbrev pub then_pass : {A B : Type 0} → Pass A → (A → Pass B) → Pass B
then_pass stops f = stops
then_pass breaks f = breaks
then_pass hangs f = hangs
then_pass (passes a) f = f a

-- The loop over the connections of one thread.
unfoldable pub has_server : List ℕ → ℕ → List (Option MultiplexContext) → Pass Bool
has_server server zero cells = passes false
has_server server (suc n) [] = breaks
has_server server (suc n) (none ∷ cells) = breaks
has_server server (suc n) (some context ∷ cells) =
    let rest = has_server server n cells in
    if bytes_eq server context.server.server then passes true else rest

unfoldable pub any_has_server : List ℕ → List Thread → Pass Bool
unfolding has_server
any_has_server server [] = passes false
any_has_server server (thr ∷ threads) =
    let rest = any_has_server server threads in
    then_pass (has_server server thr.multiplex_context_size thr.multiplex_context)
      (λ found. if found then passes true else rest)

-- The result, and whether the mutex is locked behind it: it is unlocked only if nothing was found.
unfoldable pub is_contains : List ℕ → List Thread → Bool → Pass (Bool × Bool)
unfolding any_has_server
is_contains server threads true = hangs
is_contains server threads false =
    then_pass (any_has_server server threads) (λ found. passes (found, found))

-- A new connection, in an array of its own size: the connections of this round before it are copied.
abbrev pub connected_to : Thread → ℕ → MaildirOtherServer → Peer → Thread
connected_to thr i server socket = record thr {
  multiplex_context =
      take i thr.multiplex_context
      ++ some (record {
        smtp_context = record { socket_desc = socket; state_code = smtp_connect };
        status_code = not_answer;
        server = server;
        select_message = none;
        iteration = 0;
      })
        ∷ [];
  multiplex_context_size = thr.multiplex_context_size + 1;
}

module _ {D : Type 0} (files : MailFiles D) (connects : List ℕ → D → Option Peer × D) where
  -- What follows a connection that is tried; the loop ends where it fails. `more` is the rest of it.
  unfoldable pub tried :
      Thread
      → ℕ
      → MaildirOtherServer
      → Bool
      → Option Peer × D
      → (Thread → ℕ → Bool → D → Pass (Thread × Bool × D))
      → Pass (Thread × Bool × D)
  unfolding remove_all_message_server
  tried thr i server locked (none, d) more =
      passes (thr, locked, remove_all_message_server files server d)
  tried thr i server locked (some socket, d) more =
      more (connected_to thr i server socket) (suc i) locked d

  -- The loop over the servers with mails, by the threads before and behind this one.
  unfoldable pub make_connections :
      List Thread
      → List Thread
      → List MaildirOtherServer
      → ℕ
      → Thread
      → ℕ
      → Bool
      → D
      → Pass (Thread × Bool × D)
  unfolding is_contains tried
  make_connections before after [] j thr i locked d = passes (thr, locked, d)
  make_connections before after (server ∷ servers) j thr i locked d =
      let more = make_connections before after servers (suc j) in
      let threads = before ++ thr ∷ after in
      if not (length server.message_full_file_names == 0)
        && (i + j) % length threads == thr.id_thread
      then then_pass (is_contains server.server threads locked) (λ (found, still).
        if found
        then more thr i still d
        else tried thr i server still (connects server.server d) more)
      else more thr i locked d

-- What a handler finds of its socket.
abbrev pub seen : Thread → (MultiplexContext → Round) → MultiplexContext → Round
seen thr look context =
    if thr.is_cleared
    then record (look context) { is_ready_for_read = false; is_ready_for_write = false }
    else look context

-- The loop of `remove_multiplex_context` from the cell that is removed on, by the number of the cells
-- behind it: each takes what the next one holds. None is a read behind the array.
unfoldable pub move_forward :
    ℕ → List (Option MultiplexContext) → Option (List (Option MultiplexContext))
move_forward zero cells = some cells
move_forward (suc n) (c ∷ (next ∷ cells)) =
    let moved = move_forward n (next ∷ cells) in
    elim moved [ none ↦ none | some rest ↦ some (next ∷ rest) ]
move_forward (suc n) _ = none

-- `free_multiplex_context` of the first cell; none is the second free of the same strings.
unfoldable pub free_first :
    Option (List (Option MultiplexContext)) → Option (List (Option MultiplexContext))
free_first (some (some context ∷ cells)) = some (none ∷ cells)
free_first _ = none

-- A change of the cells from an index on.
unfoldable pub change_from :
    ℕ
    → (List (Option MultiplexContext) → Option (List (Option MultiplexContext)))
    → List (Option MultiplexContext)
    → Option (List (Option MultiplexContext))
change_from zero f cells = f cells
change_from (suc i) f [] = none
change_from (suc i) f (c ∷ cells) =
    let changed = change_from i f cells in
    elim changed [ none ↦ none | some rest ↦ some (c ∷ rest) ]

-- The sets are emptied, the later cells move forward, and then the strings of the cell at the index are
-- freed, where the connection behind the removed one stands now.
unfoldable pub remove_multiplex_context : ℕ → Thread → Option Thread
unfolding move_forward free_first change_from
remove_multiplex_context i thr =
    elim (change_from i
      (λ cells. free_first (move_forward (thr.multiplex_context_size - suc i) cells))
      thr.multiplex_context) [
        | none ↦ none
        | some cells ↦ some (record thr {
          multiplex_context = cells;
          multiplex_context_size = thr.multiplex_context_size - 1;
          is_cleared = true;
        })
      ]

-- The connection at an index as its handler left it.
unfoldable pub put_context : ℕ → MultiplexContext → Thread → Option Thread
unfolding change_from
put_context i context thr =
    elim (change_from i (λ cells. elim cells [ [] ↦ none | _ ∷ rest ↦ some (some context ∷ rest) ])
      thr.multiplex_context) [
        | none ↦ none
        | some cells ↦ some (record thr { multiplex_context = cells })
      ]

-- The rest of the loop, on a thread that was changed.
abbrev pub goes_on : {A : Type 0} → Option Thread → (Thread → Pass A) → Pass A
goes_on none later = breaks
goes_on (some thr) later = later thr

-- A connection behind its handler, and the rest of the loop. What its handler left of a removed one
-- is not read again.
abbrev pub by_result :
    {D : Type 0}
    → ℕ
    → Thread
    → HandlerResult D
    → (Thread → D → Pass (Thread × D))
    → Pass (Thread × D)
by_result i thr faulted later = breaks
by_result i thr exited later = stops
by_result i thr (stays context d) later = goes_on (put_context i context thr) (λ t. later t d)
by_result i thr (removed context d) later =
    goes_on (remove_multiplex_context i thr) (λ t. later t d)

-- The cell that is read.
abbrev pub with_cell :
    {A : Type 0} → Option (Option MultiplexContext) → (MultiplexContext → Pass A) → Pass A
with_cell none f = breaks
with_cell (some none) f = breaks
with_cell (some (some context)) f = f context

module _ {D : Type 0} (files : MailFiles D) (look : MultiplexContext → Round) where
  -- The loop over the connections, by their index, on fuel: a round goes on to the next index, and the
  -- number of connections does not grow, so as much fuel as there are connections is enough.
  unfoldable pub serve_each : ℕ → ℕ → Thread → D → Pass (Thread × D)
  unfolding serve remove_multiplex_context put_context
  serve_each zero i thr d = passes (thr, d)
  serve_each (suc fuel) i thr d =
      let later = serve_each fuel (suc i) in
      if ltb i thr.multiplex_context_size
      then with_cell (get_elem? thr.multiplex_context i)
          (λ context. by_result i thr (serve files (seen thr look context) context d) later)
      else passes (thr, d)

-- What pselect gives: a failure, no descriptor within the time, or the sets of those that are ready.
pub data Waited : Type 0 where
  failed timeout : Waited
  some_ready : (MultiplexContext → Round) → Waited

module _ {D : Type 0} (files : MailFiles D) (connects : List ℕ → D → Option Peer × D) where
  -- The round behind pselect, by the mail directory as `init_maildir` finds it, which may be NULL. A
  -- failure of pselect ends the thread.
  unfoldable pub run_round :
      List Thread
      → List Thread
      → Option (List ℕ)
      → Waited
      → Thread
      → Bool
      → D
      → Pass (Thread × Bool × D)
  unfolding make_connections serve_each read_maildir_servers
  run_round before after directory failed thr locked d = stops
  run_round before after none timeout thr locked d = passes (thr, locked, d)
  run_round before after (some path) timeout thr locked d =
      make_connections files connects before after (read_maildir_servers files path d) 0 thr 0
        locked d
  run_round before after directory (some_ready look) thr locked d =
      then_pass
        (serve_each files look thr.multiplex_context_size 0 (record thr { is_cleared = false }) d)
        (λ (served, d'). passes (served, locked, d'))
