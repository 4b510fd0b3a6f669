-- ===== src/Client/ConnectionTests.antt =====
-- Runs of the model of the client's thread on small inputs.
use postman.Prelude.{ℕ, List, [], ◌∷◌, Bool, true, false, Option, none, some, ◌≡◌, ◌≢◌, refl, arith}
use postman.Smtp.State.{bytes}
use postman.Client.Network.{Peer}
use postman.Client.Letter.{Message}
use postman.Client.Mailbox.{MaildirOtherServer, MailFiles}
use postman.Client.Smtp.{StateCode, smtp_helo, smtp_quit}
use postman.Client.Context.{MultiplexContext, Round, removed}
use postman.Client.Handlers.{serve}
use postman.Client.Connections.{Thread, hangs, passes, seen, make_connections, serve_each}
use postman.Client.Overlaps.{serve_each-frees_next}
use postman.Client.Mutex.{make_connections-hangs}

abbrev no_files : MailFiles Bool
no_files = record {
  entries = λ path d. [];
  content = λ path d. none;
  is_not_file = λ path d. true;
  is_not_directory = λ path d. true;
  remove = λ path d. (false, d);
}

abbrev idle_round : MultiplexContext → Round
idle_round context = record {
  is_ready_for_read = false;
  is_ready_for_write = false;
  hostname = [];
  stack = [];
}

abbrev open_socket : Peer
open_socket = record { input = []; answers = []; wire = [] }

abbrev mails_for : List ℕ → MaildirOtherServer
mails_for name = record {
  directory = name;
  server = name;
  message_full_file_names = bytes "1" ∷ [];
}

abbrev empty_letter : Message
empty_letter = record { from = none; to = []; strings = []; directory = [] }

abbrev to_server : StateCode → List ℕ → MultiplexContext
to_server state name = record {
  smtp_context = record { socket_desc = open_socket; state_code = state };
  status_code = 1;
  server = mails_for name;
  select_message = some empty_letter;
  iteration = 0;
}

-- The thread of both witnesses: a connection that quits, and one behind it.
abbrev quitting : MultiplexContext
quitting = to_server smtp_quit (bytes "a.org")

abbrev staying : MultiplexContext
staying = to_server smtp_helo (bytes "b.org")

abbrev thread_of : List (Option MultiplexContext) → ℕ → Bool → Thread
thread_of cells size cleared = record {
  id_thread = 0;
  multiplex_context = cells;
  multiplex_context_size = size;
  is_cleared = cleared;
}

abbrev two_connections : Thread
two_connections = thread_of (some quitting ∷ (some staying ∷ [])) 2 false

quit_removed :
    serve no_files (seen two_connections idle_round quitting) quitting true ≡ removed quitting true
unfolding serve
quit_removed = refl

one_left :
    serve_each no_files idle_round 2 0 two_connections true
    ≡ passes (thread_of (none ∷ (some staying ∷ [])) 1 true, true)
unfolding serve_each
one_left = refl

serve_each-frees_next_example :
    serve_each no_files idle_round 1 0 (thread_of (none ∷ (some staying ∷ [])) 1 false) true
    ≢ passes (two_connections, true)
serve_each-frees_next_example =
    serve_each-frees_next no_files idle_round idle_round 1 0 two_connections quitting quitting true
      true true (thread_of (none ∷ (some staying ∷ [])) 1 true, true) (two_connections, true) refl
      (omega arith) quit_removed one_left

abbrev one_connection : Thread
one_connection = thread_of (some (to_server smtp_helo (bytes "a.org")) ∷ []) 1 false

make_connections-hangs_example :
    make_connections no_files
      (λ name d. (some open_socket, d))
      []
      []
      (mails_for (bytes "a.org") ∷ (mails_for (bytes "b.org") ∷ []))
      0
      one_connection
      0
      false
      true
    ≡ hangs
make_connections-hangs_example =
    make_connections-hangs no_files (λ name d. (some open_socket, d)) one_connection [] []
      (to_server smtp_helo (bytes "a.org")) [] [] [] (mails_for (bytes "a.org"))
      (mails_for (bytes "b.org")) true refl refl refl tt refl refl tt refl
