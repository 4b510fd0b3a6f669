-- ===== src/EventLoop/Tests.antt =====
-- Runs of the model of server/src/lib/event_loop on small inputs.
use postman.Prelude.{
  ℕ, List, [], ◌∷◌, length, length-take, take, find_entry, true, false, some, ◌≡◌, refl, ap, arith,
}
use postman.EventLoop.Event.{
  ℤ, pos, negsuc, is_negative, same_socket, same_type, EventType-discrete, EventType, success,
  Event,
}
use postman.EventLoop.Registered.{pr_req_get_sock}
use postman.EventLoop.Lookup.{IsTable, IsTable-append, empty-IsTable, fresh-IsEntry}
use postman.EventLoop.Replay.{
  Request, push_event, pop_event, nothing, replay, replay_table, replay-replay_table,
}
use postman.EventLoop.Loop.{EventLoop, made_event, el_socket_close}
use postman.EventLoop.Transfer.{Transferred, done, failed, eagain}
use postman.EventLoop.Poll.{pr_create_pollin_event, pr_create_pollout_event}
use postman.EventLoop.Bounds.{IsRecv, IsSend}
use postman.EventLoop.Moves.{ReadMoves, pr_create_pollin_event-Moves}
use postman.EventLoop.Writes.{WriteMoves, pr_create_pollout_event-Moves}
use postman.EventLoop.Close.{Closed, el_socket_close-Closed}
use postman.EventLoop.Sockets.{SocketEntry}
use postman.EventLoop.Pollfd.{PollFd}

abbrev reading : Event
reading = made_event EventType.sock_read (pos 4) 1 (0 ∷ 0 ∷ 0 ∷ []) 3

abbrev writing : Event
writing = made_event EventType.sock_write (pos 4) 2 (7 ∷ 8 ∷ 9 ∷ []) 3

abbrev calls : List Request
calls =
    push_event EventType.sock_read (pos 4) reading
    ∷ push_event EventType.sock_read (pos 4) reading
    ∷ push_event EventType.sock_write (pos 4) writing
    ∷ pop_event EventType.sock_read (pos 4)
    ∷ pop_event EventType.sock_read (pos 4)
    ∷ pop_event EventType.sock_write (negsuc 0)
    ∷ []

replay-replay_table_example : replay [] calls ≡ some (replay_table nothing calls)
replay-replay_table_example = replay-replay_table calls

abbrev with_event : Event → EventLoop
with_event e = record {
  acceptors_queue =
      (record { socket = pos 3; handler = 5 }) ∷ (record { socket = pos 6; handler = 5 }) ∷ [];
  index_acceptors_start = 1;
  registered_events = (record { sock = e.socket; events = some (e ∷ []) }) ∷ [];
  occurred_events = [];
}

one-IsTable : (e : Event) → IsTable ((with_event e).registered_events)
unfolding pr_req_get_sock find_entry
one-IsTable e =
    IsTable-append [] (record { sock = e.socket; events = some (e ∷ []) }) empty-IsTable refl
      (fresh-IsEntry e)

-- A system that hands over the chunks in turn, cut to what is asked for.
abbrev chunks : ℤ → ℕ → List (List ℕ) → Transferred (List ℕ) × List (List ℕ)
chunks s n [] = (failed eagain, [])
chunks s n (c ∷ cs) = (done (take n c), cs)

abbrev no_client : ℤ → List (List ℕ) → Transferred ℤ × List (List ℕ)
no_client s chunks_left = (failed eagain, chunks_left)

abbrev chunk_of : Transferred (List ℕ) → List ℕ
chunk_of (done c) = c
chunk_of (failed e) = []

chunks-IsRecv : IsRecv chunks
chunks-IsRecv s n [] chunk h = ground (arith, h)
chunks-IsRecv s n (c ∷ cs) chunk h = omega (arith, length-take n c, ap (λ r. length (chunk_of r)) h)

-- A system that takes the given numbers of bytes in turn.
abbrev takes : ℤ → List ℕ → List ℕ → Transferred ℕ × List ℕ
takes s bytes [] = (failed eagain, [])
takes s bytes (n ∷ ns) = (done (length (take n bytes)), ns)

abbrev sent_of : Transferred ℕ → ℕ
sent_of (done n) = n
sent_of (failed e) = 0

takes-IsSend : IsSend takes
takes-IsSend s bytes [] k h = ground (arith, h)
takes-IsSend s bytes (n ∷ ns) k h = omega (arith, length-take n bytes, ap (λ r. sent_of r) h)

pr_create_pollin_event-Moves_example : ReadMoves (with_event reading) (pos 4) reading (
    pr_create_pollin_event chunks no_client [] (with_event reading) (pos 4) 0 0 ((1 ∷ 2 ∷ []) ∷ []))
unfolding is_negative pr_req_get_sock find_entry same_socket same_type EventType-discrete
pr_create_pollin_event-Moves_example =
    pr_create_pollin_event-Moves chunks no_client (with_event reading) (pos 4) 0 reading 0
      ((1 ∷ 2 ∷ []) ∷ []) chunks-IsRecv (one-IsTable reading) (omega arith) refl refl

pr_create_pollout_event-Moves_example :
    WriteMoves
      (with_event writing)
      (pos 4)
      writing
      (pr_create_pollout_event takes [] (with_event writing) (pos 4) 0 (2 ∷ []))
unfolding is_negative pr_req_get_sock find_entry same_socket same_type EventType-discrete
pr_create_pollout_event-Moves_example =
    pr_create_pollout_event-Moves takes (with_event writing) writing 0 (2 ∷ []) takes-IsSend
      (one-IsTable writing) refl refl (omega arith)

abbrev polled : PollFd
polled = record { fd = pos 4; pollin = true; pollout = false; pollhup = true }

abbrev first_acceptor : SocketEntry
first_acceptor = record { socket = pos 3; handler = 5 }

abbrev second_acceptor : SocketEntry
second_acceptor = record { socket = pos 6; handler = 5 }

el_socket_close-Closed_example :
    (after : EventLoop) × (el_socket_close [] (with_event writing) (pos 4) 9
      ≡ some (success, after, []))
    × Closed (with_event writing) (pos 4) 9 after
unfolding is_negative
el_socket_close-Closed_example =
    el_socket_close-Closed (with_event writing) (pos 4) 9 (one-IsTable writing) refl

abbrev bare : EventLoop
bare = record {
  acceptors_queue = [];
  index_acceptors_start = 0;
  registered_events = [];
  occurred_events = [];
}
