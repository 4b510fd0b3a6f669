-- ===== src/EventLoop/Sockets.antt =====
-- The sockets that accept connections: server/src/lib/event_loop/sockets_queue.c.
use postman.Prelude.{ℕ, List, [], ◌∷◌, ◌++◌, Bool, Option, none, some, find_entry, if◌then◌else◌}
use postman.EventLoop.Event.{
  ℤ, is_negative, same_socket, ErrorType, success, not_found, fatal, Memory, s_malloc,
}

pub record SocketEntry : Type 0 where
  pub socket : ℤ
  pub handler : ℕ

abbrev pub SocketsQueue : Type 0
SocketsQueue = List SocketEntry

abbrev pub of_socket : ℤ → SocketEntry → Bool
of_socket s e = same_socket e.socket s

unfoldable pub append_socket : Memory → SocketsQueue → ℤ → ℕ → ErrorType × SocketsQueue × Memory
unfolding s_malloc
append_socket memory queue socket handler =
    let (got, m) = s_malloc memory in
    if got
    then (success, queue ++ (record { socket = socket; handler = handler }) ∷ [], m)
    else (fatal, queue, m)

-- A handler that is NULL is `none`.
unfoldable pub sq_add : Memory → SocketsQueue → ℤ → Option ℕ → ErrorType × SocketsQueue × Memory
unfolding append_socket
sq_add memory queue socket none = (fatal, queue, memory)
sq_add memory queue socket (some handler) =
    if is_negative socket
    then (fatal, queue, memory)
    else elim (find_entry (of_socket socket) queue) [
      | some _ ↦ (ErrorType.exists, queue, memory)
      | none ↦ append_socket memory queue socket handler
    ]

unfoldable pub sq_get : SocketsQueue → ℤ → ErrorType × Option ℕ
sq_get queue socket = elim (find_entry (of_socket socket) queue) [
  | none ↦ (not_found, none)
  | some e ↦ (success, some e.handler)
]
