-- ===== src/EventLoop/Event.antt =====
-- Events and errors: server/include/event_t.h and server/include/error_t.h, and `s_malloc` of
-- server/src/lib/util.c. An error is its `error` field with errno; its message is left out.
-- A handler is the number that stands for its address; a client's address is left out.
use postman.Prelude.{ℕ, List, [], ◌∷◌, Bool, true, false, ◌==◌, ◌≡◌, ◌↔◌, arith, ==_iff}

-- The type int; `negsuc n` is -(n + 1).
pub data ℤ : Type 0 where
  pos : ℕ → ℤ
  negsuc : ℕ → ℤ

unfoldable pub is_negative : ℤ → Bool
is_negative (pos n) = false
is_negative (negsuc n) = true

unfoldable pub same_socket : ℤ → ℤ → Bool
same_socket (pos a) (pos b) = a == b
same_socket (negsuc a) (negsuc b) = a == b
same_socket _ _ = false

pub same_socket_iff : (s t : ℤ) → (same_socket s t ≡ true) ↔ (s ≡ t)
unfolding same_socket
same_socket_iff (pos a) (pos b) = ground (arith, ==_iff a b)
same_socket_iff (negsuc a) (negsuc b) = ground (arith, ==_iff a b)
same_socket_iff (pos a) (negsuc b) = ground arith
same_socket_iff (negsuc a) (pos b) = ground arith

pub data ErrorType : Type 0 where
  success not_found exists empty fatal errno out_of_range : ErrorType

pub data EventType : Type 0 where
  sock_accept sock_read sock_write sock_close : EventType

unfoldable pub EventType-discrete : Discrete EventType
EventType-discrete = hlevel

unfoldable pub same_type : EventType → EventType → Bool
same_type t u = elim (EventType-discrete t u) [ yes _ ↦ true | no _ ↦ false ]

pub same_type_iff : (t u : EventType) → (same_type t u ≡ true) ↔ (t ≡ u)
unfolding same_type
same_type_iff t u = ground arith

pub data ClientStatus : Type 0 where
  connected disconnected : ClientStatus

-- `sock_event` with what the structure of its type adds to it.
pub record Event : Type 0 where
  pub type : EventType
  pub socket : ℤ
  pub error : ErrorType
  pub errno_value : ℕ
  pub handler : ℕ
  pub buffer : List ℕ
  pub size : ℕ
  pub offset : ℕ
  pub status : ClientStatus
  pub client_socket : ℤ

-- What becomes of the next calls of malloc: true where it has the memory. Behind the end of the
-- list it always has it.
abbrev pub Memory : Type 0
Memory = List Bool

unfoldable pub s_malloc : Memory → Bool × Memory
s_malloc [] = (true, [])
s_malloc (b ∷ m) = (b, m)
