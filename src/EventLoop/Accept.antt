-- ===== src/EventLoop/Accept.antt =====
-- The handlers of the accepting sockets: server/src/lib/event_loop/sockets_queue.c.
use postman.Prelude.{
  ℕ, [], ◌∷◌, ◌++◌, true, false, Bool-cases, Option, none, some, Option-cases, ◌≡◌, ◌≢◌, ◌⊎◌, refl,
  ap, inl, inr, arith, if◌then◌else◌, find_entry, find_entry-append,
}
use postman.EventLoop.Event.{
  ℤ, is_negative, same_socket, same_socket_iff, ErrorType, success, fatal, Memory, s_malloc,
}
use postman.EventLoop.Sockets.{SocketEntry, SocketsQueue, of_socket, append_socket, sq_add, sq_get}

-- The handler of a socket, in the words of `sq_get`.
abbrev pub handler_of : SocketsQueue → ℤ → Option ℕ
handler_of q s = (sq_get q s).1

same_find :
    (s u : ℤ) (q : SocketsQueue)
    → same_socket s u ≡ true
    → find_entry (of_socket s) q ≡ find_entry (of_socket u) q
same_find s u q h = ap (λ v. find_entry (of_socket v) q) ((same_socket_iff s u).0 h)

-- The handlers with the one of `s` set to `h`.
abbrev pub Handlers : SocketsQueue → ℤ → ℕ → SocketsQueue → Type 0
Handlers q s h p = (u : ℤ) → handler_of p u ≡ (if same_socket s u then some h else handler_of q u)

-- Success with the handler set, or an error that says why, and no handler changed.
abbrev pub Adds : SocketsQueue → ℤ → ℕ → ErrorType × SocketsQueue × Memory → Type 0
Adds q s h (e, p, m) =
    ((is_negative s ≡ true) × (e ≡ fatal) × (p ≡ q))
    ⊎ ((is_negative s ≡ false) × (handler_of q s ≢ none) × (e ≡ ErrorType.exists) × (p ≡ q))
    ⊎ ((is_negative s ≡ false) × (handler_of q s ≡ none) × (e ≡ success) × Handlers q s h p)

handler-append :
    (q : SocketsQueue) (s u : ℤ) (h : ℕ)
    → find_entry (of_socket s) q ≡ none
    → handler_of (q ++ (record { socket = s; handler = h }) ∷ []) u
      ≡ (if same_socket s u then some h else handler_of q u)
unfolding sq_get find_entry
handler-append q s u h k =
    let e : SocketEntry = record { socket = s; handler = h } in
    rw (handler_of, sq_get, find_entry-append (of_socket u) q (e ∷ []))
      (ground (arith, k, same_find s u q))

handler-absent :
    (q : SocketsQueue) (s : ℤ) → find_entry (of_socket s) q ≡ none → handler_of q s ≡ none
unfolding sq_get
handler-absent q s k = rw (handler_of, sq_get, k) refl

handler-present :
    (q : SocketsQueue) (s : ℤ) (e : SocketEntry)
    → find_entry (of_socket s) q ≡ some e
    → handler_of q s ≡ some e.handler
unfolding sq_get
handler-present q s e k = rw (handler_of, sq_get, k) refl

-- With memory at hand and a handler that is not NULL, a negative socket is a fatal error and one
-- that has a handler is an EXISTS error, with the queue unchanged; else the call succeeds,
-- `sq_get` then gives the handler for the socket and for every other socket what it gave before.
pub sq_add-Adds : (q : SocketsQueue) (s : ℤ) (h : ℕ) → Adds q s h (sq_add [] q s (some h))
unfolding sq_add append_socket s_malloc sq_get
sq_add-Adds q s h = elim (Bool-cases (is_negative s)) [
  | inl n ↦ rw n (inl (refl, refl, refl))
  | inr n ↦ elim (Option-cases (find_entry (of_socket s) q)) [
    | inr (e, k) ↦
        rw (n, k) (inr (inl (refl, λ p. ground (arith, p, handler-present q s e k), refl, refl)))
    | inl k ↦
        rw (n, k) (inr (inr (refl, handler-absent q s k, refl, λ u. handler-append q s u h k)))
  ]
]
