-- ===== src/Client/Sending.antt =====
-- What `send_line` of client/src/util/network.c writes.
use postman.Prelude.{
  ℕ, suc, ◌-◌, ◌<◌, ◌≤◌, List, [], ◌∷◌, ◌++◌, length, take, append-nil, append_assoc, true, false,
  Option, none, some, ltb, ◌==◌, if◌then◌else◌, ◌≡◌, refl, sym, ap, arith,
}
use postman.Text.Concat.{take-length}
use postman.Client.Network.{Peer, send_loop, send_line}

-- The first call takes all that it gets, if it is asked.
abbrev pub TakesAll : List (Option ℕ) → ℕ → Type 0
TakesAll [] n = Unit {0}
TakesAll (none ∷ _) n = n ≡ 0
TakesAll (some k ∷ _) n = n ≤ k

nothing : (message : List ℕ) → length message ≡ 0 → message ≡ []
nothing [] h = refl
nothing (c ∷ cs) h = absurd (omega (arith, h))

send_loop-done :
    (answers : List (Option ℕ)) (message wire : List ℕ)
    → ((send_loop message 0 answers wire).0 ≡ true) × ((send_loop message 0 answers wire).2 ≡ wire)
unfolding send_loop
send_loop-done [] message wire = (refl, append-nil wire)
send_loop-done (none ∷ later) message wire = (refl, refl)
send_loop-done (some k ∷ later) message wire = (refl, refl)

all_size_taken : (k n : ℕ) → n ≤ k → (if ltb k n then k else n) ≡ n
all_size_taken k n h = ground arith

more_left : (n : ℕ) → (suc n == 0) ≡ false
more_left n = ground arith

minus_self : (n : ℕ) → n - n ≡ 0
minus_self n = omega arith

send_loop-whole :
    (answers : List (Option ℕ)) (message wire : List ℕ)
    → TakesAll answers (length message)
    → ((send_loop message (length message) answers wire).0 ≡ true)
      × ((send_loop message (length message) answers wire).2 ≡ wire ++ message)
unfolding send_loop
send_loop-whole [] message wire h = (refl, ap (λ m. wire ++ m) (take-length message))
send_loop-whole (none ∷ later) message wire h = rw (nothing message h, append-nil wire) (refl, refl)
send_loop-whole (some k ∷ later) [] wire h = (refl, sym (append-nil wire))
send_loop-whole (some k ∷ later) (c ∷ cs) wire h =
    rw
      (
        all_size_taken k (length (c ∷ cs)) h,
        minus_self (length (c ∷ cs)),
        take-length (c ∷ cs),
        more_left (length cs),
      )
      (send_loop-done later (c ∷ cs) (wire ++ c ∷ cs))

-- Where the first call of send takes the whole message, or the message is empty, `send_line`
-- succeeds and puts the message on the wire once.
pub send_line-whole :
    (peer : Peer) (message : List ℕ)
    → TakesAll peer.answers (length message)
    → ((send_line peer message).0 ≡ true) × ((send_line peer message).1.wire ≡ peer.wire ++ message)
unfolding send_line
send_line-whole peer message h = send_loop-whole peer.answers message peer.wire h

-- Where the first call of send takes some bytes of the message, but not all, and the next takes
-- the rest, `send_line` reports success, and on the wire stand the bytes taken first and then as
-- many bytes as were left, again from the start of the message and not from where the first call
-- stopped.
pub send_line-again :
    (input wire message : List ℕ) (k : ℕ)
    → 0 < k
    → k < length message
    → let (done, peer) =
        send_line (record { input = input; answers = some k ∷ []; wire = wire }) message in
      (done ≡ true) × (peer.wire ≡ wire ++ (take k message ++ take (length message - k) message))
unfolding send_line send_loop
send_line-again input wire message k p h = (
  ground arith,
  ground (arith, append_assoc wire (take k message) (take (length message - k) message)),
)
