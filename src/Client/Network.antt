-- ===== src/Client/Network.antt =====
-- Lines over a socket: `receive_line` and `send_line` of client/src/util/network.c. Memory is always
-- there.
use postman.Prelude.{
  ℕ, suc, ◌+◌, ◌-◌, ◌/◌, List, [], ◌∷◌, ◌++◌, length, take, Bool, true, false, ◌||◌, Option, none,
  some, ltb, ◌==◌, if◌then◌else◌,
}

-- A socket: the bytes that recv gives one by one, behind which it gives none; what the next calls of
-- send take at most, none for -1, behind which they take all; and the bytes that were sent.
pub record Peer : Type 0 where
  pub input : List ℕ
  pub answers : List (Option ℕ)
  pub wire : List ℕ

-- A fault is a write beyond the buffer, `lost` is NULL. What follows is left to read.
pub data Received : Type 0 where
  fault : Received
  lost : List ℕ → Received
  line_received : List ℕ → List ℕ → Received

abbrev pub is_line_end : ℕ → Bool
is_line_end c = c == 0x0a || c == 0x0d

-- The buffer grows by a half where two of its bytes are free.
abbrev pub grown_size : ℕ → ℕ → ℕ
grown_size count size = if count == size - 2 then size + size / 2 else size

-- The loop, by the ends that were seen, the size of the buffer and the bytes in it. The second end
-- closes the line, and the last two bytes leave it.
unfoldable pub receive_loop : ℕ → ℕ → List ℕ → List ℕ → Received
receive_loop ends size got [] = lost []
receive_loop ends size got (c ∷ input) =
    let count = suc (length got) in
    let seen = if is_line_end c then suc ends else ends in
    let later = receive_loop seen (grown_size count size) (got ++ c ∷ []) input in
    if ltb (length got) size
    then (if c == 0
        then lost input
        else if seen == 2
        then line_received (take (count - 2) (got ++ c ∷ [])) input
        else later)
    else fault

unfoldable pub receive_line : List ℕ → Received
unfolding receive_loop
receive_line input = receive_loop 0 4 [] input

-- The loop, by the bytes that are left to send. Each call gets the message from its first byte on.
unfoldable pub send_loop : List ℕ → ℕ → List (Option ℕ) → List ℕ → Bool × List (Option ℕ) × List ℕ
send_loop message all_size [] wire = (true, [], wire ++ take all_size message)
send_loop message all_size (none ∷ answers) wire =
    if all_size == 0 then (true, none ∷ answers, wire) else (false, answers, wire)
send_loop message all_size (some n ∷ answers) wire =
    let send_size = if ltb n all_size then n else all_size in
    let later = send_loop message (all_size - send_size) answers (wire ++ take send_size message) in
    if all_size == 0 then (true, some n ∷ answers, wire) else later

unfoldable pub send_line : Peer → List ℕ → Bool × Peer
unfolding send_loop
send_line peer message =
    let (done, answers, wire) = send_loop message (length message) peer.answers peer.wire in
    (done, record peer { answers = answers; wire = wire })
