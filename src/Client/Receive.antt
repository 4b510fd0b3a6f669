-- ===== src/Client/Receive.antt =====
-- What `receive_line` of client/src/util/network.c makes of the bytes that come.
use postman.Prelude.{
  ℕ, suc, ◌+◌, ◌-◌, ◌<◌, List, [], ◌∷◌, ◌++◌, length, length-append, take, take-append_length,
  append_assoc, append-nil, if◌then◌else◌, ◌≡◌, ◌≢◌, ap, ◌∙◌, arith,
}
use postman.Text.Search.{Lacks, crlf}
use postman.Client.Network.{
  fault, line_received, is_line_end, grown_size, receive_loop, receive_line,
}

length-snoc : (xs : List ℕ) (c : ℕ) → length (xs ++ c ∷ []) ≡ suc (length xs)
length-snoc xs c = omega (arith, length-append xs (c ∷ []))

-- Two bytes of the buffer are free before a byte is received.
grown_room : (count size : ℕ) → count + 1 < size - 1 → suc count < grown_size (suc count) size - 2
grown_room count size h = ground arith

receive_loop-in_bounds :
    (ends size : ℕ) (got input : List ℕ)
    → length got < size - 2
    → receive_loop ends size got input ≢ fault
unfolding receive_loop
receive_loop-in_bounds ends size got [] h = cc
receive_loop-in_bounds ends size got (c ∷ input) h = ground (
  arith,
  length-snoc got c,
  grown_room (length got) size,
  receive_loop-in_bounds (if is_line_end c then suc ends else ends)
      (grown_size (suc (length got)) size) (got ++ c ∷ []) input,
)

-- Whatever bytes come and however many, `receive_line` never writes outside of its buffer, which
-- grows with what is received.
pub receive_line-in_bounds : (input : List ℕ) → receive_line input ≢ fault
unfolding receive_line
receive_line-in_bounds input = receive_loop-in_bounds 0 4 [] input (omega arith)

minus_two : (n : ℕ) → suc (suc n) - 2 ≡ n
minus_two n = omega arith

-- The line end, behind what was received.
receive_loop-end :
    (size : ℕ) (got rest : List ℕ)
    → length got < size - 2
    → receive_loop 0 size got (crlf ++ rest) ≡ line_received got rest
unfolding receive_loop
receive_loop-end size got rest h =
    let two : length ((got ++ 0x0d ∷ []) ++ 0x0a ∷ []) ≡ suc (suc (length got)) =
      length-snoc (got ++ 0x0d ∷ []) 0x0a ∙ ap suc (length-snoc got 0x0d) in
    let kept : take (suc (length (got ++ 0x0d ∷ [])) - 2) ((got ++ 0x0d ∷ []) ++ 0x0a ∷ []) ≡ got =
      rw (length-snoc got 0x0d, minus_two (length got), append_assoc got (0x0d ∷ []) (0x0a ∷ []))
        (take-append_length got (0x0d ∷ 0x0a ∷ [])) in
    ground (arith, kept, length-snoc got 0x0d, grown_room (length got) size)

receive_loop-line :
    (size : ℕ) (got line rest : List ℕ)
    → length got < size - 2
    → Lacks 0 line
    → Lacks 0x0a line
    → Lacks 0x0d line
    → receive_loop 0 size got (line ++ (crlf ++ rest)) ≡ line_received (got ++ line) rest
unfolding receive_loop
receive_loop-line size got [] rest h z l r = rw (append-nil got) (receive_loop-end size got rest h)
receive_loop-line size got (c ∷ line) rest h z l r = ground (
  arith,
  length-snoc got c,
  grown_room (length got) size,
  receive_loop-line (grown_size (suc (length got)) size) (got ++ c ∷ []) line rest,
  append_assoc got (c ∷ []) line,
)

-- A line without zero bytes, line feeds and carriage returns, of any length, that CR LF ends is
-- received without its end, and what stands behind it is left to read.
pub receive_line-crlf :
    (line rest : List ℕ)
    → Lacks 0 line
    → Lacks 0x0a line
    → Lacks 0x0d line
    → receive_line (line ++ (crlf ++ rest)) ≡ line_received line rest
unfolding receive_line
receive_line-crlf line rest z l r = receive_loop-line 4 [] line rest (omega arith) z l r
