-- ===== src/Client/Files.antt =====
-- Lines of a file: `file_readline` of client/src/util/util.c. A file is the bytes that are left to
-- read, and reading it does not fail.
use postman.Prelude.{
  ℕ, zero, suc, ◌+◌, ◌-◌, ◌*◌, List, [], ◌∷◌, ◌++◌, length, Bool, true, false, Option, none, some,
  ltb, leb, ◌==◌, if◌then◌else◌,
}
use postman.Text.{c_string}

-- fgets with the size 256: at most 255 bytes, up to the end of the line, and what is left.
unfoldable pub fgets : ℕ → List ℕ → List ℕ × List ℕ
fgets zero file = ([], file)
fgets (suc n) [] = ([], [])
fgets (suc n) (c ∷ file) =
    let (chunk, rest) = fgets n file in if c == 0x0a then (c ∷ [], file) else (c ∷ chunk, rest)

-- How a function that reads a file ends. A fault is a use of memory out of range, not written, or of
-- NULL; `null` is the result NULL.
pub data Reading (A : Type 0) : Type 0 where
  out_of_fuel : Reading A
  fault : Reading A
  null : Reading A
  read : A → Reading A

abbrev pub then_read : {A B : Type 0} → Reading A → (A → Reading B) → Reading B
then_read out_of_fuel f = out_of_fuel
then_read fault f = fault
then_read null f = null
then_read (read a) f = f a

abbrev pub of_option : {A : Type 0} → Option A → Reading A
of_option none = fault
of_option (some a) = read a

-- Whether the last byte ends a line; none without a byte.
unfoldable pub ends_line : List ℕ → Option Bool
ends_line [] = none
ends_line (c ∷ []) = some (c == 0x0a)
ends_line (c ∷ (d ∷ cs)) = ends_line (d ∷ cs)

-- The size of the buffer before a part is copied to its end.
abbrev pub room_for : ℕ → ℕ → ℕ
room_for offset size = if leb (size - 1) offset then offset * 2 + 1 else size

-- What the last byte of what was read decides; none reads before it.
abbrev pub by_end : {A : Type 0} → Option Bool → A → A → A → A
by_end none wrong found later = wrong
by_end (some true) wrong found later = found
by_end (some false) wrong found later = later

-- The loop, on fuel, by what was read and the size of the buffer.
unfoldable pub readline_loop : ℕ → List ℕ → ℕ → List ℕ → Reading (List ℕ × List ℕ)
unfolding fgets ends_line c_string
readline_loop zero string size file = out_of_fuel
readline_loop (suc fuel) string size [] = null
readline_loop (suc fuel) string size (c ∷ file) =
    let (chunk, rest) = fgets 255 (c ∷ file) in
    let room = room_for (length string) size in
    let joined = string ++ c_string chunk in
    let later = readline_loop fuel joined room rest in
    if ltb (length joined) room
    then by_end (ends_line joined) fault (read (joined, rest)) later
    else fault

unfoldable pub file_readline : List ℕ → Reading (List ℕ × List ℕ)
unfolding readline_loop
file_readline file = readline_loop (suc (length file)) [] 256 file
