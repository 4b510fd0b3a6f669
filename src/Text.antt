-- ===== src/Text.antt =====
-- The routines on C strings of server/src/lib/util.c. A string is the list of its bytes, without
-- the zero that ends it: the zero is what a read at the index `length` gives. A read elsewhere out
-- of range, and a copy into a null or too short buffer, is `none`.
pub mod Trim
pub mod Line
pub mod Search
pub mod Split
pub mod Concat
mod Tests
use postman.Prelude.{
  ℕ, zero, suc, ◌+◌, ◌-◌, List, [], ◌∷◌, ◌++◌, length, get_elem?, take, drop, Bool, true, false,
  ◌&&◌, ◌||◌, Option, none, some, ltb, leb, ◌==◌, if◌then◌else◌,
}

-- A `char *` with the size that is kept beside it; `none` is NULL.
pub record Buffer : Type 0 where
  pub text : Option (List ℕ)
  pub size : ℕ

-- A string in memory ends at its first zero.
unfoldable pub c_string : List ℕ → List ℕ
c_string [] = []
c_string (c ∷ cs) = let rest = c_string cs in if c == 0 then [] else c ∷ rest

-- The byte at an index of a string.
unfoldable pub read_at : List ℕ → ℕ → Option ℕ
read_at src i = if i == length src then some 0 else get_elem? src i

-- SPACE_SYMBOLS_CHECK, of the byte that is read.
unfoldable pub is_space : ℕ → Bool
is_space c = c == b' ' || (c == 0x0a || (c == 0x0d || c == 0x09))

-- The first loop of `trim_str`, over what is left of the string.
unfoldable pub trim_front : List ℕ → ℕ → ℕ → ℕ
unfolding is_space
trim_front [] begin size = begin
trim_front (c ∷ rest) begin size =
    let next = trim_front rest (suc begin) size in
    if is_space c && ltb begin size then next else begin

-- The second loop. Its test `begin >= 0` always holds, so that a space at index 0 takes `end` below
-- zero and the next read out of the string.
unfoldable pub trim_back : List ℕ → ℕ → Option ℕ
unfolding read_at is_space
trim_back src zero = elim (read_at src 0) [
  | none ↦ none
  | some c ↦ if is_space c then none else some 0
]
trim_back src (suc end) =
    let next = trim_back src end in
    elim (read_at src (suc end)) [
      | none ↦ none
      | some c ↦ if is_space c then next else some (suc end)
    ]

-- The copy of `end - begin` bytes and a final zero into the buffer, which is replaced by a larger
-- one where it is too short.
unfoldable pub trim_copy : List ℕ → ℕ → ℕ → Buffer → Option Buffer
trim_copy src begin end dst =
    let new_size = end - begin + 1 in
    let result = take (end - begin) (drop begin src) in
    if ltb begin end
    then if ltb dst.size new_size
      then some (record { text = some result; size = new_size })
      else elim dst.text [ none ↦ none | some _ ↦ some (record dst { text = some result }) ]
    else if dst.size == 0
    then some (record { text = some []; size = 1 })
    else elim dst.text [ none ↦ none | some _ ↦ some (record dst { text = some [] }) ]

-- The back of an empty string is the index SIZE_MAX, out of range.
unfoldable pub trim_end : List ℕ → ℕ → Option ℕ
unfolding trim_back
trim_end src zero = none
trim_end src (suc last) = trim_back src last

unfoldable pub trim_str : List ℕ → ℕ → Buffer → Option Buffer
unfolding trim_front trim_end trim_copy
trim_str src src_size dst = elim (trim_end src src_size) [
  | none ↦ none
  | some end ↦ trim_copy src (trim_front src 0 src_size) (suc end) dst
]

-- `sub_str` as a loop over the `n` indices from `i`, into what is copied so far.
unfoldable pub copy_range : List ℕ → ℕ → ℕ → Option (List ℕ)
unfolding read_at
copy_range src i zero = some []
copy_range src i (suc n) =
    let rest = copy_range src (suc i) n in
    elim (read_at src i) [
      | none ↦ none
      | some c ↦ elim rest [ none ↦ none | some cs ↦ some (c ∷ cs) ]
    ]

unfoldable pub sub_str : List ℕ → ℕ → ℕ → Option (List ℕ)
unfolding copy_range
sub_str src begin end = copy_range src begin (end - begin)
