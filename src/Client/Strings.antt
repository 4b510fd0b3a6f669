-- ===== src/Client/Strings.antt =====
-- The routines on strings of client/src/util/util.c. A string is its bytes without the final zero;
-- memory is always there, and `none` is a read out of range.
use postman.Prelude.{
  ℕ, zero, suc, ◌+◌, ◌-◌, ◌*◌, List, [], ◌∷◌, ◌++◌, length, Bool, true, false, ◌&&◌, ◌||◌, Option,
  none, some, ltb, leb, ◌==◌, if◌then◌else◌,
}
use postman.EventLoop.Event.{ℤ, pos, negsuc}

abbrev pub is_digit : ℕ → Bool
is_digit c = leb b'0' c && leb c b'9'

-- isspace.
abbrev pub is_white : ℕ → Bool
is_white c = c == b' ' || (leb 9 c && leb c 13)

-- The digits at the front, as strtol reads them.
unfoldable pub digits_value : ℕ → List ℕ → ℕ
digits_value acc [] = acc
digits_value acc (c ∷ cs) = if is_digit c then digits_value (acc * 10 + (c - b'0')) cs else acc

-- A long has 64 bits, and strtol stops at its bounds.
abbrev pub long_max : ℕ
long_max = 9223372036854775807

abbrev pub negated : ℕ → ℤ
negated zero = pos 0
negated (suc n) = negsuc (if ltb long_max n then long_max else n)

abbrev pub signed_value : List ℕ → ℤ
signed_value [] = pos 0
signed_value (c ∷ cs) =
    if c == b'-'
    then negated (digits_value 0 cs)
    else (let n = digits_value 0 (if c == b'+' then cs else c ∷ cs) in
        pos (if ltb long_max n then long_max else n))

-- strtol to the base ten.
unfoldable pub convert_string_to_long_int : List ℕ → ℤ
unfolding digits_value
convert_string_to_long_int [] = pos 0
convert_string_to_long_int (c ∷ cs) =
    if is_white c then convert_string_to_long_int cs else signed_value (c ∷ cs)

-- `split` at a delimiter of one byte, by the token and what is left. A delimiter at the end of the
-- string is compared with the zeros of both strings, and the loop in `check_equation_delim` goes on
-- behind them.
unfoldable pub split_tokens : ℕ → List ℕ → List ℕ → Option (List (List ℕ))
split_tokens delim token [] = some (if length token == 0 then [] else token ∷ [])
split_tokens delim token (c ∷ rest) =
    let cut = split_tokens delim [] rest in
    let longer = split_tokens delim (token ++ c ∷ []) rest in
    if c == delim
    then (if length rest == 0
        then none
        else if length token == 0
        then longer
        else elim cut [ none ↦ none | some tokens ↦ some (token ∷ tokens) ])
    else longer

unfoldable pub split : List ℕ → ℕ → Option (List (List ℕ))
unfolding split_tokens
split str delim = split_tokens delim [] str

abbrev pub is_blank : ℕ → Bool
is_blank c = c == b' ' || c == 0x09

unfoldable pub trim_left : List ℕ → List ℕ
trim_left [] = []
trim_left (c ∷ cs) = if is_blank c then trim_left cs else c ∷ cs

-- What is left up to the last byte that is not blank; none where all are.
unfoldable pub trim_right : List ℕ → Option (List ℕ)
trim_right [] = none
trim_right (c ∷ cs) = elim (trim_right cs) [
  | some kept ↦ some (c ∷ kept)
  | none ↦ if is_blank c then none else some (c ∷ [])
]

-- The loop from the back of a string without a byte that is not blank runs out of it.
unfoldable pub trim : List ℕ → Option (List ℕ)
unfolding trim_left trim_right
trim str = trim_right (trim_left str)

-- toupper in the C locale.
abbrev pub to_upper : ℕ → ℕ
to_upper c = if leb b'a' c && leb c b'z' then c - 32 else c

-- Whether a string starts with another.
unfoldable pub starts_with : List ℕ → List ℕ → Bool
starts_with [] str = true
starts_with (s ∷ seq) [] = false
starts_with (s ∷ seq) (c ∷ str) = c == s && starts_with seq str

-- strstr with a result that is not NULL.
unfoldable pub contains : List ℕ → List ℕ → Bool
unfolding starts_with
contains [] seq = starts_with seq []
contains (c ∷ str) seq = starts_with seq (c ∷ str) || contains str seq
