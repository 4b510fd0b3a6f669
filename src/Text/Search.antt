-- ===== src/Text/Search.antt =====
-- The search for a separator in received bytes: `find_first_entry_str`,
-- `find_revers_first_entry_str` and `sub_str_iterate` of server/src/lib/util.c. The lengths passed
-- in are those of the two lists, and `none` stands for the result -1.
use postman.Prelude.{
  ℕ, zero, suc, ◌+◌, ◌-◌, List, [], ◌∷◌, ◌++◌, length, drop, Bool, true, false, ◌&&◌, Option, none,
  some, ltb, ◌==◌, if◌then◌else◌, ◌≡◌, ◌≢◌, refl, length-append, append-nil, arith,
}
use native.Mathlib.Nat.{zero-add, add-zero}
use postman.Text.{read_at}

-- Whether a byte is the one at an index of the sequence.
unfoldable pub byte_is : ℕ → List ℕ → ℕ → Bool
unfolding read_at
byte_is c seq i = elim (read_at seq i) [ none ↦ false | some d ↦ c == d ]

-- The loop of `find_first_entry_str`, over what is left of the string.
unfoldable pub find_first : List ℕ → List ℕ → ℕ → ℕ → Option ℕ
unfolding byte_is
find_first [] seq i seq_i = none
find_first (c ∷ rest) seq i seq_i =
    let hit = byte_is c seq seq_i in
    let later = find_first rest seq (suc i) (if hit then suc seq_i else 0) in
    if hit && suc seq_i == length seq then some (i - (length seq - 1)) else later

unfoldable pub find_first_entry_str : List ℕ → List ℕ → Option ℕ
unfolding find_first
find_first_entry_str str seq =
    if ltb (length str) (length seq) then none else find_first str seq 0 0

-- The loop of `find_revers_first_entry_str`, over the index `i` that falls to 0: the value of
-- `seq_i` and of `i` when it ends.
unfoldable pub find_last : List ℕ → List ℕ → ℕ → ℕ → ℕ × ℕ
unfolding byte_is read_at
find_last str seq zero seq_i = (seq_i, 0)
find_last str seq (suc i) seq_i =
    let hit : Bool = elim (read_at str i) [ none ↦ false | some c ↦ byte_is c seq (seq_i - 1) ] in
    let earlier = find_last str seq i (if hit then seq_i - 1 else length seq) in
    if hit && (seq_i - 1) == 0 then (0, suc i) else earlier

-- What the test after the loop makes of them: it asks for a `seq_i` that was not moved.
abbrev last_result : ℕ → ℕ × ℕ → Option ℕ
last_result seq_len (seq_i, i) = if seq_i == seq_len then some (i + seq_len) else none

unfoldable pub find_revers_first_entry_str : List ℕ → List ℕ → Option ℕ
unfolding find_last
find_revers_first_entry_str str seq =
    if ltb (length str) (length seq)
    then none
    else last_result (length seq) (find_last str seq (length str) (length seq))

-- struct sub_str_iterator; the lengths are those of the lists.
pub record SubStrIterator : Type 0 where
  pub begin : ℕ
  pub end : ℕ
  pub str : List ℕ
  pub sep : List ℕ

-- The end of the next part: behind the separator, or at the end of the string.
abbrev pub part_end : SubStrIterator → Option ℕ → ℕ
part_end it none = length it.str
part_end it (some next) = next + it.end + length it.sep

unfoldable pub sub_str_iterate : SubStrIterator → SubStrIterator × Bool
unfolding find_first_entry_str
sub_str_iterate it = if ltb it.end it.begin then (it, false) else (
  record it {
    begin = it.end;
    end = part_end it (find_first_entry_str (drop it.end it.str) it.sep);
  },
  true,
)

abbrev pub crlf : List ℕ
crlf = 0x0d ∷ 0x0a ∷ []

-- No byte of the list is `c`.
abbrev pub Lacks : ℕ → List ℕ → Type 0
Lacks c [] = Unit {0}
Lacks c (x ∷ xs) = (x ≢ c) × Lacks c xs

length_suc_move : (n i : ℕ) → n + suc i ≡ suc n + i
length_suc_move n i = omega arith

find_first-past :
    (xs rest : List ℕ) (i : ℕ)
    → Lacks 0x0d xs
    → find_first (xs ++ rest) crlf i 0 ≡ find_first rest crlf (length xs + i) 0
unfolding find_first
find_first-past [] rest i h = rw zero-add
find_first-past (x ∷ xs) rest i h =
    ground (arith, find_first-past xs rest (suc i) h.1, length_suc_move (length xs) i)

found_here : (rest : List ℕ) (i : ℕ) → find_first (crlf ++ rest) crlf i 0 ≡ some i
unfolding find_first
found_here rest i = ground arith

missed_here : (i : ℕ) → find_first (0x0d ∷ crlf) crlf i 0 ≡ none
unfolding find_first
missed_here i = refl

-- The search finds the first CRLF, wherever no carriage return stands before it.
pub find_first_entry_str-crlf :
    (line rest : List ℕ)
    → Lacks 0x0d line
    → find_first_entry_str (line ++ (crlf ++ rest)) crlf ≡ some (length line)
unfolding find_first_entry_str
find_first_entry_str-crlf line rest h = ground (
  arith,
  length-append line (crlf ++ rest),
  find_first-past line (crlf ++ rest) 0 h,
  found_here rest (length line),
  add-zero (length line),
)

-- The search does not take up a byte again that broke off a partial match, so a CRLF behind
-- another carriage return, the first in the string, is missed: nothing is found in `line ++ CR CR
-- LF`.
pub find_first_entry_str-misses_crlf :
    (line : List ℕ) → Lacks 0x0d line → find_first_entry_str (line ++ 0x0d ∷ crlf) crlf ≡ none
unfolding find_first_entry_str
find_first_entry_str-misses_crlf line h =
    ground (arith, find_first-past line (0x0d ∷ crlf) 0 h, missed_here (length line + 0))

-- Nothing is found where there is no carriage return.
pub find_first_entry_str-Lacks :
    (str : List ℕ) → Lacks 0x0d str → find_first_entry_str str crlf ≡ none
unfolding find_first_entry_str find_first
find_first_entry_str-Lacks str h = ground (arith, find_first-past str [] 0 h, append-nil str)
