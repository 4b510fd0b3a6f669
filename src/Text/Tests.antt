-- ===== src/Text/Tests.antt =====
-- Runs of the model of server/src/lib/util.c on small inputs.
use postman.Prelude.{ℕ, ◌<◌, List, [], ◌∷◌, none, some, ◌≡◌, refl, arith}
use postman.Text.{Buffer, is_space, trim_str}
use postman.Text.Trim.{trim_str-strips, trim_str-Blank}
use postman.Text.Search.{crlf, find_revers_first_entry_str}
use postman.Text.Split.{split_sub_str, split_str, split_sub_str-pair}
use postman.Text.Concat.{Holds, char_make_buf_concat, char_make_buf_concat-Holds}

abbrev no_buffer : Buffer
no_buffer = record { text = none; size = 0 }

abbrev padded : List ℕ
padded = b' ' ∷ b'o' ∷ b'k' ∷ 0x0d ∷ 0x0a ∷ []

trim_str-strips_example :
    (b : Buffer) × (trim_str padded 5 no_buffer ≡ some b)
    × (b.text ≡ some (b'o' ∷ b'k' ∷ []))
    × (2 < b.size)
unfolding is_space
trim_str-strips_example =
    trim_str-strips (b' ' ∷ []) (b'o' ∷ []) (0x0d ∷ 0x0a ∷ []) b'k' no_buffer refl refl refl refl
      (λ _. refl)

trim_str-Blank_example : trim_str crlf 2 no_buffer ≡ none
unfolding is_space
trim_str-Blank_example = trim_str-Blank crlf no_buffer refl

abbrev mailbox_line : List ℕ
mailbox_line = b'<' ∷ b'u' ∷ b'@' ∷ b'd' ∷ b'>' ∷ []

split_sub_str-pair_example :
    split_sub_str mailbox_line 1 (some 4) 2 b'@' ≡ some ((b'u' ∷ []) ∷ (b'd' ∷ []) ∷ [])
split_sub_str-pair_example =
    split_sub_str-pair (b'<' ∷ []) (b'u' ∷ []) (b'd' ∷ []) (b'>' ∷ []) b'@' (omega arith)

char_make_buf_concat-Holds_example :
    Holds
      (char_make_buf_concat no_buffer (b'a' ∷ []) ((b'b' ∷ []) ∷ (b'c' ∷ []) ∷ []))
      (b'a' ∷ b'b' ∷ b'c' ∷ [])
char_make_buf_concat-Holds_example =
    char_make_buf_concat-Holds no_buffer (b'a' ∷ []) ((b'b' ∷ []) ∷ (b'c' ∷ []) ∷ [])
      (record { null_empty = λ _. refl; fits = λ t e. cc })

-- With no end given, the array is run over as soon as it has no room for the last part.
split_str_overrun : split_str (b'a' ∷ b'@' ∷ b'b' ∷ b'@' ∷ b'c' ∷ []) 2 b'@' ≡ none
unfolding split_str
split_str_overrun = refl

-- A sequence that is there is not found from the end.
find_revers_hit : find_revers_first_entry_str (b'a' ∷ 0x0d ∷ 0x0a ∷ []) crlf ≡ none
unfolding find_revers_first_entry_str
find_revers_hit = refl
