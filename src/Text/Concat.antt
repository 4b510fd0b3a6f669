-- ===== src/Text/Concat.antt =====
-- The concatenation of strings into a buffer: `char_make_buf_concat` of server/src/lib/util.c.
-- The memory that it asks for is there.
use postman.Prelude.{
  ℕ, ◌+◌, ◌<◌, List, [], ◌∷◌, ◌++◌, length, length-append, take-append_length, ap, ◌∙◌, take,
  concat, Bool, true, false, Option, none, some, ltb, if◌then◌else◌, ◌≡◌, refl, sym, append-nil,
  append_assoc, arith,
}
use native.Mathlib.Nat.{zero-add}
use postman.Text.{Buffer}

-- The sum of the lengths, with the final zero.
unfoldable pub result_size : List (List ℕ) → ℕ
result_size [] = 1
result_size (s ∷ rest) = length s + result_size rest

-- strcpy to an offset: what stood behind it is cut off by the new zero.
unfoldable pub strcpy_at : ℕ → List ℕ → List ℕ → List ℕ
strcpy_at offset s text = take offset text ++ s

-- The second loop, which adds the length of the string before to the offset.
unfoldable pub copy_strings : ℕ → ℕ → List (List ℕ) → List ℕ → List ℕ
unfolding strcpy_at
copy_strings offset last [] text = text
copy_strings offset last (s ∷ rest) text =
    copy_strings (offset + last) (length s) rest (strcpy_at (offset + last) s text)

-- The buffer, replaced by a zeroed larger one where it is too short.
unfoldable pub make_room : ℕ → Buffer → Buffer
make_room needed buffer =
    if ltb buffer.size needed then record { text = some []; size = needed } else buffer

unfoldable pub char_make_buf_concat : Buffer → List ℕ → List (List ℕ) → Buffer × Bool
unfolding result_size make_room copy_strings
char_make_buf_concat buffer str rest =
    let room = make_room (result_size (str ∷ rest)) buffer in
    elim room.text [
      | none ↦ (room, false)
      | some _ ↦ (record room { text = some (copy_strings 0 (length str) rest str) }, true)
    ]

abbrev text_of : Option (List ℕ) → List ℕ
text_of none = []
text_of (some t) = t

-- What the call makes of a buffer that is NULL.
unfoldable pub concat_new : List ℕ → List (List ℕ) → List ℕ
unfolding char_make_buf_concat
concat_new str rest =
    text_of (char_make_buf_concat (record { text = none; size = 0 }) str rest).0.text

pub take-length : (xs : List ℕ) → take (length xs) xs ≡ xs
take-length xs = ap (take (length xs)) (sym (append-nil xs)) ∙ take-append_length xs []

pub copy_strings-concat :
    (offset last : ℕ) (rest : List (List ℕ)) (text : List ℕ)
    → offset + last ≡ length text
    → copy_strings offset last rest text ≡ text ++ concat rest
unfolding copy_strings
copy_strings-concat offset last [] text h = sym (append-nil text)
copy_strings-concat offset last (s ∷ rest) text h =
    rw
      (
        h,
        take-length text,
        copy_strings-concat (length text) (length s) rest (text ++ s) (sym (length-append text s)),
      )
      (append_assoc text s (concat rest))

result_size-length : (ss : List (List ℕ)) → result_size ss ≡ length (concat ss) + 1
unfolding result_size
result_size-length [] = refl
result_size-length (s ∷ rest) =
    omega (arith, result_size-length rest, length-append s (concat rest))

-- A buffer that is NULL has size 0; a text fits with its final zero.
pub record IsSound (b : Buffer) : Type 0 where
  pub null_empty : b.text ≡ none → b.size ≡ 0
  pub fits : (t : List ℕ) → b.text ≡ some t → length t < b.size

-- The result of a call that succeeded with this text.
abbrev pub Holds : Buffer × Bool → List ℕ → Type 0
Holds (b, done) t = (done ≡ true) × (b.text ≡ some t) × (length t < b.size)

-- Whatever sound buffer it is given, NULL included, the call succeeds, the buffer holds the
-- strings one behind another, and the final zero lies within the buffer's size.
pub char_make_buf_concat-Holds :
    (b : Buffer) (str : List ℕ) (rest : List (List ℕ))
    → IsSound b
    → Holds (char_make_buf_concat b str rest) (str ++ concat rest)
unfolding char_make_buf_concat
char_make_buf_concat-Holds b str rest h = ground (
  arith,
  h.null_empty,
  copy_strings-concat 0 (length str) rest str,
  result_size-length (str ∷ rest),
  zero-add (length str),
)

pub null-IsSound : IsSound (record { text = none; size = 0 })
null-IsSound = record { null_empty = λ _. refl; fits = λ t h. absurd (cc h) }

pub concat_new-concat :
    (str : List ℕ) (rest : List (List ℕ)) → concat_new str rest ≡ str ++ concat rest
unfolding concat_new
concat_new-concat str rest =
    let (done, text, fits) =
      char_make_buf_concat-Holds (record { text = none; size = 0 }) str rest null-IsSound in
    ap text_of text
