-- ===== src/Text/Split.antt =====
-- The cut of a string at a separator: `split_sub_str` and `split_str` of server/src/lib/util.c.
use postman.Prelude.{
  ℕ, suc, ◌+◌, ◌-◌, ◌≤◌, List, [], ◌∷◌, ◌++◌, length, drop, Bool, true, ◌&&◌, Option, none, some,
  ltb, leb, ◌==◌, if◌then◌else◌, ◌≡◌, refl, sym, ap, ◌∙◌, ◌<◌, append_assoc, length-append,
  drop-append_length, arith,
}
use native.Mathlib.Nat.{add-zero, add-suc, suc-add}
use native.Mathlib.Numerals.{add-one}
use postman.Text.Trim.{read_at-append}
use postman.Text.{read_at, copy_range, sub_str}
use postman.Text.Search.{Lacks}

-- `end_sub < end`, where the end is given; `none` is UTIL_STR_END.
unfoldable pub before : ℕ → Option ℕ → Bool
before i none = true
before i (some end) = ltb i end

-- The bound on `i` in the loop's test, after the first round.
unfoldable pub later_limit : ℕ → Option ℕ → ℕ
later_limit num_split none = num_split
later_limit num_split (some _) = num_split - 1

-- The loop, over what is left of the string at `end_sub`; the result is the parts cut off and
-- `begin_sub`.
unfoldable pub split_loop :
    List ℕ → Option ℕ → ℕ → ℕ → List ℕ → ℕ → List (List ℕ) → ℕ → ℕ → Option (List (List ℕ) × ℕ)
unfolding before later_limit sub_str
split_loop str end num_split sep [] limit parts begin_sub end_sub = some (parts, begin_sub)
split_loop str end num_split sep (c ∷ rest) limit parts begin_sub end_sub =
    let next = later_limit num_split end in
    let uncut = split_loop str end num_split sep rest next parts begin_sub (suc end_sub) in
    if ltb (length parts) limit && before end_sub end
    then if c == sep
      then elim (sub_str str begin_sub end_sub) [
        | none ↦ none
        | some part ↦
            split_loop str end num_split sep rest next (parts ++ part ∷ []) (suc end_sub)
              (suc end_sub)
      ]
      else uncut
    else some (parts, begin_sub)

-- The part behind the last separator. It is allocated by the length of all that follows.
unfoldable pub last_part : List ℕ → Option ℕ → ℕ → Option (List ℕ)
unfolding sub_str
last_part str none begin_sub = some (drop begin_sub str)
last_part str (some end) begin_sub =
    if leb end (length str) then sub_str str begin_sub end else none

-- The parts in the array, which has room for `num_split` of them.
abbrev stored : ℕ → List (List ℕ) → Option (List (List ℕ))
stored num_split parts = if leb (length parts) num_split then some parts else none

unfoldable pub split_sub_str : List ℕ → ℕ → Option ℕ → ℕ → ℕ → Option (List (List ℕ))
unfolding split_loop last_part
split_sub_str str begin end num_split sep =
    if ltb (length str) begin
    then none
    else elim (split_loop str end num_split sep (drop begin str) num_split [] begin begin) [
      | none ↦ none
      | some (parts, begin_sub) ↦ elim (last_part str end begin_sub) [
        | none ↦ none
        | some part ↦ stored num_split (parts ++ part ∷ [])
      ]
    ]

unfoldable pub split_str : List ℕ → ℕ → ℕ → Option (List (List ℕ))
unfolding split_sub_str
split_str str num_split sep = split_sub_str str 0 none num_split sep

copy_range-append :
    (pre mid rest : List ℕ) → copy_range (pre ++ (mid ++ rest)) (length pre) (length mid) ≡ some mid
unfolding copy_range
copy_range-append pre [] rest = refl
copy_range-append pre (c ∷ mid) rest =
    let later : copy_range (pre ++ c ∷ (mid ++ rest)) (suc (length pre)) (length mid) ≡ some mid =
      rw (append_assoc pre (c ∷ []) (mid ++ rest), length-append pre (c ∷ []), add-one (length pre))
        at (copy_range-append (pre ++ c ∷ []) mid rest) in
    let head : read_at (pre ++ c ∷ (mid ++ rest)) (length pre) ≡ some c =
      ap (read_at (pre ++ c ∷ (mid ++ rest))) (sym (add-zero (length pre)))
      ∙ read_at-append pre (c ∷ (mid ++ rest)) 0 (omega arith) in
    rw (head, copy_range) (rw (later, copy_range) refl)

add_sub_left : (a b : ℕ) → a + b - a ≡ b
add_sub_left a b = omega arith

-- A copy of a part of a string that lies within it.
pub sub_str-append :
    (pre mid rest : List ℕ)
    → sub_str (pre ++ (mid ++ rest)) (length pre) (length pre + length mid) ≡ some mid
unfolding sub_str
sub_str-append pre mid rest =
    rw (add_sub_left (length pre) (length mid)) (copy_range-append pre mid rest)

split_loop-full :
    (str : List ℕ) (end sep : ℕ) (rest part : List ℕ) (begin i : ℕ)
    → split_loop str (some end) 2 sep rest 1 (part ∷ []) begin i ≡ some (part ∷ [], begin)
unfolding split_loop
split_loop-full str end sep [] part begin i = refl
split_loop-full str end sep (c ∷ rest) part begin i = refl

split_loop-cut :
    (str : List ℕ) (end sep : ℕ) (front rest part : List ℕ) (limit begin i : ℕ)
    → Lacks sep front
    → i + length front < end
    → 1 ≤ limit
    → sub_str str begin (i + length front) ≡ some part
    → split_loop str (some end) 2 sep (front ++ sep ∷ rest) limit [] begin i
      ≡ some (part ∷ [], suc (i + length front))
unfolding split_loop
split_loop-cut str end sep [] rest part limit begin i h l m e =
    rw (add-zero i)
      (ground (arith, add-zero i, split_loop-full str end sep rest part (suc i) (suc i)))
split_loop-cut str end sep (x ∷ front) rest part limit begin i h l m e = ground (
  arith,
  add-suc i (length front),
  suc-add i (length front),
  split_loop-cut str end sep front rest part 1 begin (suc i) h.1,
)

split_from :
    (str : List ℕ) (begin end sep : ℕ) (user domain : List ℕ) (begin_sub : ℕ)
    → begin ≤ length str
    → split_loop str (some end) 2 sep (drop begin str) 2 [] begin begin
      ≡ some (user ∷ [], begin_sub)
    → last_part str (some end) begin_sub ≡ some domain
    → split_sub_str str begin (some end) 2 sep ≡ some (user ∷ domain ∷ [])
unfolding split_sub_str
split_from str begin end sep user domain begin_sub l e f = ground arith

last_part-append :
    (front domain post str : List ℕ) (begin end : ℕ)
    → str ≡ front ++ (domain ++ post)
    → begin ≡ length front
    → end ≡ begin + length domain
    → last_part str (some end) begin ≡ some domain
unfolding last_part
last_part-append front domain post str begin end p q r =
    rw (p, r, q)
      (ground (
        arith,
        sub_str-append front domain post,
        length-append front (domain ++ post),
        length-append domain post,
      ))

-- A mailbox `user@domain` that stands anywhere in a line, with no separator in `user`, is cut at
-- its first separator into exactly the two names, and they fit the array of two.
pub split_sub_str-pair :
    (pre user domain post : List ℕ) (sep : ℕ)
    → Lacks sep user
    → split_sub_str
        (pre ++ (user ++ sep ∷ (domain ++ post)))
        (length pre)
        (some (length pre + (length user + 1 + length domain)))
        2
        sep
      ≡ some (user ∷ domain ∷ [])
split_sub_str-pair pre user domain post sep h =
    let tail : List ℕ = sep ∷ (domain ++ post) in
    let str : List ℕ = pre ++ (user ++ tail) in
    let begin : ℕ = suc (length pre + length user) in
    let end : ℕ = length pre + (length user + 1 + length domain) in
    let front : List ℕ = pre ++ (user ++ sep ∷ []) in
    let size : length front ≡ begin =
      omega (arith, length-append pre (user ++ sep ∷ []), length-append user (sep ∷ [])) in
    let cut =
      split_loop-cut str end sep user (domain ++ post) user 2 (length pre) (length pre) h
        (omega arith) (omega arith) (sub_str-append pre user tail) in
    let last : last_part str (some end) begin ≡ some domain =
      last_part-append front domain post str begin end (simp append_assoc) (sym size)
        (omega arith) in
    split_from str (length pre) end sep user domain begin
      (omega (arith, length-append pre (user ++ tail)))
      (rw (drop-append_length pre (user ++ tail)) cut) last
