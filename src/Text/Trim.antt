-- ===== src/Text/Trim.antt =====
-- What `trim_str` of server/src/lib/util.c leaves of a string.
use postman.Prelude.{
  ℕ, zero, suc, ◌+◌, ◌-◌, ◌<◌, List, [], ◌∷◌, ◌++◌, length, length-append, get_elem?, take, drop,
  drop-append_length, take-append_length, all, append_assoc, true, false, none, some, ltb,
  if◌then◌else◌, ◌≡◌, refl, sym, ap, ◌∙◌, arith,
}
use native.Mathlib.Nat.{zero-add, suc-add, add-zero, add-suc}
use postman.Text.{Buffer, read_at, is_space, trim_front, trim_back, trim_end, trim_copy, trim_str}

abbrev pub Blank : List ℕ → Type 0
Blank xs = all is_space xs ≡ true

-- The byte at the head is no space.
abbrev pub StartsDark : List ℕ → Type 0
StartsDark [] = ⊥
StartsDark (c ∷ cs) = is_space c ≡ false

get_elem?-append : (xs ys : List ℕ) (i : ℕ) → get_elem? (xs ++ ys) (length xs + i) ≡ get_elem? ys i
get_elem?-append [] ys i = rw zero-add
get_elem?-append (x ∷ xs) ys i = rw suc-add (get_elem?-append xs ys i)

trim_front-skips :
    (pre rest : List ℕ) (begin size : ℕ)
    → Blank pre
    → StartsDark rest
    → begin + length pre < size
    → trim_front (pre ++ rest) begin size ≡ begin + length pre
unfolding trim_front
trim_front-skips [] [] begin size b d l = absurd d
trim_front-skips [] (c ∷ rest) begin size b d l = ground arith
trim_front-skips (x ∷ pre) rest begin size b d l =
    ground (arith, trim_front-skips pre rest (suc begin) size)

-- The bytes from the index `n` on, as far as the loop reads them.
trim_back-stops :
    (src : List ℕ) (n k : ℕ) (z : ℕ)
    → is_space z ≡ false
    → read_at src n ≡ some z
    → ((j : ℕ) → j < k → (c : ℕ) × (read_at src (suc (n + j)) ≡ some c) × (is_space c ≡ true))
    → trim_back src (n + k) ≡ some n
unfolding trim_back
trim_back-stops src zero zero z d e h = ground arith
trim_back-stops src (suc n) zero z d e h = rw add-zero (ground arith)
trim_back-stops src n (suc k) z d e h =
    let (c, r, b) = h k (omega arith) in
    rw (add-suc n k) (ground (arith, trim_back-stops src n k z d e (λ j l. h j (omega arith))))

pub read_at-append :
    (xs ys : List ℕ) (i : ℕ) → i < length ys → read_at (xs ++ ys) (length xs + i) ≡ get_elem? ys i
unfolding read_at
read_at-append xs ys i h = ground (arith, length-append xs ys, get_elem?-append xs ys i)

Blank-byte :
    (xs : List ℕ) (j : ℕ)
    → Blank xs
    → j < length xs
    → (c : ℕ) × (get_elem? xs j ≡ some c) × (is_space c ≡ true)
Blank-byte [] j b l = elim l [ ]
Blank-byte (x ∷ xs) zero b l = (x, refl, ground arith)
Blank-byte (x ∷ xs) (suc j) b l = Blank-byte xs j (ground arith) (omega arith)

-- From the last byte, the loop comes back to the byte before the final blanks.
trim_back-found :
    (front post : List ℕ) (z : ℕ)
    → is_space z ≡ false
    → Blank post
    → trim_back (front ++ z ∷ post) (length front + length post) ≡ some (length front)
trim_back-found front post z d b =
    trim_back-stops (front ++ z ∷ post) (length front) (length post) z d
      (ap (read_at (front ++ z ∷ post)) (sym (add-zero (length front)))
        ∙ read_at-append front (z ∷ post) 0 (omega arith))
      λ j l.
        let (c, e, s) = Blank-byte post j b l in
        (
          c,
          ap (read_at (front ++ z ∷ post)) (sym (add-suc (length front) j))
              ∙ (read_at-append front (z ∷ post) (suc j) (omega arith) ∙ e),
          s,
        )

trim_copy_lem :
    (src : List ℕ) (begin end : ℕ) (dst : Buffer)
    → begin < end
    → (dst.text ≡ none → dst.size ≡ 0)
    → (b : Buffer) × (trim_copy src begin end dst ≡ some b)
      × (b.text ≡ some (take (end - begin) (drop begin src)))
      × (end - begin < b.size)
unfolding trim_copy
trim_copy_lem src begin end dst l null = (
  record {
    text = some (take (end - begin) (drop begin src));
    size = if ltb dst.size (end - begin + 1) then end - begin + 1 else dst.size;
  },
  ground (arith, null),
  refl,
  ground arith,
)

StartsDark-append : (xs ys : List ℕ) → StartsDark xs → StartsDark (xs ++ ys)
StartsDark-append [] ys d = absurd d
StartsDark-append (x ∷ xs) ys d = d

-- The string of a line: blanks, the text up to its last byte `z`, blanks.
abbrev pub line_of : List ℕ → List ℕ → ℕ → List ℕ → List ℕ
line_of pre body z post = pre ++ ((body ++ z ∷ []) ++ post)

trim_end-line :
    (pre body post : List ℕ) (z n : ℕ)
    → is_space z ≡ false
    → Blank post
    → n ≡ length (line_of pre body z post)
    → trim_end (line_of pre body z post) n ≡ some (length pre + length body)
unfolding trim_end
trim_end-line pre body post z zero d b e = absurd (
    omega (
      arith,
      e,
      length-append pre ((body ++ z ∷ []) ++ post),
      length-append (body ++ z ∷ []) post,
      length-append body (z ∷ []),
    ))
trim_end-line pre body post z (suc n) d b e =
    let regroup : line_of pre body z post ≡ (pre ++ body) ++ z ∷ post = simp append_assoc in
    let at : n ≡ length (pre ++ body) + length post = omega (
      arith,
      e,
      length-append pre ((body ++ z ∷ []) ++ post),
      length-append (body ++ z ∷ []) post,
      length-append body (z ∷ []),
      length-append pre body,
    ) in
    rw (regroup, at, trim_back-found (pre ++ body) post z d b, length-append pre body) refl

trim_front-line :
    (pre body post : List ℕ) (z : ℕ)
    → Blank pre
    → StartsDark (body ++ z ∷ [])
    → trim_front (line_of pre body z post) 0 (length (line_of pre body z post)) ≡ length pre
trim_front-line pre body post z b d =
    trim_front-skips pre ((body ++ z ∷ []) ++ post) 0 _ b
      (StartsDark-append (body ++ z ∷ []) post d)
      (omega (
        arith,
        length-append pre ((body ++ z ∷ []) ++ post),
        length-append (body ++ z ∷ []) post,
        length-append body (z ∷ []),
      ))
    ∙ zero-add (length pre)

trim_str_lem :
    (src : List ℕ) (size begin end : ℕ) (dst : Buffer)
    → trim_end src size ≡ some end
    → trim_front src 0 size ≡ begin
    → trim_str src size dst ≡ trim_copy src begin (suc end) dst
unfolding trim_str
trim_str_lem src size begin end dst e f =
    rw (e, trim_str) (ap (λ b. trim_copy src b (suc end) dst) f)

-- A line with something in it is stripped of the blanks at both ends, and of nothing else: the
-- buffer, which may be NULL if its size is 0, ends up with the bytes from the first to the last
-- that is no blank, and has room for them and the final zero.
pub trim_str-strips :
    (pre body post : List ℕ) (z : ℕ) (dst : Buffer)
    → Blank pre
    → StartsDark (body ++ z ∷ [])
    → is_space z ≡ false
    → Blank post
    → (dst.text ≡ none → dst.size ≡ 0)
    → (b : Buffer) × (trim_str (line_of pre body z post) (length (line_of pre body z post)) dst
        ≡ some b)
      × (b.text ≡ some (body ++ z ∷ []))
      × (length (body ++ z ∷ []) < b.size)
trim_str-strips pre body post z dst bp d dz bq null =
    let src : List ℕ = line_of pre body z post in
    let text : List ℕ = body ++ z ∷ [] in
    let size : length text ≡ length body + 1 = length-append body (z ∷ []) in
    let (b, e, t, l) =
      trim_copy_lem src (length pre) (suc (length pre + length body)) dst (omega arith) null in
    let span : suc (length pre + length body) - length pre ≡ length text = omega (arith, size) in
    (
      b,
      trim_str_lem src (length src) (length pre) (length pre + length body) dst
            (trim_end-line pre body post z (length src) dz bq refl)
            (trim_front-line pre body post z bp d)
          ∙ e,
      t ∙ ap some (rw (span, drop-append_length pre (text ++ post)) (take-append_length text post)),
      omega (arith, size, l),
    )

trim_back-Blank : (src : List ℕ) (n : ℕ) → Blank src → n < length src → trim_back src n ≡ none
unfolding trim_back read_at
trim_back-Blank src zero b l = let (c, e, s) = Blank-byte src 0 b l in ground arith
trim_back-Blank src (suc n) b l =
    let (c, e, s) = Blank-byte src (suc n) b l in ground (arith, trim_back-Blank src n b)

-- A line of blanks alone makes the second loop read before the string, whatever the buffer: there
-- is no result.
pub trim_str-Blank :
    (src : List ℕ) (dst : Buffer) → Blank src → trim_str src (length src) dst ≡ none
unfolding trim_str
trim_str-Blank [] dst b = refl
trim_str-Blank (c ∷ cs) dst b = ground (arith, trim_back-Blank (c ∷ cs) (length cs) b)
