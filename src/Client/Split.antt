-- ===== src/Client/Split.antt =====
-- What `split` and `trim` of client/src/util/util.c make of the parts of a header.
use postman.Prelude.{
  ℕ, ◌<◌, List, [], ◌∷◌, ◌++◌, length, length-append, choose, append_assoc, append-nil, false,
  Option, none, some, ◌==◌, ◌≡◌, refl, sym, ap, ◌∙◌, arith,
}
use postman.Text.Search.{Lacks, crlf}
use postman.Client.Letter.{
  last_byte, last_two, without_last, without_crlf, without_lf, header_value,
}
use postman.Client.Strings.{is_blank, trim_left, trim_right, trim, split_tokens, split}

-- A token is put before others.
abbrev pub token_before : List ℕ → Option (List (List ℕ)) → Option (List (List ℕ))
token_before token none = none
token_before token (some tokens) = some (token ∷ tokens)

pub split_tokens-token :
    (delim : ℕ) (token str : List ℕ)
    → Lacks delim str
    → 0 < length (token ++ str)
    → split_tokens delim token str ≡ some ((token ++ str) ∷ [])
unfolding split_tokens
split_tokens-token delim token [] h p = ground (arith, append-nil token, p)
split_tokens-token delim token (c ∷ str) h p = ground (
  arith,
  h,
  append_assoc token (c ∷ []) str,
  split_tokens-token delim (token ++ c ∷ []) str h.1,
  length-append token (c ∷ str),
  length-append (token ++ c ∷ []) str,
  length-append token (c ∷ []),
)

pub split_tokens-cut :
    (delim : ℕ) (token str rest : List ℕ)
    → Lacks delim str
    → 0 < length (token ++ str)
    → 0 < length rest
    → split_tokens delim token (str ++ delim ∷ rest)
      ≡ token_before (token ++ str) (split_tokens delim [] rest)
unfolding split_tokens
split_tokens-cut delim token [] rest h p q = ground (arith, p, q, append-nil token)
split_tokens-cut delim token (c ∷ str) rest h p q = ground (
  arith,
  h,
  append_assoc token (c ∷ []) str,
  split_tokens-cut delim (token ++ c ∷ []) str rest h.1,
  length-append token (c ∷ str),
  length-append (token ++ c ∷ []) str,
  length-append token (c ∷ []),
  q,
)

-- A name and a value with a delimiter between them.
pub split-two :
    (delim : ℕ) (name value : List ℕ)
    → Lacks delim name
    → 0 < length name
    → Lacks delim value
    → 0 < length value
    → split (name ++ delim ∷ value) delim ≡ some (name ∷ (value ∷ []))
unfolding split
split-two delim name value l p m q =
    split_tokens-cut delim [] name value l p q
    ∙ ap (token_before name) (split_tokens-token delim [] value m q)

abbrev pub IsSome : {A : Type 0} → Option A → Type 0
IsSome none = ⊥
IsSome (some a) = Unit {0}

before-IsSome :
    (token : List ℕ) (o : Option (List (List ℕ)))
    → IsSome o
    → IsSome (elim o [ none ↦ none | some tokens ↦ some (token ∷ tokens) ])
before-IsSome token none h = h
before-IsSome token (some tokens) h = tt

-- Where the last byte is no delimiter, nothing is read out of range.
pub split_tokens-IsSome :
    (delim : ℕ) (token str : List ℕ) (d : ℕ)
    → (d == delim) ≡ false
    → IsSome (split_tokens delim token (str ++ d ∷ []))
unfolding split_tokens
split_tokens-IsSome delim token [] d h = rw h tt
split_tokens-IsSome delim token (c ∷ str) d h =
    let some_left : (length (str ++ d ∷ []) == 0) ≡ false =
      ground (arith, length-append str (d ∷ [])) in
    choose IsSome (c == delim) _ (split_tokens delim (token ++ c ∷ []) (str ++ d ∷ []))
      (rw some_left (
        choose IsSome (length token == 0) (split_tokens delim (token ++ c ∷ []) (str ++ d ∷ [])) _
          (split_tokens-IsSome delim (token ++ c ∷ []) str d h)
          (before-IsSome token (split_tokens delim [] (str ++ d ∷ []))
            (split_tokens-IsSome delim [] str d h))))
      (split_tokens-IsSome delim (token ++ c ∷ []) str d h)

trim_right-kept :
    (str : List ℕ) (d : ℕ) → is_blank d ≡ false → trim_right (str ++ d ∷ []) ≡ some (str ++ d ∷ [])
unfolding trim_right
trim_right-kept [] d h = rw h refl
trim_right-kept (c ∷ str) d h = rw (trim_right-kept str d h) refl

trim_left-kept : (c : ℕ) (str : List ℕ) → is_blank c ≡ false → trim_left (c ∷ str) ≡ c ∷ str
unfolding trim_left
trim_left-kept c str h = rw h refl

pub trim-kept :
    (c : ℕ) (str : List ℕ) (d : ℕ)
    → is_blank c ≡ false
    → is_blank d ≡ false
    → trim (c ∷ (str ++ d ∷ [])) ≡ some (c ∷ (str ++ d ∷ []))
unfolding trim
trim-kept c str d h k =
    ap trim_right (trim_left-kept c (str ++ d ∷ []) h) ∙ trim_right-kept (c ∷ str) d k

last_byte-snoc : (str : List ℕ) (d : ℕ) → last_byte (str ++ d ∷ []) ≡ some d
unfolding last_byte
last_byte-snoc [] d = refl
last_byte-snoc (c ∷ []) d = refl
last_byte-snoc (c ∷ (e ∷ str)) d = last_byte-snoc (e ∷ str) d

last_two-snoc : (str : List ℕ) (c d : ℕ) → last_two (str ++ c ∷ d ∷ []) ≡ some (c, d)
unfolding last_two
last_two-snoc [] c d = refl
last_two-snoc (a ∷ []) c d = refl
last_two-snoc (a ∷ (b ∷ [])) c d = refl
last_two-snoc (a ∷ (b ∷ (e ∷ str))) c d = last_two-snoc (b ∷ (e ∷ str)) c d

without_last-snoc : (str : List ℕ) (d : ℕ) → without_last (str ++ d ∷ []) ≡ str
unfolding without_last
without_last-snoc [] d = refl
without_last-snoc (c ∷ []) d = refl
without_last-snoc (c ∷ (e ∷ str)) d = ap (◌∷◌ c) (without_last-snoc (e ∷ str) d)

last_byte-Lacks :
    (c : ℕ) (str : List ℕ)
    → Lacks 0x0a (c ∷ str)
    → (d : ℕ) × (last_byte (c ∷ str) ≡ some d) × ((d == 0x0a) ≡ false)
unfolding last_byte
last_byte-Lacks c [] h = (c, refl, ground (arith, h))
last_byte-Lacks c (d ∷ str) h = last_byte-Lacks d str h.1

without_lf-kept :
    (c : ℕ) (str : List ℕ) → Lacks 0x0a (c ∷ str) → without_lf (c ∷ str) ≡ some (c ∷ str)
unfolding without_lf
without_lf-kept c str h = let (d, e, n) = last_byte-Lacks c str h in rw (e, n, without_lf) refl

without_crlf-cut : (str : List ℕ) → without_crlf (str ++ crlf) ≡ some str
unfolding without_crlf
without_crlf-cut str =
    let last : last_byte (str ++ crlf) ≡ some 0x0a =
      ap last_byte (sym (append_assoc str (0x0d ∷ []) (0x0a ∷ [])))
      ∙ last_byte-snoc (str ++ 0x0d ∷ []) 0x0a in
    let cut : without_last (without_last (str ++ crlf)) ≡ str =
      ap (λ s. without_last (without_last s)) (sym (append_assoc str (0x0d ∷ []) (0x0a ∷ [])))
      ∙ ap without_last (without_last-snoc (str ++ 0x0d ∷ []) 0x0a)
      ∙ without_last-snoc str 0x0d in
    rw (last, last_two-snoc str 0x0d 0x0a, cut, without_crlf) refl

-- A value with a blank before it and a line end behind it.
pub header_value-cut :
    (c : ℕ) (str : List ℕ)
    → is_blank c ≡ false
    → Lacks 0x0a (c ∷ str)
    → header_value (b' ' ∷ ((c ∷ str) ++ crlf)) ≡ some (c ∷ str)
unfolding header_value trim trim_left
header_value-cut c str h l =
    let kept : trim (b' ' ∷ ((c ∷ str) ++ crlf)) ≡ some ((c ∷ str) ++ crlf) =
      ap trim_right (trim_left-kept c (str ++ crlf) h)
      ∙ ap trim_right (ap (◌∷◌ c) (sym (append_assoc str (0x0d ∷ []) (0x0a ∷ []))))
      ∙ trim_right-kept (c ∷ (str ++ 0x0d ∷ [])) 0x0a refl
      ∙ ap some (ap (◌∷◌ c) (append_assoc str (0x0d ∷ []) (0x0a ∷ []))) in
    rw (kept, without_crlf-cut (c ∷ str), without_lf-kept c str l, header_value) refl
