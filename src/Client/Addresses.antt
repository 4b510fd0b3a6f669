-- ===== src/Client/Addresses.antt =====
-- The addresses that the server of server/src/lib/server/server.c writes, as client/src/util/util.c
-- splits them.
use postman.Prelude.{
  ℕ, ◌<◌, List, [], ◌∷◌, ◌++◌, map, all, length, length-append, append_assoc, Bool, true, false,
  ◌&&◌, ◌||◌, not, some, ◌==◌, ◌≡◌, ◌≢◌, refl, ap, ◌∙◌, arith,
}
use mathlib.Core.Path.{subst}
use postman.Text.Search.{Lacks}
use postman.Smtp.State.{bytes}
use postman.Server.Headers.{Address, text_of, with_commas}
use postman.Client.Headers.{IsValue, Lacks-append}
use postman.Client.Split.{
  IsSome, token_before, split_tokens-token, split_tokens-cut, split_tokens-IsSome,
}
use postman.Client.Strings.{is_blank, split_tokens, split}

-- A byte that neither ends a string or a line, nor separates the parts of a header.
abbrev pub is_plain : ℕ → Bool
is_plain c =
    not (c == 0 || c == 0x0a || c == 0x09 || c == b' ' || c == b',' || c == b':' || c == b'@')

abbrev pub IsClean : Address → Type 0
IsClean a = (all is_plain a.user ≡ true) × (all is_plain a.server ≡ true) × (0 < length a.server)

abbrev pub AreClean : List Address → Type 0
AreClean [] = Unit {0}
AreClean (a ∷ rest) = IsClean a × AreClean rest

both_true : (a b : Bool) → (a && b) ≡ true → (a ≡ true) × (b ≡ true)
both_true true b h = (refl, h)
both_true false b h = absurd (cc h)

plain-≢ : (c d : ℕ) → is_plain c ≡ true → is_plain d ≡ false → c ≢ d
plain-≢ c d h k e = absurd (cc (h, k, e))

pub plain-Lacks : (d : ℕ) (xs : List ℕ) → is_plain d ≡ false → all is_plain xs ≡ true → Lacks d xs
plain-Lacks d [] k h = tt
plain-Lacks d (x ∷ xs) k h =
    let (one, others) = both_true (is_plain x) (all is_plain xs) h in
    (plain-≢ x d one k, plain-Lacks d xs k others)

pub text_of-Lacks :
    (d : ℕ) (a : Address) → is_plain d ≡ false → b'@' ≢ d → IsClean a → Lacks d (text_of a)
text_of-Lacks d a k n h =
    Lacks-append d (a.user ++ bytes "@") a.server
      (Lacks-append d a.user (bytes "@") (plain-Lacks d a.user k h.0) (n, tt))
      (plain-Lacks d a.server k h.1)

pub with_commas-Lacks :
    (d : ℕ) (a : Address) (rest : List Address)
    → is_plain d ≡ false
    → b'@' ≢ d
    → b',' ≢ d
    → AreClean (a ∷ rest)
    → Lacks d (with_commas a rest)
with_commas-Lacks d a [] k n m h = text_of-Lacks d a k n h.0
with_commas-Lacks d a (b ∷ rest) k n m h =
    Lacks-append d (text_of a ++ bytes ",") (with_commas b rest)
      (Lacks-append d (text_of a) (bytes ",") (text_of-Lacks d a k n h.0) (m, tt))
      (with_commas-Lacks d b rest k n m h.1)

text_of-length : (a : Address) → 0 < length (text_of a)
text_of-length a =
    omega (arith, length-append (a.user ++ bytes "@") a.server, length-append a.user (bytes "@"))

with_commas-length : (a : Address) (rest : List Address) → 0 < length (with_commas a rest)
with_commas-length a [] = text_of-length a
with_commas-length a (b ∷ rest) = omega (
  arith,
  length-append (text_of a ++ bytes ",") (with_commas b rest),
  length-append (text_of a) (bytes ","),
  text_of-length a,
)

differ : (a b : ℕ) → (a == b) ≡ false → a ≢ b
differ a b h e = ground (arith, h, e)

-- The recipients are found again.
pub split-with_commas :
    (a : Address) (rest : List Address)
    → AreClean (a ∷ rest)
    → split (with_commas a rest) b',' ≡ some (map text_of (a ∷ rest))
unfolding split
split-with_commas a [] h =
    split_tokens-token b',' [] (text_of a) (text_of-Lacks b',' a refl (differ b'@' b',' refl) h.0)
      (text_of-length a)
split-with_commas a (b ∷ rest) h =
    ap (split_tokens b',' []) (append_assoc (text_of a) (bytes ",") (with_commas b rest))
    ∙ split_tokens-cut b',' [] (text_of a) (with_commas b rest)
        (text_of-Lacks b',' a refl (differ b'@' b',' refl) h.0) (text_of-length a)
        (with_commas-length b rest)
    ∙ ap (token_before (text_of a)) (split-with_commas b rest h.1)

-- A text whose last byte is plain.
abbrev EndsPlain : List ℕ → Type 0
EndsPlain xs = (str : List ℕ) × (d : ℕ) × (is_plain d ≡ true) × (str ++ d ∷ [] ≡ xs)

plain-EndsPlain : (xs : List ℕ) → all is_plain xs ≡ true → 0 < length xs → EndsPlain xs
plain-EndsPlain [] h p = absurd (omega (arith, p))
plain-EndsPlain (x ∷ []) h p = ([], x, (both_true (is_plain x) true h).0, refl)
plain-EndsPlain (x ∷ (y ∷ xs)) h p =
    let (str, d, q, e) =
      plain-EndsPlain (y ∷ xs) (both_true (is_plain x) (all is_plain (y ∷ xs)) h).1 (omega arith) in
    (x ∷ str, d, q, ap (◌∷◌ x) e)

append-EndsPlain : (xs ys : List ℕ) → EndsPlain ys → EndsPlain (xs ++ ys)
append-EndsPlain xs ys (str, d, q, e) =
    (xs ++ str, d, q, append_assoc xs str (d ∷ []) ∙ ap (◌++◌ xs) e)

with_commas-EndsPlain :
    (a : Address) (rest : List Address) → AreClean (a ∷ rest) → EndsPlain (with_commas a rest)
with_commas-EndsPlain a [] h =
    append-EndsPlain (a.user ++ bytes "@") a.server (plain-EndsPlain a.server h.0.1 h.0.2)
with_commas-EndsPlain a (b ∷ rest) h =
    append-EndsPlain (text_of a ++ bytes ",") (with_commas b rest)
      (with_commas-EndsPlain b rest h.1)

pub split-at_sign :
    (a : Address) (rest : List Address)
    → AreClean (a ∷ rest)
    → IsSome (split (with_commas a rest) b'@')
unfolding split
split-at_sign a rest h =
    let (str, d, q, e) = with_commas-EndsPlain a rest h in
    subst (λ w. IsSome (split_tokens b'@' [] w)) e
      (split_tokens-IsSome b'@' [] str d (ground (arith, plain-≢ d b'@' q refl)))

-- The first byte is no blank.
abbrev Starts : List ℕ → Type 0
Starts [] = ⊥
Starts (c ∷ v) = is_blank c ≡ false

plain-Starts : (c : ℕ) → is_plain c ≡ true → is_blank c ≡ false
plain-Starts c h = ground (arith, h)

append-Starts : (xs ys : List ℕ) → Starts xs → Starts (xs ++ ys)
append-Starts [] ys h = absurd h
append-Starts (x ∷ xs) ys h = h

user-Starts : (user : List ℕ) → all is_plain user ≡ true → Starts (user ++ bytes "@")
user-Starts [] h = refl
user-Starts (x ∷ user) h = plain-Starts x (both_true (is_plain x) (all is_plain user) h).0

text_of-Starts : (a : Address) → IsClean a → Starts (text_of a)
text_of-Starts a h = append-Starts (a.user ++ bytes "@") a.server (user-Starts a.user h.0)

with_commas-Starts :
    (a : Address) (rest : List Address) → AreClean (a ∷ rest) → Starts (with_commas a rest)
with_commas-Starts a [] h = text_of-Starts a h.0
with_commas-Starts a (b ∷ rest) h =
    append-Starts (text_of a ++ bytes ",") (with_commas b rest)
      (append-Starts (text_of a) (bytes ",") (text_of-Starts a h.0))

Starts-IsValue : (xs : List ℕ) → Starts xs → Lacks 0 xs → Lacks 0x0a xs → Lacks b':' xs → IsValue xs
Starts-IsValue [] h z l d = h
Starts-IsValue (x ∷ xs) h z l d = (h, z, l, d)

pub text_of-IsValue : (a : Address) → IsClean a → IsValue (text_of a)
text_of-IsValue a h =
    let lacks = λ (d : ℕ) (k : is_plain d ≡ false) (n : b'@' ≢ d). text_of-Lacks d a k n h in
    Starts-IsValue (text_of a) (text_of-Starts a h) (lacks 0 refl (differ b'@' 0 refl))
      (lacks 0x0a refl (differ b'@' 0x0a refl)) (lacks b':' refl (differ b'@' b':' refl))

pub with_commas-IsValue :
    (a : Address) (rest : List Address) → AreClean (a ∷ rest) → IsValue (with_commas a rest)
with_commas-IsValue a rest h =
    let lacks = λ (d : ℕ) (k : is_plain d ≡ false) (n : b'@' ≢ d) (m : b',' ≢ d).
      with_commas-Lacks d a rest k n m h in
    Starts-IsValue (with_commas a rest) (with_commas-Starts a rest h)
      (lacks 0 refl (differ b'@' 0 refl) (differ b',' 0 refl))
      (lacks 0x0a refl (differ b'@' 0x0a refl) (differ b',' 0x0a refl))
      (lacks b':' refl (differ b'@' b':' refl) (differ b',' b':' refl))

pub plain-IsValue : (xs : List ℕ) → all is_plain xs ≡ true → 0 < length xs → IsValue xs
plain-IsValue [] h p = absurd (omega (arith, p))
plain-IsValue (x ∷ xs) h p =
    Starts-IsValue (x ∷ xs) (plain-Starts x (both_true (is_plain x) (all is_plain xs) h).0)
      (plain-Lacks 0 (x ∷ xs) refl h) (plain-Lacks 0x0a (x ∷ xs) refl h)
      (plain-Lacks b':' (x ∷ xs) refl h)
