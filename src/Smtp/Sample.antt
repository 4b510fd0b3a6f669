-- ===== src/Smtp/Sample.antt =====
-- A matcher to run the examples with: it stands in for regexec of the C library. A command is
-- matched by a fixed prefix, a path and a mailbox by the `@` in the rest of the line.
use postman.Prelude.{
  ℕ, ◌≤◌, List, [], ◌∷◌, ◌++◌, length, length-append, Bool, true, false, ◌&&◌, Bool-cases, Option,
  none, some, ◌==◌, if◌then◌else◌, ◌≡◌, ap, append-nil, inl, inr, arith,
}
use postman.Text.Search.{Lacks}
use postman.Smtp.Regex.{
  Pattern, re_hello, re_mail_from, re_rcpt_to, re_data, re_quit, re_domain, re_mailbox, re_path,
  re_empty_path, Matcher, IsMatcher, MailboxAt,
}
use postman.Smtp.State.{bytes}

unfoldable pub is_prefix : List ℕ → List ℕ → Bool
is_prefix [] s = true
is_prefix (x ∷ xs) [] = false
is_prefix (x ∷ xs) (y ∷ ys) = (x == y) && is_prefix xs ys

unfoldable pub has_at : List ℕ → Bool
has_at [] = false
has_at (c ∷ cs) = if c == b'@' then true else has_at cs

unfoldable pub at_front : List ℕ → List ℕ → Option (ℕ × ℕ)
unfolding is_prefix
at_front p s = if is_prefix p s then some (0, length p) else none

unfoldable pub whole_line : Bool → List ℕ → Option (ℕ × ℕ)
whole_line b s = if b then some (0, length s) else none

unfoldable pub sample : Matcher
unfolding at_front whole_line has_at
sample re_hello s = at_front (bytes "HELO ") s
sample re_mail_from s = at_front (bytes "MAIL FROM:") s
sample re_rcpt_to s = at_front (bytes "RCPT TO:") s
sample re_data s = at_front (bytes "DATA") s
sample re_quit s = at_front (bytes "QUIT") s
sample re_empty_path s = at_front (bytes "<>") s
sample re_domain s = whole_line true s
sample re_mailbox s = whole_line (has_at s) s
sample re_path s = whole_line (has_at s) s
sample _ s = none

is_prefix-length : (p s : List ℕ) → is_prefix p s ≡ true → length p ≤ length s
unfolding is_prefix
is_prefix-length [] s e = omega arith
is_prefix-length (x ∷ p) [] e = cc
is_prefix-length (x ∷ p) (y ∷ s) e = ground (arith, is_prefix-length p s)

abbrev Inside : List ℕ → Option (ℕ × ℕ) → Type 0
Inside s o = (from to : ℕ) → o ≡ some (from, to) → (from ≤ to) × (to ≤ length s)

at_front-Inside : (p s : List ℕ) → Inside s (at_front p s)
unfolding at_front
at_front-Inside p s from to e = ground (arith, is_prefix-length p s)

whole_line-Inside : (b : Bool) (s : List ℕ) → Inside s (whole_line b s)
unfolding whole_line
whole_line-Inside b s from to e = ground arith

none-Inside : (s : List ℕ) → Inside s none
none-Inside s from to e = cc

sample-Inside : (p : Pattern) (s : List ℕ) → Inside s (sample p s)
unfolding sample
sample-Inside re_hello s = at_front-Inside (bytes "HELO ") s
sample-Inside re_mail_from s = at_front-Inside (bytes "MAIL FROM:") s
sample-Inside re_rcpt_to s = at_front-Inside (bytes "RCPT TO:") s
sample-Inside re_data s = at_front-Inside (bytes "DATA") s
sample-Inside re_quit s = at_front-Inside (bytes "QUIT") s
sample-Inside re_empty_path s = at_front-Inside (bytes "<>") s
sample-Inside re_domain s = whole_line-Inside true s
sample-Inside re_mailbox s = whole_line-Inside _ s
sample-Inside re_path s = whole_line-Inside _ s
sample-Inside _ s = none-Inside s

-- The parts of a line at its first `@`.
cut_at :
    (s : List ℕ)
    → has_at s ≡ true
    → (user : List ℕ) × (domain : List ℕ) × (s ≡ user ++ b'@' ∷ domain) × Lacks b'@' user
unfolding has_at
cut_at [] h = cc
cut_at (c ∷ s) h = elim (Bool-cases (c == b'@')) [
  | inl e ↦ ([], s, ground arith, tt)
  | inr e ↦
      let (user, domain, p, l) = cut_at s (ground arith) in
      (c ∷ user, domain, ap (◌∷◌ c) p, (ground arith, l))
]

sample-MailboxAt :
    (s : List ℕ) (from to : ℕ) → sample re_mailbox s ≡ some (from, to) → MailboxAt s from to
unfolding sample whole_line
sample-MailboxAt s from to e =
    let (user, domain, p, l) = cut_at s (ground arith) in
    record {
      pre = [];
      user = user;
      domain = domain;
      post = [];
      whole = rw (append-nil domain) p;
      starts = ground arith;
      ends = ground (arith, ap length p, length-append user (b'@' ∷ domain));
      lacks = l;
    }

pub sample-IsMatcher : IsMatcher sample
unfolding sample
sample-IsMatcher = record {
  bounded = sample-Inside;
  brackets = λ s from to e. cc;
  mailbox = λ s h. h;
  at_sign = sample-MailboxAt;
}
