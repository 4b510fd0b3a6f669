-- ===== src/Text/Line.antt =====
-- A string taken apart the way `trim_str` of server/src/lib/util.c looks at it.
use postman.Prelude.{ℕ, List, [], ◌∷◌, ◌++◌, all, false, Bool-cases, inl, inr, ◌≡◌, refl, ap, arith}
use postman.Text.{is_space}
use postman.Text.Trim.{Blank, StartsDark, line_of}

-- A string that is not blank, taken apart at its first and its last byte that is no blank.
pub record Line (src : List ℕ) : Type 0 where
  pub pre : List ℕ
  pub body : List ℕ
  pub last : ℕ
  pub post : List ℕ
  pub whole : src ≡ line_of pre body last post
  pub pre_blank : Blank pre
  pub starts : StartsDark (body ++ last ∷ [])
  pub last_dark : is_space last ≡ false
  pub post_blank : Blank post

-- The last byte that is no blank.
last_dark_of :
    (c : ℕ) (cs : List ℕ)
    → is_space c ≡ false
    → (body : List ℕ) × (z : ℕ) × (post : List ℕ) × (c ∷ cs ≡ (body ++ z ∷ []) ++ post)
      × StartsDark (body ++ z ∷ [])
      × (is_space z ≡ false)
      × Blank post
last_dark_of c cs d = elim (Bool-cases (all is_space cs)) [
  | inl b ↦ ([], c, cs, refl, d, d, b)
  | inr b ↦ let (body, z, post, e, l, p) = later cs b in (c ∷ body, z, post, ap (◌∷◌ c) e, d, l, p)
]
  where
    later :
        (xs : List ℕ)
        → all is_space xs ≡ false
        → (body : List ℕ) × (z : ℕ) × (post : List ℕ) × (xs ≡ (body ++ z ∷ []) ++ post)
          × (is_space z ≡ false)
          × Blank post
    later [] b = absurd (cc b)
    later (x ∷ xs) b = elim (Bool-cases (all is_space xs)) [
      | inl r ↦ ([], x, xs, refl, ground arith, r)
      | inr r ↦ let (body, z, post, e, l, p) = later xs r in (x ∷ body, z, post, ap (◌∷◌ x) e, l, p)
    ]

pub Line-of : (src : List ℕ) → all is_space src ≡ false → Line src
Line-of [] b = absurd (cc b)
Line-of (c ∷ cs) b = elim (Bool-cases (is_space c)) [
  | inl s ↦
      let l = Line-of cs (ground arith) in
      record {
        pre = c ∷ l.pre;
        body = l.body;
        last = l.last;
        post = l.post;
        whole = ap (◌∷◌ c) l.whole;
        pre_blank = ground (arith, l.pre_blank);
        starts = l.starts;
        last_dark = l.last_dark;
        post_blank = l.post_blank;
      }
  | inr s ↦
      let (body, z, post, e, d, l, p) = last_dark_of c cs s in
      record {
        pre = [];
        body = body;
        last = z;
        post = post;
        whole = e;
        pre_blank = refl;
        starts = d;
        last_dark = l;
        post_blank = p;
      }
]
