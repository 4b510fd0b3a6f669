-- ===== src/Client/Chunks.antt =====
-- What fgets and the growth of the buffer give to `file_readline` of client/src/util/util.c.
use postman.Prelude.{
  ◌≢◌, ℕ, zero, suc, ◌+◌, ◌*◌, ◌<◌, ◌≤◌, List, [], ◌∷◌, ◌++◌, length, length-append, Bool, true,
  false, some, ltb, leb, if◌then◌else◌, ◌≡◌, refl, sym, ap, ◌∙◌, arith,
}
use postman.Text.{c_string}
use postman.Text.Search.{Lacks}
use postman.Client.Files.{fault, read, fgets, ends_line, by_end, room_for, readline_loop}

pub fgets-line :
    (n : ℕ) (line rest : List ℕ)
    → Lacks 0x0a line
    → length line < n
    → fgets n (line ++ 0x0a ∷ rest) ≡ (line ++ 0x0a ∷ [], rest)
unfolding fgets
fgets-line zero line rest l h = absurd (omega (arith, h))
fgets-line (suc n) [] rest l h = refl
fgets-line (suc n) (c ∷ line) rest l h = ground (arith, fgets-line n line rest)

fgets-part : (a rest : List ℕ) → Lacks 0x0a a → fgets (length a) (a ++ rest) ≡ (a, rest)
unfolding fgets
fgets-part [] rest l = refl
fgets-part (c ∷ a) rest l = ground (arith, fgets-part a rest)

pub fgets-all :
    (n : ℕ) (line : List ℕ) → Lacks 0x0a line → length line ≤ n → fgets n line ≡ (line, [])
unfolding fgets
fgets-all zero [] l h = refl
fgets-all zero (c ∷ line) l h = absurd (omega (arith, h))
fgets-all (suc n) [] l h = refl
fgets-all (suc n) (c ∷ line) l h = ground (arith, fgets-all n line)

c_string-all : (xs : List ℕ) → Lacks 0 xs → c_string xs ≡ xs
unfolding c_string
c_string-all [] h = refl
c_string-all (x ∷ xs) h = ground (arith, c_string-all xs)

ends_line-append :
    (string : List ℕ) (c : ℕ) (cs : List ℕ) → ends_line (string ++ c ∷ cs) ≡ ends_line (c ∷ cs)
unfolding ends_line
ends_line-append [] c cs = refl
ends_line-append (a ∷ []) c cs = refl
ends_line-append (a ∷ (b ∷ string)) c cs = ends_line-append (b ∷ string) c cs

ends_line-Lacks : (c : ℕ) (cs : List ℕ) → Lacks 0x0a (c ∷ cs) → ends_line (c ∷ cs) ≡ some false
unfolding ends_line
ends_line-Lacks c [] l = ground arith
ends_line-Lacks c (d ∷ cs) l = ends_line-Lacks d cs l.1

pub ends_line-lf : (string : List ℕ) → ends_line (string ++ 0x0a ∷ []) ≡ some true
unfolding ends_line
ends_line-lf string = ends_line-append string 0x0a []

-- A part of a line is no end, whatever stands before it.
pub ends_line-part :
    (string part : List ℕ)
    → 0 < length part
    → Lacks 0x0a part
    → ends_line (string ++ part) ≡ some false
ends_line-part string [] h l = absurd (omega (arith, h))
ends_line-part string (c ∷ cs) h l = ends_line-append string c cs ∙ ends_line-Lacks c cs l

-- The buffer holds some parts of 255 bytes and one byte more; it has room for the next part.
pub room_for-parts :
    (k m : ℕ) → 0 < m → (n : ℕ) × (k < n) × (room_for (255 * k) (255 * m + 1) ≡ 255 * n + 1)
room_for-parts k m h = by_size (leb (255 * m) (255 * k)) refl
  where
    by_size :
        (b : Bool)
        → leb (255 * m) (255 * k) ≡ b
        → (n : ℕ) × (k < n) × (room_for (255 * k) (255 * m + 1) ≡ 255 * n + 1)
    by_size true e = (2 * k, ground arith, ground arith)
    by_size false e = (m, ground arith, ground arith)

-- One round of the loop, by what fgets gives.
pub loop_step :
    (fuel : ℕ) (string : List ℕ) (size : ℕ) (file chunk rest : List ℕ) (room : ℕ)
    → 0 < length file
    → fgets 255 file ≡ (chunk, rest)
    → Lacks 0 chunk
    → room_for (length string) size ≡ room
    → length string + length chunk < room
    → readline_loop (suc fuel) string size file
      ≡ by_end
          (ends_line (string ++ chunk))
          fault
          (read (string ++ chunk, rest))
          (readline_loop fuel (string ++ chunk) room rest)
unfolding readline_loop
loop_step fuel string size [] chunk rest room n e z r h = absurd (omega (arith, n))
loop_step fuel string size (c ∷ file) chunk rest room n e z r h =
    ap
      (λ p.
        let joined = string ++ c_string p.0 in
        if ltb (length joined) (room_for (length string) size)
        then by_end (ends_line joined) fault (read (joined, p.1))
            (readline_loop fuel joined (room_for (length string) size) p.1)
        else fault)
      e
    ∙ ap
        (λ s.
          let joined = string ++ s in
          if ltb (length joined) (room_for (length string) size)
          then by_end (ends_line joined) fault (read (joined, rest))
              (readline_loop fuel joined (room_for (length string) size) rest)
          else fault)
        (c_string-all chunk z)
    ∙ ap
        (λ w.
          let joined = string ++ chunk in
          if ltb (length joined) w
          then by_end (ends_line joined) fault (read (joined, rest))
              (readline_loop fuel joined w rest)
          else fault)
        r
    ∙ ground (arith, h, length-append string chunk)

-- A front of 255 bytes, where there are as many.
pub cut_line :
    (n : ℕ) (line : List ℕ)
    → n ≤ length line
    → (a : List ℕ) × (b : List ℕ) × (length a ≡ n) × (a ++ b ≡ line)
cut_line zero line h = ([], line, refl, refl)
cut_line (suc n) [] h = absurd (omega (arith, h))
cut_line (suc n) (c ∷ line) h =
    let (a, b, l, e) = cut_line n line (omega (arith, h)) in (c ∷ a, b, ap suc l, ap (◌∷◌ c) e)

pub Lacks-parts : (c : ℕ) (a b : List ℕ) → Lacks c (a ++ b) → Lacks c a × Lacks c b
Lacks-parts c [] b h = (tt, h)
Lacks-parts c (x ∷ a) b h = let (l, r) = Lacks-parts c a b h.1 in ((h.0, l), r)

pub Lacks-snoc : (c d : ℕ) (a : List ℕ) → Lacks c a → d ≢ c → Lacks c (a ++ d ∷ [])
Lacks-snoc c d [] h n = (n, tt)
Lacks-snoc c d (x ∷ a) h n = (h.0, Lacks-snoc c d a h.1 n)

-- A round that reads a part of a line.
pub part_step :
    (fuel : ℕ) (string : List ℕ) (k m : ℕ) (a rest : List ℕ)
    → length string ≡ 255 * k
    → 0 < m
    → length a ≡ 255
    → Lacks 0 a
    → Lacks 0x0a a
    → (n : ℕ) × (0 < n)
      × (readline_loop (suc fuel) string (255 * m + 1) (a ++ rest)
          ≡ readline_loop fuel (string ++ a) (255 * n + 1) rest)
part_step fuel string k m a rest s p l z e =
    let (n, more, r) = room_for-parts k m p in
    (
      n,
      omega (arith, more),
      loop_step fuel string (255 * m + 1) (a ++ rest) a rest (255 * n + 1)
            (omega (arith, l, length-append a rest))
            (ap (λ w. fgets w (a ++ rest)) (sym l) ∙ fgets-part a rest e) z
            (ap (λ w. room_for w (255 * m + 1)) s ∙ r) (omega (arith, s, l, more))
          ∙ ap
              (λ o.
                by_end o fault (read (string ++ a, rest))
                  (readline_loop fuel (string ++ a) (255 * n + 1) rest))
              (ends_line-part string a (omega (arith, l)) e),
    )
