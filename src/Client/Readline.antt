-- ===== src/Client/Readline.antt =====
-- What `file_readline` of client/src/util/util.c makes of a file.
use mathlib.Core.Path.{subst}
use postman.Prelude.{
  Bool-cases, ℕ, zero, suc, ◌+◌, ◌*◌, ◌<◌, ◌≤◌, List, [], ◌∷◌, ◌++◌, length, length-append,
  append_assoc, ltb, ◌≡◌, ◌⊎◌, inl, inr, refl, sym, ap, ◌∙◌, arith,
}
use postman.Text.Search.{Lacks}
use postman.Client.Chunks.{
  fgets-line, fgets-all, ends_line-lf, ends_line-part, room_for-parts, loop_step, cut_line,
  Lacks-parts, Lacks-snoc, part_step,
}
use postman.Client.Files.{
  fault, null, read, ends_line, by_end, room_for, readline_loop, file_readline,
}

short_or_long : (n w : ℕ) → (n < w) ⊎ (w ≤ n)
short_or_long n w = elim (Bool-cases (ltb n w)) [
  | inl e ↦ inl (ground arith)
  | inr e ↦ inr (ground arith)
]

no_more :
    (fuel : ℕ) (string : List ℕ) (size : ℕ) → 0 < fuel → readline_loop fuel string size [] ≡ null
unfolding readline_loop
no_more zero string size h = absurd (omega (arith, h))
no_more (suc fuel) string size h = refl

readline_loop-line :
    (fuel : ℕ) (string : List ℕ) (k m : ℕ) (line rest : List ℕ)
    → length string ≡ 255 * k
    → 0 < m
    → Lacks 0 line
    → Lacks 0x0a line
    → length line < fuel
    → readline_loop fuel string (255 * m + 1) (line ++ 0x0a ∷ rest)
      ≡ read (string ++ (line ++ 0x0a ∷ []), rest)
readline_loop-line zero string k m line rest s p z e f = absurd (omega (arith, f))
readline_loop-line (suc fuel) string k m line rest s p z e f =
    elim (short_or_long (length line) 255) [
      | inl short ↦
          let (n, more, r) = room_for-parts k m p in
          loop_step fuel string (255 * m + 1) (line ++ 0x0a ∷ rest) (line ++ 0x0a ∷ []) rest
            (255 * n + 1) (omega (arith, length-append line (0x0a ∷ rest)))
            (fgets-line 255 line rest e short) (Lacks-snoc 0 0x0a line z (omega arith))
            (ap (λ w. room_for w (255 * m + 1)) s ∙ r)
            (omega (arith, s, short, more, length-append line (0x0a ∷ [])))
          ∙ ap
              (λ o.
                by_end o fault (read (string ++ (line ++ 0x0a ∷ []), rest))
                  (readline_loop fuel (string ++ (line ++ 0x0a ∷ [])) (255 * n + 1) rest))
              (ap ends_line (sym (append_assoc string line (0x0a ∷ [])))
                ∙ ends_line-lf (string ++ line))
      | inr long ↦
          let (a, b, l, cut) = cut_line 255 line long in
          let (za, zb) = Lacks-parts 0 a b (subst (Lacks 0) (sym cut) z) in
          let (ea, eb) = Lacks-parts 0x0a a b (subst (Lacks 0x0a) (sym cut) e) in
          let (n, some_room, step) = part_step fuel string k m a (b ++ 0x0a ∷ rest) s p l za ea in
          ap (readline_loop (suc fuel) string (255 * m + 1))
            (ap (λ w. w ++ 0x0a ∷ rest) (sym cut) ∙ append_assoc a b (0x0a ∷ rest))
          ∙ step
          ∙ readline_loop-line fuel (string ++ a) (k + 1) n b rest
              (omega (arith, s, l, length-append string a)) some_room zb eb
              (omega (arith, f, l, ap length cut, length-append a b))
          ∙ ap (λ w. read (w, rest))
              (append_assoc string a (b ++ 0x0a ∷ [])
                ∙ ap (◌++◌ string)
                    (sym (append_assoc a b (0x0a ∷ [])) ∙ ap (λ w. w ++ 0x0a ∷ []) cut))
    ]

readline_loop-no_end :
    (fuel : ℕ) (string : List ℕ) (k m : ℕ) (line : List ℕ)
    → length string ≡ 255 * k
    → 0 < m
    → Lacks 0 line
    → Lacks 0x0a line
    → length line < fuel
    → readline_loop fuel string (255 * m + 1) line ≡ null
unfolding readline_loop
readline_loop-no_end zero string k m line s p z e f = absurd (omega (arith, f))
readline_loop-no_end (suc fuel) string k m [] s p z e f = refl
readline_loop-no_end (suc fuel) string k m (c ∷ cs) s p z e f =
    elim (short_or_long (length (c ∷ cs)) 255) [
      | inl short ↦
          let (n, more, r) = room_for-parts k m p in
          loop_step fuel string (255 * m + 1) (c ∷ cs) (c ∷ cs) [] (255 * n + 1) (omega arith)
            (fgets-all 255 (c ∷ cs) e (omega (arith, short))) z
            (ap (λ w. room_for w (255 * m + 1)) s ∙ r) (omega (arith, s, short, more))
          ∙ ap
              (λ o.
                by_end o fault (read (string ++ c ∷ cs, []))
                  (readline_loop fuel (string ++ c ∷ cs) (255 * n + 1) []))
              (ends_line-part string (c ∷ cs) (omega arith) e)
          ∙ no_more fuel (string ++ c ∷ cs) (255 * n + 1) (omega (arith, f))
      | inr long ↦
          let (a, b, l, cut) = cut_line 255 (c ∷ cs) long in
          let (za, zb) = Lacks-parts 0 a b (subst (Lacks 0) (sym cut) z) in
          let (ea, eb) = Lacks-parts 0x0a a b (subst (Lacks 0x0a) (sym cut) e) in
          let (n, some_room, step) = part_step fuel string k m a b s p l za ea in
          ap (readline_loop (suc fuel) string (255 * m + 1)) (sym cut)
          ∙ step
          ∙ readline_loop-no_end fuel (string ++ a) (k + 1) n b
              (omega (arith, s, l, length-append string a)) some_room zb eb
              (omega (arith, f, l, ap length cut, length-append a b))
    ]

-- Of a file without zero bytes before the line feed, `file_readline` gives the first line, of any
-- length, with its line feed, and leaves what stands behind it; a file without zero bytes and line
-- feeds, of any length, is read and given as NULL. No write leaves the buffer, which grows on the
-- way, and the loop ends.
pub file_readline-lines :
    (line rest : List ℕ)
    → Lacks 0 line
    → Lacks 0x0a line
    → (file_readline (line ++ 0x0a ∷ rest) ≡ read (line ++ 0x0a ∷ [], rest))
      × (file_readline line ≡ null)
unfolding file_readline
file_readline-lines line rest z e = (
  readline_loop-line (suc (length (line ++ 0x0a ∷ rest))) [] 0 1 line rest refl (omega arith) z e
      (omega (arith, length-append line (0x0a ∷ rest))),
  readline_loop-no_end (suc (length line)) [] 0 1 line refl (omega arith) z e (omega arith),
)
