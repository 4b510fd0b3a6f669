-- ===== src/Client/Cells.antt =====
-- The cells of the array of connections of a thread, and what changes them, in client/src/context/context.c.
use postman.Prelude.{
  ℕ, zero, suc, ◌+◌, ◌-◌, ◌<◌, ◌≤◌, List, [], ◌∷◌, get_elem?, true, Option, none, some, ◌≡◌, refl,
  sym, ap, ◌∙◌, arith,
}
use postman.Client.Context.{MultiplexContext}
use postman.Client.Connections.{
  Thread, move_forward, free_first, change_from, remove_multiplex_context, put_context,
}

abbrev Cells : Type 0
Cells = List (Option MultiplexContext)

-- What a change behind the first cell is made of.
changed_behind :
    (i : ℕ) (f : Cells → Option Cells) (c : Option MultiplexContext) (cells r : Cells)
    → change_from (suc i) f (c ∷ cells) ≡ some r
    → (rest : Cells) × (change_from i f cells ≡ some rest) × (r ≡ c ∷ rest)
unfolding change_from
changed_behind i f c cells r h = by_change (change_from i f cells) refl h
  where
    by_change :
        (o : Option Cells)
        → change_from i f cells ≡ o
        → (elim o [ none ↦ none | some rest ↦ some (c ∷ rest) ]) ≡ some r
        → (rest : Cells) × (change_from i f cells ≡ some rest) × (r ≡ c ∷ rest)
    by_change none e k = absurd (cc k)
    by_change (some rest) e k = (rest, e, cc k)

-- The cells before it are as they were.
pub change_from-before :
    (i j : ℕ) (f : Cells → Option Cells) (cells r : Cells)
    → change_from i f cells ≡ some r
    → j < i
    → get_elem? r j ≡ get_elem? cells j
unfolding change_from
change_from-before zero j f cells r h p = absurd (omega (arith, p))
change_from-before (suc i) j f [] r h p = absurd (cc h)
change_from-before (suc i) zero f (c ∷ cells) r h p =
    let (rest, e, k) = changed_behind i f c cells r h in ap (λ x. get_elem? x 0) k
change_from-before (suc i) (suc j) f (c ∷ cells) r h p =
    let (rest, e, k) = changed_behind i f c cells r h in
    ap (λ x. get_elem? x (suc j)) k ∙ change_from-before i j f cells rest e (omega (arith, p))

freed_first :
    (o : Option Cells) (r : Cells)
    → free_first o ≡ some r
    → (c : MultiplexContext) × (rest : Cells) × (o ≡ some (some c ∷ rest)) × (r ≡ none ∷ rest)
unfolding free_first
freed_first none r h = absurd (cc h)
freed_first (some []) r h = absurd (cc h)
freed_first (some (none ∷ cells)) r h = absurd (cc h)
freed_first (some (some c ∷ cells)) r h = (c, cells, refl, cc h)

same_cells : {a b : Cells} → some a ≡ some b → a ≡ b
same_cells h = cc h

move_forward-next :
    (n q : ℕ) (cells r : Cells)
    → move_forward n cells ≡ some r
    → q < n
    → get_elem? r q ≡ get_elem? cells (suc q)
unfolding move_forward
move_forward-next zero q cells r h p = absurd (omega (arith, p))
move_forward-next (suc n) q [] r h p = absurd (cc h)
move_forward-next (suc n) q (c ∷ []) r h p = absurd (cc h)
move_forward-next (suc n) q (c ∷ (next ∷ cells)) r h p =
    by_rest (move_forward n (next ∷ cells)) refl h q p
      (λ rest e q p. move_forward-next n q (next ∷ cells) rest e p)
  where
    by_rest :
        (o : Option Cells)
        → move_forward n (next ∷ cells) ≡ o
        → (elim o [ none ↦ none | some rest ↦ some (next ∷ rest) ]) ≡ some r
        → (q : ℕ) → q < suc n
        → ((rest : Cells)
            → move_forward n (next ∷ cells) ≡ some rest
            → (q : ℕ) → q < n
            → get_elem? rest q ≡ get_elem? (next ∷ cells) (suc q))
        → get_elem? r q ≡ get_elem? (c ∷ (next ∷ cells)) (suc q)
    by_rest none e k q p later = absurd (cc k)
    by_rest (some rest) e k zero p later = ap (λ x. get_elem? x 0) (same_cells (sym k))
    by_rest (some rest) e k (suc q) p later =
        ap (λ x. get_elem? x (suc q)) (same_cells (sym k)) ∙ later rest e q (omega (arith, p))

-- What a removal makes of the cells from its own on.
abbrev removed_from : ℕ → Cells → Option Cells
removed_from n cells = free_first (move_forward n cells)

-- The cell at the index of a removal is freed.
pub removed_from-frees :
    (i n : ℕ) (cells r : Cells)
    → change_from i (removed_from n) cells ≡ some r
    → get_elem? r i ≡ some none
unfolding change_from
removed_from-frees zero n cells r h =
    let (c, rest, e, k) = freed_first (move_forward n cells) r h in ap (λ x. get_elem? x 0) k
removed_from-frees (suc i) n [] r h = absurd (cc h)
removed_from-frees (suc i) n (c ∷ cells) r h =
    let (rest, e, k) = changed_behind i (removed_from n) c cells r h in
    ap (λ x. get_elem? x (suc i)) k ∙ removed_from-frees i n cells rest e

-- A freed cell behind it moves forward with the others; right behind it, it would be freed twice.
moved_first :
    (q : ℕ) (c : MultiplexContext) (rest : Cells)
    → get_elem? (some c ∷ rest) q ≡ some none
    → (0 < q) × (get_elem? (none ∷ rest) q ≡ some none)
moved_first zero c rest h = absurd (cc h)
moved_first (suc q) c rest h = (omega arith, h)

pub removed_from-moves :
    (i j n : ℕ) (cells r : Cells)
    → change_from i (removed_from n) cells ≡ some r
    → get_elem? cells (suc j) ≡ some none
    → i ≤ j
    → j < i + n
    → (i < j) × (get_elem? r j ≡ some none)
unfolding change_from
removed_from-moves zero j n cells r h g p q =
    let (c, rest, e, k) = freed_first (move_forward n cells) r h in
    let (more, there) =
      moved_first j c rest (move_forward-next n j cells (some c ∷ rest) e (omega (arith, q)) ∙ g) in
    (more, ap (λ x. get_elem? x j) k ∙ there)
removed_from-moves (suc i) zero n cells r h g p q = absurd (omega (arith, p))
removed_from-moves (suc i) (suc j) n [] r h g p q = absurd (cc h)
removed_from-moves (suc i) (suc j) n (c ∷ cells) r h g p q =
    let (rest, e, k) = changed_behind i (removed_from n) c cells r h in
    let (more, there) =
      removed_from-moves i j n cells rest e g (omega (arith, p)) (omega (arith, q)) in
    (omega (arith, more), ap (λ x. get_elem? x (suc j)) k ∙ there)

-- A connection that stays leaves the cells behind it.
abbrev pub put_first : MultiplexContext → Cells → Option Cells
put_first c cells = elim cells [ [] ↦ none | _ ∷ rest ↦ some (some c ∷ rest) ]

pub put_first-behind :
    (i j : ℕ) (c : MultiplexContext) (cells r : Cells)
    → change_from i (put_first c) cells ≡ some r
    → i < j
    → get_elem? r j ≡ get_elem? cells j
unfolding change_from
put_first-behind i zero c cells r h p = absurd (omega (arith, p))
put_first-behind zero (suc j) c [] r h p = absurd (cc h)
put_first-behind zero (suc j) c (x ∷ cells) r h p =
    ap (λ x. get_elem? x (suc j)) (same_cells (sym h))
put_first-behind (suc i) (suc j) c [] r h p = absurd (cc h)
put_first-behind (suc i) (suc j) c (x ∷ cells) r h p =
    let (rest, e, k) = changed_behind i (put_first c) x cells r h in
    ap (λ x. get_elem? x (suc j)) k ∙ put_first-behind i j c cells rest e (omega (arith, p))

same_thread : {a b : Thread} → some a ≡ some b → a ≡ b
same_thread h = cc h

-- What a change of a thread is made of.
pub removed_thread :
    (i : ℕ) (thr t : Thread)
    → remove_multiplex_context i thr ≡ some t
    → (t.multiplex_context_size ≡ thr.multiplex_context_size - 1)
      × (change_from i (removed_from (thr.multiplex_context_size - suc i)) thr.multiplex_context
          ≡ some t.multiplex_context)
unfolding remove_multiplex_context
removed_thread i thr t h = by_cells (change_from i _ thr.multiplex_context) refl h
  where
    by_cells :
        (o : Option Cells)
        → change_from i (removed_from (thr.multiplex_context_size - suc i)) thr.multiplex_context
          ≡ o
        → (elim o [
          | none ↦ none
          | some cells ↦ some (record thr {
            multiplex_context = cells;
            multiplex_context_size = thr.multiplex_context_size - 1;
            is_cleared = true;
          })
        ])
          ≡ some t
        → (t.multiplex_context_size ≡ thr.multiplex_context_size - 1)
          × (change_from i (removed_from (thr.multiplex_context_size - suc i)) thr.multiplex_context
              ≡ some t.multiplex_context)
    by_cells none e k = absurd (cc k)
    by_cells (some cells) e k =
        let same = same_thread k in
        (sym (ap (λ x. x.multiplex_context_size) same), e ∙ ap (λ x. some x.multiplex_context) same)

pub put_thread :
    (i : ℕ) (c : MultiplexContext) (thr t : Thread)
    → put_context i c thr ≡ some t
    → (t.multiplex_context_size ≡ thr.multiplex_context_size)
      × (change_from i (put_first c) thr.multiplex_context ≡ some t.multiplex_context)
unfolding put_context
put_thread i c thr t h = by_cells (change_from i (put_first c) thr.multiplex_context) refl h
  where
    by_cells :
        (o : Option Cells)
        → change_from i (put_first c) thr.multiplex_context ≡ o
        → (elim o [ none ↦ none | some cells ↦ some (record thr { multiplex_context = cells }) ])
          ≡ some t
        → (t.multiplex_context_size ≡ thr.multiplex_context_size)
          × (change_from i (put_first c) thr.multiplex_context ≡ some t.multiplex_context)
    by_cells none e k = absurd (cc k)
    by_cells (some cells) e k =
        let same = same_thread k in
        (sym (ap (λ x. x.multiplex_context_size) same), e ∙ ap (λ x. some x.multiplex_context) same)
