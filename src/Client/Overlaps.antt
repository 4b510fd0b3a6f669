-- ===== src/Client/Overlaps.antt =====
-- What a removed connection does to the array of connections in client/src/context/context.c.
use postman.Prelude.{
  ℕ, zero, suc, ◌+◌, ◌-◌, ◌<◌, ◌≤◌, get_elem?, true, false, Bool-cases, Option, none, some, ltb,
  ◌≡◌, ◌≢◌, ◌⊎◌, inl, inr, refl, sym, ap, ◌∙◌, arith,
}
use mathlib.Core.Path.{subst}
use postman.Client.Mailbox.{MailFiles}
use postman.Client.Context.{MultiplexContext, Round, HandlerResult, faulted, exited, stays, removed}
use postman.Client.Handlers.{serve}
use postman.Client.Connections.{
  Thread, Pass, passes, seen, remove_multiplex_context, put_context, goes_on, by_result, with_cell,
  serve_each,
}
use postman.Client.Cells.{
  change_from-before, removed_from-frees, removed_from-moves, put_first, put_first-behind,
  removed_thread, put_thread,
}

same_result : {A : Type 0} {x y : A} → passes x ≡ passes y → x ≡ y
same_result h = cc h

module _ {D : Type 0} (files : MailFiles D) (look : MultiplexContext → Round) where
  -- A thread behind a connection that stays, or one that was removed.
  Follows : ℕ → Thread → Thread → Type 0
  Follows i thr t =
      ((c : MultiplexContext) × (put_context i c thr ≡ some t))
      ⊎ (remove_multiplex_context i thr ≡ some t)

  -- A round of the loop that the pass survives.
  Survives : ℕ → ℕ → Thread → Thread × D → Type 0
  Survives fuel i thr r =
      (c : MultiplexContext) × (t : Thread) × (d : D) × (get_elem? thr.multiplex_context i
        ≡ some (some c))
      × (serve_each files look fuel (suc i) t d ≡ passes r)
      × Follows i thr t

  goes_on-passes :
      {A : Type 0} (o : Option Thread) (f : Thread → Pass A) (r : A)
      → goes_on o f ≡ passes r
      → (t : Thread) × (o ≡ some t) × (f t ≡ passes r)
  goes_on-passes none f r h = absurd (cc h)
  goes_on-passes (some t) f r h = (t, refl, h)

  by_result-Survives :
      (fuel i : ℕ) (thr : Thread) (c : MultiplexContext) (h : HandlerResult D) (r : Thread × D)
      → get_elem? thr.multiplex_context i ≡ some (some c)
      → by_result i thr h (serve_each files look fuel (suc i)) ≡ passes r
      → Survives fuel i thr r
  unfolding Survives Follows
  by_result-Survives fuel i thr c faulted r e p = absurd (cc p)
  by_result-Survives fuel i thr c exited r e p = absurd (cc p)
  by_result-Survives fuel i thr c (stays c' d) r e p =
      let (t, k, q) = goes_on-passes _ _ r p in (c, t, d, e, q, inl (c', k))
  by_result-Survives fuel i thr c (removed c' d) r e p =
      let (t, k, q) = goes_on-passes _ _ r p in (c, t, d, e, q, inr k)

  with_cell-Survives :
      (fuel i : ℕ) (thr : Thread) (d : D) (o : Option (Option MultiplexContext)) (r : Thread × D)
      → get_elem? thr.multiplex_context i ≡ o
      → with_cell o (λ context.
        by_result i thr
          (serve files (seen thr look context) context d)
          (serve_each files look fuel (suc i)))
        ≡ passes r
      → Survives fuel i thr r
  with_cell-Survives fuel i thr d none r e p = absurd (cc p)
  with_cell-Survives fuel i thr d (some none) r e p = absurd (cc p)
  with_cell-Survives fuel i thr d (some (some c)) r e p =
      by_result-Survives fuel i thr c (serve files (seen thr look c) c d) r e p

  serve_each-Survives :
      (fuel i : ℕ) (thr : Thread) (d : D) (r : Thread × D)
      → ltb i thr.multiplex_context_size ≡ true
      → serve_each files look (suc fuel) i thr d ≡ passes r
      → Survives fuel i thr r
  unfolding serve_each
  serve_each-Survives fuel i thr d r b h =
      with_cell-Survives fuel i thr d (get_elem? thr.multiplex_context i) r refl (rw b at h)

  -- A freed cell that the pass has still to come to.
  freed_ahead :
      (fuel i j : ℕ) (thr : Thread) (d : D) (r : Thread × D)
      → get_elem? thr.multiplex_context j ≡ some none
      → i ≤ j
      → j < thr.multiplex_context_size
      → thr.multiplex_context_size ≤ i + fuel
      → serve_each files look fuel i thr d ≢ passes r
  unfolding Survives Follows
  freed_ahead zero i j thr d r g p q f h = absurd (omega (arith, p, q, f))
  freed_ahead (suc fuel) i j thr d r g p q f h =
      let (c, t, d2, e, later, follows) =
        serve_each-Survives fuel i thr d r (ground (arith, p, q)) h in
      elim (Bool-cases (ltb i j)) [
        | inr b ↦
            let same : i ≡ j = ground (arith, b, p) in
            absurd (cc (sym e ∙ ap (get_elem? thr.multiplex_context) same ∙ g))
        | inl b ↦
            let more : i < j = ground (arith, b) in
            elim follows [
              | inl (c', k) ↦
                  let (size, cells) = put_thread i c' thr t k in
                  freed_ahead fuel (suc i) j t d2 r
                    (put_first-behind i j c' thr.multiplex_context t.multiplex_context cells more
                      ∙ g)
                    (omega (arith, more)) (omega (arith, size, q)) (omega (arith, size, f)) later
              | inr k ↦
                  let (size, cells) = removed_thread i thr t k in
                  let back : j ≡ suc (j - 1) = omega (arith, more) in
                  let (next, there) =
                    removed_from-moves i (j - 1) (thr.multiplex_context_size - suc i)
                      thr.multiplex_context t.multiplex_context cells
                      (ap (get_elem? thr.multiplex_context) (sym back) ∙ g) (omega (arith, more))
                      (omega (arith, more, q)) in
                  freed_ahead fuel (suc i) (j - 1) t d2 r there (omega (arith, next))
                    (omega (arith, size, q, more)) (omega (arith, size, f)) later
            ]
      ]

  -- A freed cell that the pass has left behind.
  freed_behind :
      (fuel i j : ℕ) (thr : Thread) (d : D) (r : Thread × D)
      → get_elem? thr.multiplex_context j ≡ some none
      → j < i
      → j < thr.multiplex_context_size
      → serve_each files look fuel i thr d ≡ passes r
      → (get_elem? r.0.multiplex_context j ≡ some none) × (j < r.0.multiplex_context_size)
  unfolding serve_each Survives Follows
  freed_behind zero i j thr d r g p q h =
      subst
        (λ x. (get_elem? x.0.multiplex_context j ≡ some none) × (j < x.0.multiplex_context_size))
        (same_result h) (g, q)
  freed_behind (suc fuel) i j thr d r g p q h =
      elim (Bool-cases (ltb i thr.multiplex_context_size)) [
        | inr b ↦
            subst
              (λ x.
                (get_elem? x.0.multiplex_context j ≡ some none) × (j < x.0.multiplex_context_size))
              (same_result (rw b at h)) (g, q)
        | inl b ↦
            let (c, t, d2, e, later, follows) = serve_each-Survives fuel i thr d r b h in
            let bound : i < thr.multiplex_context_size = ground (arith, b) in
            elim follows [
              | inl (c', k) ↦
                  let (size, cells) = put_thread i c' thr t k in
                  freed_behind fuel (suc i) j t d2 r
                    (change_from-before i j (put_first c') thr.multiplex_context t.multiplex_context
                        cells p
                      ∙ g)
                    (omega (arith, p)) (omega (arith, size, q)) later
              | inr k ↦
                  let (size, cells) = removed_thread i thr t k in
                  freed_behind fuel (suc i) j t d2 r
                    (change_from-before i j _ thr.multiplex_context t.multiplex_context cells p ∙ g)
                    (omega (arith, p)) (omega (arith, size, p, bound)) later
            ]
      ]

-- A round in which the handler removes the connection.
removal :
    {D : Type 0} (files : MailFiles D) (look : MultiplexContext → Round) (fuel i : ℕ) (thr : Thread)
    (c c' : MultiplexContext) (d d' : D) (r : Thread × D)
    → get_elem? thr.multiplex_context i ≡ some (some c)
    → i < thr.multiplex_context_size
    → serve files (seen thr look c) c d ≡ removed c' d'
    → serve_each files look (suc fuel) i thr d ≡ passes r
    → (t : Thread) × (remove_multiplex_context i thr ≡ some t)
      × (serve_each files look fuel (suc i) t d' ≡ passes r)
unfolding serve_each
removal files look fuel i thr c c' d d' r e p k h =
    let b : ltb i thr.multiplex_context_size ≡ true = ground (arith, p) in
    let rest = serve_each files look fuel (suc i) in
    goes_on-passes files look (remove_multiplex_context i thr) (λ t. rest t d') r
      (sym (
          ap
            (λ o.
              with_cell o
                (λ context. by_result i thr (serve files (seen thr look context) context d) rest))
            e
          ∙ ap (λ x. by_result i thr x rest) k)
        ∙ rw b at h)

-- Where a pass over the connections of a thread, at any index, comes to a connection that is not
-- the last, its handler removes it, and the pass comes to its end, the pass over the connections
-- after the next pselect does not, whatever that finds: in the place of the removed connection
-- stands the one behind it, with its strings freed, and they are used or freed again, or the
-- client stops before.
pub serve_each-frees_next :
    {D : Type 0} (files : MailFiles D) (look later : MultiplexContext → Round) (fuel i : ℕ)
    (thr : Thread) (c c' : MultiplexContext) (d d' disk : D) (r after : Thread × D)
    → get_elem? thr.multiplex_context i ≡ some (some c)
    → suc i < thr.multiplex_context_size
    → serve files (seen thr look c) c d ≡ removed c' d'
    → serve_each files look (suc fuel) i thr d ≡ passes r
    → let next = record r.0 { is_cleared = false } in
      serve_each files later next.multiplex_context_size 0 next disk ≢ passes after
serve_each-frees_next files look later fuel i thr c c' d d' disk r after e p k h =
    let (t, kept, rest) = removal files look fuel i thr c c' d d' r e (omega (arith, p)) k h in
    let (size, cells) = removed_thread i thr t kept in
    let (there, less) =
      freed_behind files look fuel (suc i) i t d' r
        (removed_from-frees i (thr.multiplex_context_size - suc i) thr.multiplex_context
          t.multiplex_context cells)
        (omega arith) (omega (arith, size, p)) rest in
    freed_ahead files later r.0.multiplex_context_size 0 i (record r.0 { is_cleared = false }) disk
      after there (omega arith) less (omega arith)
