-- ===== src/Client/Rounds.antt =====
-- The loop over the connections of a thread in client/src/context/context.c has fuel enough.
use postman.Prelude.{
  ℕ, zero, suc, ◌+◌, ◌≤◌, get_elem?, false, Bool-cases, Option, none, some, ltb, ◌≡◌, inl, inr,
  refl, sym, arith,
}
use postman.Client.Mailbox.{MailFiles}
use postman.Client.Context.{MultiplexContext, Round, HandlerResult, faulted, exited, stays, removed}
use postman.Client.Handlers.{serve}
use postman.Client.Connections.{
  Thread, Pass, passes, seen, remove_multiplex_context, put_context, goes_on, by_result, with_cell,
  serve_each,
}
use postman.Client.Cells.{removed_thread, put_thread}

module _ {D : Type 0} (n : ℕ) (f g : Thread → D → Pass (Thread × D))
    (same : (t : Thread) (d : D) → t.multiplex_context_size ≤ n → f t d ≡ g t d) where
  goes_on-same :
      (d : D) (o : Option Thread)
      → ((t : Thread) → o ≡ some t → t.multiplex_context_size ≤ n)
      → goes_on o (λ t. f t d) ≡ goes_on o (λ t. g t d)
  goes_on-same d none h = refl
  goes_on-same d (some t) h = same t d (h t refl)

  by_result-same :
      (i : ℕ) (thr : Thread) (r : HandlerResult D)
      → thr.multiplex_context_size ≤ n
      → by_result i thr r f ≡ by_result i thr r g
  by_result-same i thr faulted h = refl
  by_result-same i thr exited h = refl
  by_result-same i thr (stays c d) h =
      goes_on-same d (put_context i c thr) (λ t e. omega (arith, (put_thread i c thr t e).0, h))
  by_result-same i thr (removed c d) h =
      goes_on-same d (remove_multiplex_context i thr)
        (λ t e. omega (arith, (removed_thread i thr t e).0, h))

module _ {D : Type 0} (files : MailFiles D) (look : MultiplexContext → Round) where
  with_cell-same :
      (n i : ℕ) (f g : Thread → D → Pass (Thread × D)) (thr : Thread) (d : D)
      (o : Option (Option MultiplexContext))
      → ((t : Thread) (e : D) → t.multiplex_context_size ≤ n → f t e ≡ g t e)
      → thr.multiplex_context_size ≤ n
      → with_cell o (λ c. by_result i thr (serve files (seen thr look c) c d) f)
        ≡ with_cell o (λ c. by_result i thr (serve files (seen thr look c) c d) g)
  with_cell-same n i f g thr d none same h = refl
  with_cell-same n i f g thr d (some none) same h = refl
  with_cell-same n i f g thr d (some (some c)) same h =
      by_result-same n f g same i thr (serve files (seen thr look c) c d) h

  serve_each-past :
      (fuel i : ℕ) (thr : Thread) (d : D)
      → thr.multiplex_context_size ≤ i
      → serve_each files look fuel i thr d ≡ passes (thr, d)
  unfolding serve_each
  serve_each-past zero i thr d h = refl
  serve_each-past (suc fuel) i thr d h =
      let past : ltb i thr.multiplex_context_size ≡ false = ground (arith, h) in rw past refl

  -- Any fuel that is enough for the connections from the index on gives the same.
  serve_each-enough :
      (fuel more i : ℕ) (thr : Thread) (d : D)
      → thr.multiplex_context_size ≤ i + fuel
      → thr.multiplex_context_size ≤ i + more
      → serve_each files look fuel i thr d ≡ serve_each files look more i thr d
  unfolding serve_each
  serve_each-enough zero more i thr d h k = sym (serve_each-past more i thr d (omega (arith, h)))
  serve_each-enough (suc fuel) zero i thr d h k =
      serve_each-past (suc fuel) i thr d (omega (arith, k))
  serve_each-enough (suc fuel) (suc more) i thr d h k =
      elim (Bool-cases (ltb i thr.multiplex_context_size)) [
        | inr b ↦ rw b refl
        | inl b ↦ rw b (
            with_cell-same thr.multiplex_context_size i (serve_each files look fuel (suc i))
              (serve_each files look more (suc i)) thr d (get_elem? thr.multiplex_context i)
              (λ t e s.
                serve_each-enough fuel more (suc i) t e (omega (arith, h, s)) (omega (arith, k, s)))
              (omega arith))
      ]
