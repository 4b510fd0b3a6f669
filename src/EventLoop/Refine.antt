-- ===== src/EventLoop/Refine.antt =====
-- The queue of registered events implements the table:
-- server/src/lib/event_loop/registered_events_queue.c.
use postman.Prelude.{
  [], ◌∷◌, ◌++◌, Bool, true, false, Option, none, some, ◌≡◌, ◌≢◌, refl, sym, ap, ◌∙◌, inl, inr,
  Bool-cases, Option-cases, arith, if◌then◌else◌, find_entry, remove_entry, AtMostOne,
  AtMostOne-append, AtMostOne-remove,
}
use mathlib.Core.Path.{subst}
use postman.EventLoop.Event.{
  ℤ, is_negative, same_socket, same_socket_iff, EventType, same_type, Event,
}
use postman.EventLoop.EventsQueue.{EventsQueue, has_type, eq_pop}
use postman.EventLoop.Registered.{
  RegisteredEntry, RegisteredQueue, pr_req_get_sock, settle, pr_req_init_before_add, push_prepared,
  req_push, pop_entry, req_pop,
}
use postman.EventLoop.Lookup.{
  lookup, lookup-old, IsEntry, IsTable, same_none, same_types, lookup-new, fresh-IsEntry,
  lookup-append, types-append, types-remove, lookup-store, lookup-settle, IsTable-store,
  IsTable-append, IsTable-settle,
}
use postman.EventLoop.Table.{
  Table, put_at, marked, register, collect, Same, Pushed, Popped, eq_add-free, eq_add-taken,
  req_push-old, req_push-new,
}

branch :
    {A : Type 0} (b : Bool) (x y z : A)
    → (b ≡ true → x ≡ z)
    → (b ≡ false → y ≡ z)
    → (if b then x else y) ≡ z
branch true x y z h k = h refl
branch false x y z h k = k refl

-- The two tests of `put_at` one after the other.
put_at-lem :
    (T : Table) (s : ℤ) (t : EventType) (o : Option Event) (u : ℤ) (v : EventType)
    (here there : Option Event)
    → (same_socket s u ≡ true → here ≡ T u v)
    → there ≡ T u v
    → (if same_socket s u then (if same_type t v then o else here) else there) ≡ put_at T s t o u v
put_at-lem T s t o u v here there h k = elim (Bool-cases (same_socket s u)) [
  | inl p ↦ rw (p, h p) refl
  | inr p ↦ rw (p, k) refl
]

req_pop-old :
    (q : RegisteredQueue) (s : ℤ) (e : RegisteredEntry) (es : EventsQueue) (t : EventType)
    → is_negative s ≡ false
    → pr_req_get_sock q s ≡ some e
    → e.events ≡ some es
    → req_pop t q s ≡ pop_entry t q s (some es)
unfolding req_pop
req_pop-old q s e es t n h k = rw (n, h, k) refl

append-nonempty : (es : EventsQueue) (e : Event) → es ++ e ∷ [] ≢ []
append-nonempty [] e p = ground (arith, p)
append-nonempty (x ∷ es) e p = ground (arith, p)

module _ (q : RegisteredQueue) (T : Table) (w : IsTable q) (same : Same q T) where
  module _ (s : ℤ) (e : RegisteredEntry) (es : EventsQueue) (h : pr_req_get_sock q s ≡ some e)
      (k : e.events ≡ some es) where
    here : (u : ℤ) (v : EventType) → same_socket s u ≡ true → find_entry (has_type v) es ≡ T u v
    here u v p =
        sym (lookup-old q s e es v h k) ∙ (same s v ∙ ap (λ x. T x v) ((same_socket_iff s u).0 p))

    unchanged :
        (u : ℤ) (v : EventType)
        → (if same_socket s u then find_entry (has_type v) es else lookup q u v) ≡ T u v
    unchanged u v = branch (same_socket s u) _ _ _ (here u v) (λ _. same u v)

    -- The type is taken.
    push-taken :
        (t : EventType) (event old : Event)
        → is_negative s ≡ false
        → find_entry (has_type t) es ≡ some old
        → es ≢ []
        → ((v : EventType) → AtMostOne (has_type v) es)
        → Pushed (req_push t [] q s event) (register t T s event)
    unfolding register
    push-taken t event old n f b single =
        rw
          (
            req_push-old t q s event e es n h k,
            eq_add-taken es (marked t q s event) old f,
            n,
            sym (here s t ((same_socket_iff s s).1 refl)),
            f,
          )
          (
            refl,
            refl,
            IsTable-store q s es e w h b single,
            λ u v. lookup-store q s u v es e h ∙ unchanged u v,
          )

    push-free :
        (t : EventType) (event : Event)
        → is_negative s ≡ false
        → find_entry (has_type t) es ≡ none
        → ((v : EventType) → AtMostOne (has_type v) es)
        → Pushed (req_push t [] q s event) (register t T s event)
    unfolding register
    push-free t event n f single =
        let m : Event = marked t q s event in
        rw
          (
            req_push-old t q s event e es n h k,
            eq_add-free es m f,
            n,
            sym (here s t ((same_socket_iff s s).1 refl)),
            f,
          )
          (
            refl,
            refl,
            IsTable-store q s (es ++ m ∷ []) e w h (append-nonempty es m) (λ v.
                AtMostOne-append (has_type v) es m (λ p. sym (same_types t v es p) ∙ f) (single v)),
            λ u v.
                lookup-store q s u v (es ++ m ∷ []) e h
                ∙ (ap (λ x. if same_socket s u then x else lookup q u v) (types-append es m v f)
                    ∙ put_at-lem T s t (some m) u v _ _ (here u v) (same u v)),
          )

    pop_entry-Popped :
        (t : EventType)
        → is_negative s ≡ false
        → ((v : EventType) → AtMostOne (has_type v) es)
        → Popped (pop_entry t q s (some es)) (collect t T s)
    unfolding pop_entry collect eq_pop
    pop_entry-Popped t n single = elim (Option-cases (find_entry (has_type t) es)) [
      | inl f ↦
          rw (eq_pop, f, n, sym (here s t ((same_socket_iff s s).1 refl)), f)
            (
              settle q s es,
              refl,
              IsTable-settle q s es e w h single,
              λ u v. lookup-settle q s u v es e w h ∙ unchanged u v,
            )
      | inr (found, f) ↦
          rw (eq_pop, f, n, sym (here s t ((same_socket_iff s s).1 refl)), f)
            (
              settle q s (remove_entry (has_type t) es),
              refl,
              IsTable-settle q s (remove_entry (has_type t) es) e w h
                  (λ v. AtMostOne-remove (has_type v) (has_type t) es (single v)),
              λ u v.
                  lookup-settle q s u v (remove_entry (has_type t) es) e w h
                  ∙ (ap (λ x. if same_socket s u then x else lookup q u v)
                        (types-remove es t v (single t))
                      ∙ put_at-lem T s t none u v _ _ (here u v) (same u v)),
            )
    ]

  push-new-Pushed :
      (t : EventType) (s : ℤ) (event : Event)
      → is_negative s ≡ false
      → pr_req_get_sock q s ≡ none
      → Pushed (req_push t [] q s event) (register t T s event)
  unfolding register
  push-new-Pushed t s event n h =
      let m : Event = marked t q s event in
      let entry : RegisteredEntry = record { sock = s; events = some (m ∷ []) } in
      rw (req_push-new t q s event n h, n, sym (same s t), lookup-new q s t h)
        (
          refl,
          refl,
          IsTable-append q entry w h (fresh-IsEntry m),
          λ u v.
              lookup-append q s u m v h
              ∙ put_at-lem T s t (some m) u v none _
                  (λ p. sym (lookup-new q u v (sym (same_none s u q p) ∙ h)) ∙ same u v) (same u v),
        )

  -- `req_push`, all branches.
  pub req_push-Pushed :
      (t : EventType) (s : ℤ) (event : Event)
      → Pushed (req_push t [] q s event) (register t T s event)
  unfolding req_push pr_req_init_before_add push_prepared register
  req_push-Pushed t s event = elim (Bool-cases (is_negative s)) [
    | inl n ↦ rw n (refl, refl, w, same)
    | inr n ↦ elim (Option-cases (pr_req_get_sock q s)) [
      | inl h ↦ push-new-Pushed t s event n h
      | inr (e, h) ↦
          let entry : IsEntry e.events = w.entries s e h in
          elim (Option-cases (find_entry (has_type t) entry.events)) [
            | inl f ↦ push-free s e entry.events h entry.there t event n f entry.single
            | inr (old, f) ↦
                push-taken s e entry.events h entry.there t event old n f entry.busy entry.single
          ]
    ]
  ]

  -- `req_pop`, all branches.
  pub req_pop-Popped : (t : EventType) (s : ℤ) → Popped (req_pop t q s) (collect t T s)
  unfolding req_pop collect
  req_pop-Popped t s = elim (Bool-cases (is_negative s)) [
    | inl n ↦ rw n (q, refl, w, same)
    | inr n ↦ elim (Option-cases (pr_req_get_sock q s)) [
      | inl h ↦ rw (n, h, sym (same s t), lookup-new q s t h) (q, refl, w, same)
      | inr (e, h) ↦
          let entry : IsEntry e.events = w.entries s e h in
          subst (λ r. Popped r (collect t T s))
            (sym (req_pop-old q s e entry.events t n h entry.there))
            (pop_entry-Popped s e entry.events h entry.there t n entry.single)
    ]
  ]
