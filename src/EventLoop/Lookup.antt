-- ===== src/EventLoop/Lookup.antt =====
-- The registered events as a table by socket and type: what `req_push` and `req_pop` of
-- server/src/lib/event_loop/registered_events_queue.c do to it.
use postman.Prelude.{
  [], ◌∷◌, ◌++◌, Bool, true, false, Option, none, some, ◌≡◌, ◌≢◌, refl, sym, ap, ◌∙◌, inl, inr,
  Bool-cases, arith, if◌then◌else◌, find_entry, remove_entry, AtMostOne, Apart, find_entry-append,
  find_entry-holds, find_entry-remove_same, find_entry-remove_other, find_entry-change_same,
  find_entry-change_other, AtMostOne-append, AtMostOne-remove, AtMostOne-change,
}
use mathlib.Core.Path.{subst}
use postman.EventLoop.Event.{
  ℤ, same_socket, same_socket_iff, EventType, same_type, same_type_iff, Event,
}
use postman.EventLoop.EventsQueue.{EventsQueue, has_type}
use postman.EventLoop.Registered.{
  RegisteredEntry, RegisteredQueue, has_sock, pr_req_get_sock, store_events, settle,
}

-- The event of a type at an entry.
abbrev pub entry_event : Option RegisteredEntry → EventType → Option Event
entry_event none t = none
entry_event (some e) t = elim e.events [ none ↦ none | some es ↦ find_entry (has_type t) es ]

abbrev pub lookup : RegisteredQueue → ℤ → EventType → Option Event
lookup q s t = entry_event (pr_req_get_sock q s) t

-- The events of an entry are no NULL, not without an event, and at most one of a type.
pub record IsEntry (o : Option EventsQueue) : Type 0 where
  pub events : EventsQueue
  pub there : o ≡ some events
  pub busy : events ≢ []
  pub single : (t : EventType) → AtMostOne (has_type t) events

pub record IsTable (q : RegisteredQueue) : Type 0 where
  pub single : (s : ℤ) → AtMostOne (has_sock s) q
  pub entries : (s : ℤ) (e : RegisteredEntry) → pr_req_get_sock q s ≡ some e → IsEntry e.events

same_trans :
    (s t u : ℤ) → same_socket s t ≡ true → same_socket t u ≡ false → same_socket s u ≡ false
same_trans s t u h k = subst (λ v. same_socket v u ≡ false) (sym ((same_socket_iff s t).0 h)) k

pub has_sock-Apart : (s u : ℤ) → same_socket s u ≡ false → Apart (has_sock s) (has_sock u)
has_sock-Apart s u h e k = same_trans e.sock s u k h

pub has_type-Apart : (t u : EventType) → same_type t u ≡ false → Apart (has_type t) (has_type u)
has_type-Apart t u h e k = subst (λ v. same_type v u ≡ false) (sym ((same_type_iff e.type t).0 k)) h

pub same_none :
    (s u : ℤ) (q : RegisteredQueue)
    → same_socket s u ≡ true
    → pr_req_get_sock q s ≡ pr_req_get_sock q u
same_none s u q h = ap (pr_req_get_sock q) ((same_socket_iff s u).0 h)

pub lookup-old :
    (q : RegisteredQueue) (s : ℤ) (e : RegisteredEntry) (es : EventsQueue) (v : EventType)
    → pr_req_get_sock q s ≡ some e
    → e.events ≡ some es
    → lookup q s v ≡ find_entry (has_type v) es
lookup-old q s e es v h k = rw (h, k) refl

pub lookup-new :
    (q : RegisteredQueue) (s : ℤ) (v : EventType) → pr_req_get_sock q s ≡ none → lookup q s v ≡ none
lookup-new q s v h = rw h refl

pub fresh-IsEntry : (e : Event) → IsEntry (some (e ∷ []))
unfolding find_entry
fresh-IsEntry e = record {
  events = e ∷ [];
  there = refl;
  busy = λ p. ground (arith, p);
  single = λ t. (λ _. refl, tt);
}

-- The entry of a socket, once events are stored at the entry of another or the same.
pub get-store :
    (q : RegisteredQueue) (s u : ℤ) (o : Option EventsQueue) (e : RegisteredEntry)
    → pr_req_get_sock q s ≡ some e
    → pr_req_get_sock (store_events q s o) u
      ≡ (if same_socket s u then some (record e { events = o }) else pr_req_get_sock q u)
unfolding pr_req_get_sock
get-store q s u o e h = elim (Bool-cases (same_socket s u)) [
  | inl k ↦
      rw (k, sym ((same_socket_iff s u).0 k))
        (find_entry-change_same (has_sock s) (λ x. record x { events = o }) q e
          (find_entry-holds (has_sock s) q e h) h)
  | inr k ↦ rw k (
      find_entry-change_other (has_sock s) (has_sock u) (λ x. record x { events = o }) q
        (has_sock-Apart s u k) (λ x. has_sock-Apart s u k x))
]

pub get-remove :
    (q : RegisteredQueue) (s u : ℤ)
    → AtMostOne (has_sock s) q
    → pr_req_get_sock (remove_entry (has_sock s) q) u
      ≡ (if same_socket s u then none else pr_req_get_sock q u)
unfolding pr_req_get_sock
get-remove q s u h = elim (Bool-cases (same_socket s u)) [
  | inl k ↦ rw (k, sym ((same_socket_iff s u).0 k)) (find_entry-remove_same (has_sock s) q h)
  | inr k ↦ rw k (find_entry-remove_other (has_sock s) (has_sock u) q (has_sock-Apart s u k))
]

pub get-append :
    (q : RegisteredQueue) (e : RegisteredEntry) (u : ℤ)
    → pr_req_get_sock q e.sock ≡ none
    → pr_req_get_sock (q ++ e ∷ []) u
      ≡ (if same_socket e.sock u then some e else pr_req_get_sock q u)
unfolding pr_req_get_sock find_entry
get-append q e u h =
    rw (find_entry-append (has_sock u) q (e ∷ [])) (ground (arith, same_none e.sock u q))

pub lookup-append :
    (q : RegisteredQueue) (s u : ℤ) (m : Event) (v : EventType)
    → pr_req_get_sock q s ≡ none
    → lookup (q ++ (record { sock = s; events = some (m ∷ []) }) ∷ []) u v
      ≡ (if same_socket s u then (if same_type m.type v then some m else none) else lookup q u v)
unfolding find_entry
lookup-append q s u m v h =
    rw (get-append q (record { sock = s; events = some (m ∷ []) }) u h) (ground arith)

pub same_types :
    (t u : EventType) (es : EventsQueue)
    → same_type t u ≡ true
    → find_entry (has_type t) es ≡ find_entry (has_type u) es
same_types t u es h = ap (λ v. find_entry (has_type v) es) ((same_type_iff t u).0 h)

pub types-append :
    (es : EventsQueue) (e : Event) (v : EventType)
    → find_entry (has_type e.type) es ≡ none
    → find_entry (has_type v) (es ++ e ∷ [])
      ≡ (if same_type e.type v then some e else find_entry (has_type v) es)
unfolding find_entry
types-append es e v h =
    rw (find_entry-append (has_type v) es (e ∷ [])) (ground (arith, same_types e.type v es))

pub types-remove :
    (es : EventsQueue) (t v : EventType)
    → AtMostOne (has_type t) es
    → find_entry (has_type v) (remove_entry (has_type t) es)
      ≡ (if same_type t v then none else find_entry (has_type v) es)
types-remove es t v h = elim (Bool-cases (same_type t v)) [
  | inl k ↦ rw (k, sym ((same_type_iff t v).0 k)) (find_entry-remove_same (has_type t) es h)
  | inr k ↦ rw k (find_entry-remove_other (has_type t) (has_type v) es (has_type-Apart t v k))
]

pub lookup-store :
    (q : RegisteredQueue) (s u : ℤ) (v : EventType) (es : EventsQueue) (e : RegisteredEntry)
    → pr_req_get_sock q s ≡ some e
    → lookup (store_events q s (some es)) u v
      ≡ (if same_socket s u then find_entry (has_type v) es else lookup q u v)
lookup-store q s u v es e h = rw (get-store q s u (some es) e h) (ground arith)

pub lookup-settle :
    (q : RegisteredQueue) (s u : ℤ) (v : EventType) (es : EventsQueue) (e : RegisteredEntry)
    → IsTable q
    → pr_req_get_sock q s ≡ some e
    → lookup (settle q s es) u v
      ≡ (if same_socket s u then find_entry (has_type v) es else lookup q u v)
unfolding settle find_entry
lookup-settle q s u v [] e w h = rw (get-remove q s u (w.single s)) (ground arith)
lookup-settle q s u v (x ∷ es) e w h = lookup-store q s u v (x ∷ es) e h

abbrev events_of : Option RegisteredEntry → Option EventsQueue
events_of none = none
events_of (some e) = e.events

-- The entry found is the first or one of the second, by the test.
either-IsEntry :
    (b : Bool) (e f : RegisteredEntry) (o : Option RegisteredEntry)
    → (if b then some e else o) ≡ some f
    → IsEntry e.events
    → (o ≡ some f → IsEntry f.events)
    → IsEntry f.events
either-IsEntry true e f o p h k = subst IsEntry (ap events_of p) h
either-IsEntry false e f o p h k = k p

pub IsTable-store :
    (q : RegisteredQueue) (s : ℤ) (es : EventsQueue) (e : RegisteredEntry)
    → IsTable q
    → pr_req_get_sock q s ≡ some e
    → es ≢ []
    → ((t : EventType) → AtMostOne (has_type t) es)
    → IsTable (store_events q s (some es))
IsTable-store q s es e w h b k = record {
  single = λ u. AtMostOne-change (has_sock u) (has_sock s) _ q (λ x. refl) (w.single u);
  entries = λ u f p.
      either-IsEntry (same_socket s u) (record e { events = some es }) f (pr_req_get_sock q u)
        (sym (get-store q s u (some es) e h) ∙ p)
        (record { events = es; there = refl; busy = b; single = k }) (w.entries u f);
}

pub IsTable-append :
    (q : RegisteredQueue) (e : RegisteredEntry)
    → IsTable q
    → pr_req_get_sock q e.sock ≡ none
    → IsEntry e.events
    → IsTable (q ++ e ∷ [])
unfolding pr_req_get_sock
IsTable-append q e w h k = record {
  single =
      λ u. AtMostOne-append (has_sock u) q e (λ p. sym (same_none e.sock u q p) ∙ h) (w.single u);
  entries = λ u f p.
      either-IsEntry (same_socket e.sock u) e f (pr_req_get_sock q u) (sym (get-append q e u h) ∙ p)
        k (w.entries u f);
}

absent :
    (b : Bool) (f : RegisteredEntry) (o : Option RegisteredEntry)
    → (if b then none else o) ≡ some f
    → (o ≡ some f → IsEntry f.events)
    → IsEntry f.events
absent true f o p k = absurd (ground (arith, p))
absent false f o p k = k p

pub IsTable-settle :
    (q : RegisteredQueue) (s : ℤ) (es : EventsQueue) (e : RegisteredEntry)
    → IsTable q
    → pr_req_get_sock q s ≡ some e
    → ((t : EventType) → AtMostOne (has_type t) es)
    → IsTable (settle q s es)
unfolding settle
IsTable-settle q s [] e w h k = record {
  single = λ u. AtMostOne-remove (has_sock u) (has_sock s) q (w.single u);
  entries = λ u f p.
      absent (same_socket s u) f (pr_req_get_sock q u) (sym (get-remove q s u (w.single s)) ∙ p)
        (w.entries u f);
}
IsTable-settle q s (x ∷ es) e w h k = IsTable-store q s (x ∷ es) e w h (λ p. ground (arith, p)) k

pub empty-IsTable : IsTable []
unfolding pr_req_get_sock find_entry
empty-IsTable = record { single = λ s. tt; entries = λ s e p. absurd (ground (arith, p)) }
