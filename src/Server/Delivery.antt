-- ===== src/Server/Delivery.antt =====
-- The recipients of a mail as `send_mail` of server/src/lib/server/server.c parts and groups them.
use mathlib.Core.Path.{subst}
use postman.Prelude.{
  ℕ, List, [], ◌∷◌, ◌++◌, Bool, true, false, not, Bool-cases, Option, none, some, bytes_eq,
  AtMostOne, find_entry, ◌≢◌, append-nil, append_assoc, ◌≡◌, refl, sym, ap, ◌∙◌, inl, inr, arith,
}
use postman.Vector.{init}
use postman.Vector.Growth.{IsValid, init-IsValid, push_back-Appended}
use postman.Smtp.State.{SmtpMailbox}
use postman.Server.Table.{has_key, table_get, pr_table_get, RecipientsTable, table_init}
use postman.Server.Group.{IsTable, group_of, bytes_eq_iff}
use postman.Server.Grouped.{is_of, is_of-named, keep, AllNamed, group_recipients-Gathered}
use postman.Server.Recipients.{
  Parted, put_self, put_foreign, put_mailbox, part_recipients, group_recipients,
}

pub record IsParted (p : Parted) : Type 0 where
  pub self_valid : IsValid p.self_recipients
  pub foreign_valid : IsValid p.foreign_recipients

abbrev pub is_foreign : List ℕ → SmtpMailbox → Bool
is_foreign self_name m = not (is_of self_name m)

-- What the loop has to make of a list.
abbrev Parts : List ℕ → Parted → List SmtpMailbox → Option Parted → Type 0
Parts self_name p ms r =
    (q : Parted) × (r ≡ some q)
    × IsParted q
    × (q.self_recipients.array ≡ p.self_recipients.array ++ keep (is_of self_name) ms)
    × (q.foreign_recipients.array ≡ p.foreign_recipients.array ++ keep (is_foreign self_name) ms)

part_recipients-cons :
    (self_name : List ℕ) (p q : Parted) (m : SmtpMailbox) (ms : List SmtpMailbox)
    → put_mailbox self_name p m m.server_name ≡ some q
    → part_recipients self_name p (m ∷ ms) ≡ part_recipients self_name q ms
unfolding part_recipients
part_recipients-cons self_name p q m ms e = rw (e, part_recipients) refl

keep-true :
    (p : SmtpMailbox → Bool) (m : SmtpMailbox) (ms : List SmtpMailbox)
    → p m ≡ true
    → keep p (m ∷ ms) ≡ m ∷ keep p ms
keep-true p m ms e = rw e refl

keep-false :
    (p : SmtpMailbox → Bool) (m : SmtpMailbox) (ms : List SmtpMailbox)
    → p m ≡ false
    → keep p (m ∷ ms) ≡ keep p ms
keep-false p m ms e = rw e refl

put_mailbox-Parts :
    (self_name : List ℕ) (p : Parted) (m : SmtpMailbox) (name : List ℕ)
    → m.server_name ≡ some name
    → IsParted p
    → Parts self_name p (m ∷ []) (put_mailbox self_name p m (some name))
unfolding put_mailbox put_self put_foreign
put_mailbox-Parts self_name p m name named w = elim (Bool-cases (bytes_eq name self_name)) [
  | inl e ↦
      let (v, pushed, q, hv) = push_back-Appended p.self_recipients m w.self_valid in
      let mine = is_of-named m name self_name named ∙ e in
      (
        record p { self_recipients = v },
        rw (e, pushed) refl,
        record { self_valid = hv; foreign_valid = w.foreign_valid },
        rw (keep-true (is_of self_name) m [] mine) q,
        rw (keep-false (is_foreign self_name) m [] (ap not mine)) (sym (append-nil _)),
      )
  | inr e ↦
      let (v, pushed, q, hv) = push_back-Appended p.foreign_recipients m w.foreign_valid in
      let other = is_of-named m name self_name named ∙ e in
      (
        record p { foreign_recipients = v },
        rw (e, pushed) refl,
        record { self_valid = w.self_valid; foreign_valid = hv },
        rw (keep-false (is_of self_name) m [] other) (sym (append-nil _)),
        rw (keep-true (is_foreign self_name) m [] (ap not other)) q,
      )
]

keep-cons :
    (p : SmtpMailbox → Bool) (m : SmtpMailbox) (ms : List SmtpMailbox)
    → keep p (m ∷ []) ++ keep p ms ≡ keep p (m ∷ ms)
keep-cons p m ms = ground arith

part_recipients-Parts :
    (self_name : List ℕ) (p : Parted) (ms : List SmtpMailbox)
    → AllNamed ms
    → IsParted p
    → Parts self_name p ms (part_recipients self_name p ms)
unfolding part_recipients
part_recipients-Parts self_name p [] named w = (p, refl, w, sym (append-nil _), sym (append-nil _))
part_recipients-Parts self_name p (m ∷ ms) ((name, e, short), named) w =
    let (q, put, hq, s, f) = put_mailbox-Parts self_name p m name e w in
    let (r, rest, hr, t, g) = part_recipients-Parts self_name q ms named hq in
    (
      r,
      part_recipients-cons self_name p q m ms (ap (put_mailbox self_name p m) e ∙ put) ∙ rest,
      hr,
      t
          ∙ ap (λ x. x ++ keep (is_of self_name) ms) s
          ∙ append_assoc p.self_recipients.array _ _
          ∙ ap (λ x. p.self_recipients.array ++ x) (keep-cons (is_of self_name) m ms),
      g
          ∙ ap (λ x. x ++ keep (is_foreign self_name) ms) f
          ∙ append_assoc p.foreign_recipients.array _ _
          ∙ ap (λ x. p.foreign_recipients.array ++ x) (keep-cons (is_foreign self_name) m ms),
    )

-- Tests one after the other.
keep-keep :
    (p q : SmtpMailbox → Bool) (ms : List SmtpMailbox)
    → ((m : SmtpMailbox) → p m ≡ true → q m ≡ true)
    → keep p (keep q ms) ≡ keep p ms
keep-keep p q [] h = refl
keep-keep p q (m ∷ ms) h = ground (arith, h m, keep-keep p q ms h)

keep_nothing :
    (p q : SmtpMailbox → Bool) (ms : List SmtpMailbox)
    → ((m : SmtpMailbox) → p m ≡ true → q m ≡ false)
    → keep p (keep q ms) ≡ []
keep_nothing p q [] h = refl
keep_nothing p q (m ∷ ms) h = ground (arith, h m, keep_nothing p q ms h)

keep-AllNamed :
    (p : SmtpMailbox → Bool) (ms : List SmtpMailbox) → AllNamed ms → AllNamed (keep p ms)
keep-AllNamed p [] h = h
keep-AllNamed p (m ∷ ms) (n, h) = elim (Bool-cases (p m)) [
  | inl e ↦ rw e (n, keep-AllNamed p ms h)
  | inr e ↦ rw e (keep-AllNamed p ms h)
]

key_injective : {a b : List ℕ} → some a ≡ some b → a ≡ b
key_injective h = cc

name_eq :
    (o : Option (List ℕ)) (key : List ℕ)
    → elim o [ none ↦ false | some name ↦ bytes_eq name key ] ≡ true
    → o ≡ some key
name_eq none key h = cc h
name_eq (some name) key h = ap some ((bytes_eq_iff name key).0 h)

is_of-eq : (m : SmtpMailbox) (key : List ℕ) → is_of key m ≡ true → m.server_name ≡ some key
is_of-eq m key h = name_eq m.server_name key h

empty_parts-IsParted : IsParted (record { self_recipients = init; foreign_recipients = init })
empty_parts-IsParted = record { self_valid = init-IsValid; foreign_valid = init-IsValid }

table_get-init : (key : List ℕ) → table_get table_init key ≡ none
unfolding table_init table_get pr_table_get find_entry
table_get-init key = refl

table_init-IsTable : IsTable table_init
unfolding table_init
table_init-IsTable = record {
  one = λ key. tt;
  valid = λ key v h. absurd (cc (sym (table_get-init key) ∙ h));
}

no_foreign_self :
    (self_name : List ℕ) (m : SmtpMailbox)
    → is_of self_name m ≡ true
    → is_foreign self_name m ≡ false
no_foreign_self self_name m e = ap not e

other_is_foreign :
    (self_name key : List ℕ)
    → key ≢ self_name
    → (m : SmtpMailbox) → is_of key m ≡ true
    → is_foreign self_name m ≡ true
other_is_foreign self_name key n m e = elim (Bool-cases (is_of self_name m)) [
  | inl s ↦ absurd (n (key_injective (sym (is_of-eq m key e) ∙ is_of-eq m self_name s)))
  | inr s ↦ ap not s
]

-- For recipients whose names of servers are not NULL and fit a key, the two loops end without a
-- fault: those of this server are its recipients in their order, the table has none of them, and
-- for any other server it has that server's recipients in their order, with one entry at most for
-- a key.
pub recipients-Gathered :
    (self_name : List ℕ) (ms : List SmtpMailbox)
    → AllNamed ms
    → (q : Parted) × (table : RecipientsTable) × (part_recipients self_name
          (record { self_recipients = init; foreign_recipients = init })
          ms
        ≡ some q)
      × (group_recipients table_init q.foreign_recipients.array ≡ some table)
      × (q.self_recipients.array ≡ keep (is_of self_name) ms)
      × (group_of table self_name ≡ [])
      × ((key : List ℕ) → key ≢ self_name → group_of table key ≡ keep (is_of key) ms)
      × ((key : List ℕ) → AtMostOne (has_key key) table)
unfolding init
recipients-Gathered self_name ms named =
    let (q, parted, w, s, f) =
      part_recipients-Parts self_name (record { self_recipients = init; foreign_recipients = init })
        ms named empty_parts-IsParted in
    let foreign_named : AllNamed q.foreign_recipients.array =
      subst AllNamed (sym f) (keep-AllNamed (is_foreign self_name) ms named) in
    let (table, grouped, g) =
      group_recipients-Gathered table_init q.foreign_recipients.array table_init-IsTable
        foreign_named in
    let groups : (key : List ℕ)
        → group_of table key ≡ keep (is_of key) (keep (is_foreign self_name) ms) =
      λ key. g.groups key ∙ rw (table_get-init key) (ap (keep (is_of key)) f) in
    (
      q,
      table,
      parted,
      grouped,
      s,
      groups self_name
          ∙ keep_nothing (is_of self_name) (is_foreign self_name) ms (no_foreign_self self_name),
      λ key n.
          groups key
          ∙ keep-keep (is_of key) (is_foreign self_name) ms (other_is_foreign self_name key n),
      g.sound.one,
    )
