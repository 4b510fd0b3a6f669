-- ===== src/Server/Grouped.antt =====
-- What the recipients' table and the loops of `send_mail` over it make of a list of recipients:
-- server/src/lib/server/table.c and server/src/lib/server/server.c.
use mathlib.Core.Path.{subst}
use postman.Prelude.{
  ℕ, ◌<◌, List, [], ◌∷◌, ◌++◌, length, Bool, false, Bool-cases, Option, none, some, bytes_eq,
  if◌then◌else◌, find_entry, change_entry, append-nil, append_assoc, ◌≡◌, refl, sym, ap, ◌∙◌, inl,
  inr, Option-cases, arith,
}
use postman.Vector.{Vector, push_back, init}
use postman.Vector.Growth.{init-IsValid, push_back-Appended}
use postman.Smtp.State.{SmtpMailbox}
use postman.Server.Table.{
  TableEntry, RecipientsTable, has_key, with_array, pr_table_get, new_entry, put_array,
  table_insert, table_push,
}
use postman.Server.Group.{
  IsTable, Grown, group_of, bytes_eq_iff, put_array-Grown, new_entry-Grown, get_found, contents,
}
use postman.Server.Recipients.{group_recipients}

-- A push that succeeds.
abbrev pub Pushes : RecipientsTable → List ℕ → SmtpMailbox → Option RecipientsTable → Type 0
Pushes table key value r = (next : RecipientsTable) × (r ≡ some next) × Grown table key value next

fresh : List ℕ → TableEntry
fresh key = record { array = init; key = key }

new_entry-short : (key : List ℕ) → length key < 128 → new_entry key ≡ some (fresh key)
unfolding new_entry fresh
new_entry-short key short = ground arith

table_insert-eq :
    (table : RecipientsTable) (key : List ℕ) (value : SmtpMailbox) (entry : TableEntry)
    (v : Vector SmtpMailbox)
    → new_entry key ≡ some entry
    → push_back entry.array value ≡ some v
    → table_insert table key value
      ≡ some (change_entry (has_key key) (with_array v) (table ++ entry ∷ []))
unfolding table_insert put_array
table_insert-eq table key value entry v h e = rw (h, table_insert, e) refl

table_insert-Pushes :
    (table : RecipientsTable) (key : List ℕ) (value : SmtpMailbox)
    → length key < 128
    → IsTable table
    → find_entry (has_key key) table ≡ none
    → Pushes table key value (table_insert table key value)
unfolding fresh init
table_insert-Pushes table key value short w absent =
    let entry : TableEntry = fresh key in
    let (v, e, p, hv) = push_back-Appended entry.array value init-IsValid in
    (
      _,
      table_insert-eq table key value entry v (new_entry-short key short) e,
      new_entry-Grown table entry w init-IsValid absent value v refl p hv,
    )

table_push-Pushes :
    (table : RecipientsTable) (key : List ℕ) (value : SmtpMailbox)
    → length key < 128
    → IsTable table
    → Pushes table key value (table_push table (some key) value)
unfolding table_push pr_table_get put_array
table_push-Pushes table key value short w = elim (Option-cases (find_entry (has_key key) table)) [
  | inl absent ↦
      let (next, e, g) = table_insert-Pushes table key value short w absent in
      (next, rw (absent, table_push) e, g)
  | inr (entry, found) ↦
      let (v, e, p, hv) =
        push_back-Appended entry.array value
          (w.valid key entry.array (get_found table key entry found)) in
      (_, rw (found, table_push, e) refl, put_array-Grown table key entry value v found w p hv)
]

-- Whether a mailbox is one of a server.
abbrev pub is_of : List ℕ → SmtpMailbox → Bool
is_of key m = elim m.server_name [ none ↦ false | some name ↦ bytes_eq name key ]

abbrev pub keep : (SmtpMailbox → Bool) → List SmtpMailbox → List SmtpMailbox
keep p [] = []
keep p (m ∷ ms) = let rest = keep p ms in if p m then m ∷ rest else rest

-- Every mailbox has a server whose name has less than 128 bytes.
abbrev pub AllNamed : List SmtpMailbox → Type 0
AllNamed [] = Unit {0}
AllNamed (m ∷ ms) =
    ((name : List ℕ) × (m.server_name ≡ some name) × (length name < 128)) × AllNamed ms

-- A table to which the mailboxes of a list were added, each under its server.
pub record Gathered (table : RecipientsTable) (ms : List SmtpMailbox) (next : RecipientsTable)
    : Type 0 where
  pub sound : IsTable next
  pub groups : (key : List ℕ) → group_of next key ≡ group_of table key ++ keep (is_of key) ms

pub is_of-named :
    (m : SmtpMailbox) (name key : List ℕ)
    → m.server_name ≡ some name
    → is_of key m ≡ bytes_eq name key
is_of-named m name key h = rw h refl

Grown-group :
    (table next : RecipientsTable) (name : List ℕ) (m : SmtpMailbox) (ms : List SmtpMailbox)
    → m.server_name ≡ some name
    → Grown table name m next
    → (key : List ℕ)
    → group_of next key ++ keep (is_of key) ms ≡ group_of table key ++ keep (is_of key) (m ∷ ms)
Grown-group table next name m ms named g key = elim (Bool-cases (bytes_eq name key)) [
  | inl e ↦ rw (is_of-named m name key named ∙ e) (
      ap (λ x. x ++ keep (is_of key) ms)
        (subst (λ x. group_of next x ≡ group_of table x ++ m ∷ []) ((bytes_eq_iff name key).0 e)
          g.same)
      ∙ append_assoc (group_of table key) (m ∷ []) (keep (is_of key) ms))
  | inr e ↦
      rw (is_of-named m name key named ∙ e)
        (ap (λ x. contents x ++ keep (is_of key) ms) (g.other key e))
]

group_recipients-cons :
    (table next : RecipientsTable) (m : SmtpMailbox) (ms : List SmtpMailbox)
    → table_push table m.server_name m ≡ some next
    → group_recipients table (m ∷ ms) ≡ group_recipients next ms
unfolding group_recipients
group_recipients-cons table next m ms e = rw (e, group_recipients) refl

pub group_recipients-Gathered :
    (table : RecipientsTable) (ms : List SmtpMailbox)
    → IsTable table
    → AllNamed ms
    → (next : RecipientsTable) × (group_recipients table ms ≡ some next) × Gathered table ms next
unfolding group_recipients
group_recipients-Gathered table [] w named =
    (table, refl, record { sound = w; groups = λ key. sym (append-nil (group_of table key)) })
group_recipients-Gathered table (m ∷ ms) w ((name, e, short), named) =
    let (next, pushed, g) = table_push-Pushes table name m short w in
    let (last, rest, h) = group_recipients-Gathered next ms g.sound named in
    (
      last,
      group_recipients-cons table next m ms (ap (λ x. table_push table x m) e ∙ pushed) ∙ rest,
      record {
        sound = h.sound;
        groups = λ key. h.groups key ∙ Grown-group table next name m ms e g key;
      },
    )
