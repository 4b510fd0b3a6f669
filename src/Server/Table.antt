-- ===== src/Server/Table.antt =====
-- Recipients by server: server/include/server/table.h and server/src/lib/server/table.c. Memory is
-- always there, and `none` is a fault: a key that does not fit its field, or a write beyond a vector.
use postman.Prelude.{
  ℕ, List, [], ◌∷◌, ◌++◌, length, map, Bool, Option, none, some, ltb, bytes_eq, if◌then◌else◌,
  find_entry, change_entry,
}
use postman.Vector.{Vector}
use postman.Vector
use postman.Smtp.State.{SmtpMailbox}

-- struct table_vectors_entry; the key's field has 128 bytes.
pub record TableEntry : Type 0 where
  pub array : Vector SmtpMailbox
  pub key : List ℕ

abbrev pub RecipientsTable : Type 0
RecipientsTable = List TableEntry

abbrev pub has_key : List ℕ → TableEntry → Bool
has_key key entry = bytes_eq entry.key key

unfoldable pub pr_table_get : RecipientsTable → List ℕ → Option TableEntry
pr_table_get table key = find_entry (has_key key) table

unfoldable pub table_init : RecipientsTable
table_init = []

-- strcpy of a key into the field of a new entry.
unfoldable pub new_entry : List ℕ → Option TableEntry
unfolding Vector.init
new_entry key =
    if ltb (length key) 128 then some (record { array = Vector.init; key = key }) else none

abbrev pub with_array : Vector SmtpMailbox → TableEntry → TableEntry
with_array v entry = record entry { array = v }

-- The array of the key's entry grows in its place.
unfoldable pub put_array :
    List ℕ → RecipientsTable → Option (Vector SmtpMailbox) → Option RecipientsTable
put_array key table none = none
put_array key table (some v) = some (change_entry (has_key key) (with_array v) table)

-- A new entry stands at the end of the list before the value is put into it.
unfoldable pub table_insert : RecipientsTable → List ℕ → SmtpMailbox → Option RecipientsTable
unfolding new_entry put_array Vector.push_back
table_insert table key value = elim (new_entry key) [
  | none ↦ none
  | some entry ↦ put_array key (table ++ entry ∷ []) (Vector.push_back entry.array value)
]

-- A key that is NULL is refused.
unfoldable pub table_push : RecipientsTable → Option (List ℕ) → SmtpMailbox → Option RecipientsTable
unfolding pr_table_get table_insert put_array Vector.push_back
table_push table none value = some table
table_push table (some key) value = elim (pr_table_get table key) [
  | none ↦ table_insert table key value
  | some entry ↦ put_array key table (Vector.push_back entry.array value)
]

unfoldable pub table_get : RecipientsTable → List ℕ → Option (Vector SmtpMailbox)
unfolding pr_table_get
table_get table key = elim (pr_table_get table key) [ none ↦ none | some e ↦ some e.array ]

-- The keys as they are pushed to a vector.
unfoldable pub table_keys : RecipientsTable → Vector (List ℕ) → Option (Vector (List ℕ))
unfolding Vector.push_all
table_keys table keys = Vector.push_all keys (map (λ e. e.key) table)
