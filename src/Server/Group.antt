-- ===== src/Server/Group.antt =====
-- The grouping of recipients by their server: server/src/lib/server/table.c as a map from names of
-- servers to lists of recipients.
use postman.Prelude.{
  ℕ, List, [], ◌∷◌, ◌++◌, true, false, Bool-cases, Option, none, some, ==_iff, bytes_eq, find_entry,
  change_entry, find_entry-append, find_entry-holds, find_entry-change_same,
  find_entry-change_other, AtMostOne, AtMostOne-append, AtMostOne-change, Apart, or_else, ◌≡◌, refl,
  sym, ap, ◌∙◌, ◌↔◌, inl, inr, arith,
}
use mathlib.Core.Path.{subst}
use postman.Vector.{Vector}
use postman.Vector.Growth.{IsValid}
use postman.Smtp.State.{SmtpMailbox}
use postman.Server.Table.{TableEntry, RecipientsTable, has_key, pr_table_get, with_array, table_get}

pub bytes_eq_iff : (xs ys : List ℕ) → (bytes_eq xs ys ≡ true) ↔ (xs ≡ ys)
bytes_eq_iff [] [] = (λ _. refl, λ _. refl)
bytes_eq_iff [] (y ∷ ys) = ground arith
bytes_eq_iff (x ∷ xs) [] = ground arith
bytes_eq_iff (x ∷ xs) (y ∷ ys) = ground (arith, ==_iff x y, bytes_eq_iff xs ys)

pub bytes_eq_refl : (xs : List ℕ) → bytes_eq xs xs ≡ true
bytes_eq_refl xs = (bytes_eq_iff xs xs).1 refl

has_key-Apart : (k l : List ℕ) → bytes_eq k l ≡ false → Apart (has_key k) (has_key l)
has_key-Apart k l h e p = ap (λ x. bytes_eq x l) ((bytes_eq_iff e.key k).0 p) ∙ h

-- The recipients under a key.
abbrev pub contents : Option (Vector SmtpMailbox) → List SmtpMailbox
contents none = []
contents (some v) = v.array

abbrev pub group_of : RecipientsTable → List ℕ → List SmtpMailbox
group_of table key = contents (table_get table key)

-- One entry for a key, and arrays that can grow.
pub record IsTable (table : RecipientsTable) : Type 0 where
  pub one : (key : List ℕ) → AtMostOne (has_key key) table
  pub valid : (key : List ℕ) (v : Vector SmtpMailbox) → table_get table key ≡ some v → IsValid v

-- What a successful push of a value makes of a table.
pub record Grown (table : RecipientsTable) (key : List ℕ) (value : SmtpMailbox)
    (next : RecipientsTable) : Type 0 where
  pub sound : IsTable next
  pub there : (v : Vector SmtpMailbox) × (table_get next key ≡ some v)
  pub same : group_of next key ≡ group_of table key ++ value ∷ []
  pub other : (k : List ℕ) → bytes_eq key k ≡ false → table_get next k ≡ table_get table k

array_of : Option TableEntry → Option (Vector SmtpMailbox)
array_of none = none
array_of (some e) = some e.array

some_injective : {v w : Vector SmtpMailbox} → some v ≡ some w → v ≡ w
some_injective h = cc

or_else-none : (o : Option TableEntry) → or_else o none ≡ o
or_else-none none = refl
or_else-none (some e) = refl

get_of :
    (t : RecipientsTable) (k : List ℕ) (o : Option TableEntry)
    → find_entry (has_key k) t ≡ o
    → table_get t k ≡ array_of o
unfolding table_get pr_table_get array_of
get_of t k none h = rw (h, table_get) refl
get_of t k (some e) h = rw (h, table_get) refl

get_same :
    (t u : RecipientsTable) (k : List ℕ)
    → find_entry (has_key k) t ≡ find_entry (has_key k) u
    → table_get t k ≡ table_get u k
get_same t u k h = get_of t k _ h ∙ sym (get_of u k _ refl)

pub get_found :
    (t : RecipientsTable) (k : List ℕ) (e : TableEntry)
    → find_entry (has_key k) t ≡ some e
    → table_get t k ≡ some e.array
unfolding array_of
get_found t k e h = get_of t k _ h

group_of-some :
    (t : RecipientsTable) (k : List ℕ) (v : Vector SmtpMailbox)
    → table_get t k ≡ some v
    → group_of t k ≡ v.array
group_of-some t k v h = ap contents h

-- The recipients under the key of an entry whose array is written over.
pub put_array-Grown :
    (table : RecipientsTable) (key : List ℕ) (e : TableEntry) (value : SmtpMailbox)
    (v : Vector SmtpMailbox)
    → find_entry (has_key key) table ≡ some e
    → IsTable table
    → v.array ≡ e.array.array ++ value ∷ []
    → IsValid v
    → Grown table key value (change_entry (has_key key) (with_array v) table)
unfolding array_of
put_array-Grown table key e value v h w p q =
    let next : RecipientsTable = change_entry (has_key key) (with_array v) table in
    let got : table_get next key ≡ some v = get_of next key _ (
      find_entry-change_same (has_key key) (with_array v) table e
        (find_entry-holds (has_key key) table e h) h) in
    let other : (k : List ℕ) → bytes_eq key k ≡ false → table_get next k ≡ table_get table k =
      λ k d. get_same next table k (
        find_entry-change_other (has_key key) (has_key k) (with_array v) table
          (has_key-Apart key k d) (λ x c. has_key-Apart key k d x c)) in
    record {
      sound = record {
        one = λ k.
            AtMostOne-change (has_key k) (has_key key) (with_array v) table (λ _. refl) (w.one k);
        valid = λ k u g. elim (Bool-cases (bytes_eq key k)) [
          | inl c ↦
              subst (λ x. IsValid x)
                (some_injective (sym got ∙ ap (table_get next) ((bytes_eq_iff key k).0 c) ∙ g)) q
          | inr c ↦ w.valid k u (sym (other k c) ∙ g)
        ];
      };
      there = (v, got);
      same =
          group_of-some next key v got
          ∙ p
          ∙ ap (λ x. x ++ value ∷ [])
              (sym (group_of-some table key e.array (get_of table key _ h)));
      other = other;
    }

-- An entry for a key that has none.
module _ (table : RecipientsTable) (entry : TableEntry) (w : IsTable table)
    (v : IsValid entry.array) (absent : find_entry (has_key entry.key) table ≡ none) where
  find_new : find_entry (has_key entry.key) (table ++ entry ∷ []) ≡ some entry
  unfolding find_entry
  find_new =
      find_entry-append (has_key entry.key) table (entry ∷ [])
      ∙ rw (absent, bytes_eq_refl entry.key) refl

  find_old :
      (k : List ℕ)
      → bytes_eq entry.key k ≡ false
      → find_entry (has_key k) (table ++ entry ∷ []) ≡ find_entry (has_key k) table
  unfolding find_entry
  find_old k d = find_entry-append (has_key k) table (entry ∷ []) ∙ rw d (or_else-none _)

  new_entry-IsTable : IsTable (table ++ entry ∷ [])
  unfolding array_of
  new_entry-IsTable = record {
    one = λ k.
        AtMostOne-append (has_key k) table entry
          (λ e.
            subst (λ x. find_entry (has_key x) table ≡ none) ((bytes_eq_iff entry.key k).0 e)
              absent)
          (w.one k);
    valid = λ k u g. elim (Bool-cases (bytes_eq entry.key k)) [
      | inl c ↦
          subst (λ x. IsValid x)
            (some_injective (
              sym (get_of (table ++ entry ∷ []) entry.key _ find_new)
              ∙ ap (table_get (table ++ entry ∷ [])) ((bytes_eq_iff entry.key k).0 c)
              ∙ g))
            v
      | inr c ↦ w.valid k u (sym (get_same (table ++ entry ∷ []) table k (find_old k c)) ∙ g)
    ];
  }

  -- The first value under a new key.
  pub new_entry-Grown :
      (value : SmtpMailbox) (u : Vector SmtpMailbox)
      → entry.array.array ≡ []
      → u.array ≡ entry.array.array ++ value ∷ []
      → IsValid u
      → Grown table entry.key value
          (change_entry (has_key entry.key) (with_array u) (table ++ entry ∷ []))
  unfolding array_of
  new_entry-Grown value u e p q =
      let g =
        put_array-Grown (table ++ entry ∷ []) entry.key entry value u find_new new_entry-IsTable p
          q in
      record {
        sound = g.sound;
        there = g.there;
        same =
            g.same
            ∙ ap (λ x. x ++ value ∷ [])
                (group_of-some _ entry.key entry.array (get_of _ entry.key _ find_new)
                  ∙ e
                  ∙ sym (ap contents (get_of table entry.key none absent)));
        other = λ k d. g.other k d ∙ get_same _ table k (find_old k d);
      }
