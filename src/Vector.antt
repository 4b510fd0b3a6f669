-- ===== src/Vector.antt =====
-- The growing arrays of server/include/vector.h. The elements below `size` are a list, so the size
-- is its length. Allocation of their memory always succeeds here, and `none` stands for a write
-- beyond the allocated cells, which the macros do not test for.
pub mod Growth
mod Tests
use postman.Prelude.{
  ℕ, ◌+◌, ◌*◌, ◌/◌, List, [], ◌∷◌, ◌++◌, length, get_elem?, Option, none, some, ltb, ◌==◌,
  if◌then◌else◌,
}

pub record Vector {ℓ} (A : Type ℓ) : Type ℓ where
  pub array : List A
  pub allocated : ℕ

-- What VECTOR_GET reports: an error, or the cell, which is unset at index `size`.
pub data Cell {ℓ} (A : Type ℓ) : Type ℓ where
  out_of_range : Cell A
  slot : Option A → Cell A

-- `allocated * 1.5`, truncated, once one free cell is left.
unfoldable pub grown : ℕ → ℕ → ℕ
grown n cells = if (n + 1) == cells then cells * 3 / 2 else cells

module _ {ℓ} {A : Type ℓ} where
  -- VECTOR_INIT.
  unfoldable pub init : Vector A
  init = record { array = []; allocated = 5 }

  -- VECTOR_RESERVE.
  unfoldable pub reserve : ℕ → Vector A
  reserve n = record { array = []; allocated = n }

  abbrev pub size : Vector A → ℕ
  size v = length v.array

  -- VECTOR_PUSH_BACK.
  unfoldable pub push_back : Vector A → A → Option (Vector A)
  unfolding grown
  push_back v a =
      let cells = grown (size v) v.allocated in
      if ltb (size v) cells
      then some (record { array = v.array ++ a ∷ []; allocated = cells })
      else none

  -- VECTOR_GET, whose test lets the index `size` through.
  unfoldable pub get : Vector A → ℕ → Cell A
  get v i = if ltb (size v) i then out_of_range else slot (get_elem? v.array i)

  -- VECTOR_CLEAR.
  unfoldable pub clear : Vector A → Vector A
  clear v = record v { array = [] }

  -- VECTOR_PUSH_BACK in a loop over a text.
  unfoldable pub push_all : Vector A → List A → Option (Vector A)
  unfolding push_back
  push_all v [] = some v
  push_all v (a ∷ as') = elim (push_back v a) [ none ↦ none | some w ↦ push_all w as' ]
