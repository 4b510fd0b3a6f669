-- ===== src/Vector/Growth.antt =====
-- The growth of the arrays of server/include/vector.h: where an append stays in the allocated cells.
use postman.Prelude.{
  ℕ, ◌+◌, ◌≤◌, ◌<◌, List, [], ◌∷◌, ◌++◌, length-append, append-nil, append_assoc, Option, none,
  some, ◌≡◌, refl, sym, ◌∙◌, arith,
}
use postman.Vector.{Vector, init, reserve, grown, size, push_back, push_all, clear}

-- A vector that an append cannot overrun.
pub record IsValid {ℓ} {A : Type ℓ} (v : Vector A) : Type 0 where
  pub room : size v < v.allocated
  pub grows : 2 ≤ v.allocated

grown_room : (n cells : ℕ) → n < cells → 2 ≤ cells → (n + 1 < grown n cells) × (2 ≤ grown n cells)
unfolding grown
grown_room n cells h k = ground arith

module _ {ℓ} {A : Type ℓ} where
  pub init-IsValid : IsValid (init {A = A})
  unfolding init
  init-IsValid = record { room = omega arith; grows = omega arith }

  pub clear-IsValid : (v : Vector A) → IsValid v → IsValid (clear v)
  unfolding clear
  clear-IsValid v h = record { room = omega arith; grows = omega arith }

  -- The outcome of a run of appends that stays in bounds.
  abbrev pub Appended : Vector A → List A → Option (Vector A) → Type ℓ
  Appended v xs r = (w : Vector A) × (r ≡ some w) × (w.array ≡ v.array ++ xs) × IsValid w

  pub push_back-Appended : (v : Vector A) (a : A) → IsValid v → Appended v (a ∷ []) (push_back v a)
  unfolding push_back
  push_back-Appended v a h = (
    record { array = v.array ++ a ∷ []; allocated = grown (size v) v.allocated },
    ground (arith, grown_room (size v) v.allocated),
    refl,
    record {
      room =
          omega
            (arith, length-append v.array (a ∷ []), grown_room (size v) v.allocated h.room h.grows);
      grows = omega (arith, grown_room (size v) v.allocated h.room h.grows);
    },
  )

  -- Appends to a valid vector never leave its cells, at any number of elements: they yield the
  -- vector with the elements behind the old ones, and it is valid again.
  pub push_all-Appended : (v : Vector A) (xs : List A) → IsValid v → Appended v xs (push_all v xs)
  unfolding push_all
  push_all-Appended v [] h = (v, refl, sym (append-nil v.array), h)
  push_all-Appended v (x ∷ xs) h =
      let (w, e, p, hw) = push_back-Appended v x h in
      let (u, f, q, hu) = push_all-Appended w xs hw in
      (u, rw (e, push_all) f, q ∙ rw p (append_assoc v.array (x ∷ []) xs), hu)

  -- The test for growth asks for one free cell, so a vector whose cells are all taken is never
  -- enlarged: the next append writes beyond them.
  pub push_back-full : (v : Vector A) (a : A) → size v ≡ v.allocated → push_back v a ≡ none
  unfolding push_back
  push_back-full v a h = ground arith

  -- After VECTOR_RESERVE of a single cell, two appends run over.
  pub push_all-reserve_one : (a b : A) → push_all (reserve 1) (a ∷ b ∷ []) ≡ none
  unfolding push_all reserve
  push_all-reserve_one a b = refl
