-- ===== src/Prelude/Entries.antt =====
-- Searches in a linked list: the loops over TAILQ_FOREACH that stop at the first entry that passes
-- a test, and what is then done with that entry.
use mathlib.Core.Path.{◌≡◌, refl}
use mathlib.Core.Bool.{Bool, true, false}
use mathlib.Core.List.{List, [], ◌∷◌, ◌++◌}
use mathlib.Core.Option.{Option, none, some}
use native.Mathlib.Omega.{arith}
use mathlib.Core.Logic.{inl, inr}
use postman.Prelude.Tests.{if◌then◌else◌, Bool-cases}

module _ {A : Type 0} where
  unfoldable pub find_entry : (A → Bool) → List A → Option A
  find_entry p [] = none
  find_entry p (x ∷ xs) = let rest = find_entry p xs in if p x then some x else rest

  unfoldable pub remove_entry : (A → Bool) → List A → List A
  remove_entry p [] = []
  remove_entry p (x ∷ xs) = let rest = remove_entry p xs in if p x then xs else x ∷ rest

  unfoldable pub change_entry : (A → Bool) → (A → A) → List A → List A
  change_entry p f [] = []
  change_entry p f (x ∷ xs) = let rest = change_entry p f xs in if p x then f x ∷ xs else x ∷ rest

  abbrev pub or_else : Option A → Option A → Option A
  or_else none o = o
  or_else (some a) o = some a

  -- No entry passes a test after one that does.
  abbrev pub AtMostOne : (A → Bool) → List A → Type 0
  AtMostOne p [] = Unit {0}
  AtMostOne p (x ∷ xs) = (p x ≡ true → find_entry p xs ≡ none) × AtMostOne p xs

  -- No entry passes both tests.
  abbrev pub Apart : (A → Bool) → (A → Bool) → Type 0
  Apart p q = (x : A) → p x ≡ true → q x ≡ false

  pub find_entry-append :
      (p : A → Bool) (xs ys : List A)
      → find_entry p (xs ++ ys) ≡ or_else (find_entry p xs) (find_entry p ys)
  unfolding find_entry
  find_entry-append p [] ys = refl
  find_entry-append p (x ∷ xs) ys = ground (arith, find_entry-append p xs ys)

  pub find_entry-holds :
      (p : A → Bool) (xs : List A) (a : A) → find_entry p xs ≡ some a → p a ≡ true
  unfolding find_entry
  find_entry-holds p [] a h = ground arith
  find_entry-holds p (x ∷ xs) a h = ground (arith, find_entry-holds p xs a)

  pub find_entry-remove_same :
      (p : A → Bool) (xs : List A) → AtMostOne p xs → find_entry p (remove_entry p xs) ≡ none
  unfolding find_entry remove_entry
  find_entry-remove_same p [] h = refl
  find_entry-remove_same p (x ∷ xs) (u, h) = ground (arith, u, find_entry-remove_same p xs h)

  pub find_entry-remove_other :
      (p q : A → Bool) (xs : List A)
      → Apart p q
      → find_entry q (remove_entry p xs) ≡ find_entry q xs
  unfolding find_entry remove_entry
  find_entry-remove_other p q [] h = refl
  find_entry-remove_other p q (x ∷ xs) h = ground (arith, h x, find_entry-remove_other p q xs h)

  pub find_entry-change_same :
      (p : A → Bool) (f : A → A) (xs : List A) (a : A)
      → p (f a) ≡ true
      → find_entry p xs ≡ some a
      → find_entry p (change_entry p f xs) ≡ some (f a)
  unfolding find_entry change_entry
  find_entry-change_same p f [] a k h = ground arith
  find_entry-change_same p f (x ∷ xs) a k h = ground (arith, find_entry-change_same p f xs a k)

  pub find_entry-change_other :
      (p q : A → Bool) (f : A → A) (xs : List A)
      → Apart p q
      → ((x : A) → p x ≡ true → q (f x) ≡ false)
      → find_entry q (change_entry p f xs) ≡ find_entry q xs
  unfolding find_entry change_entry
  find_entry-change_other p q f [] h k = refl
  find_entry-change_other p q f (x ∷ xs) h k =
      ground (arith, h x, k x, find_entry-change_other p q f xs h k)

  pub find_entry-remove_none :
      (p q : A → Bool) (xs : List A)
      → find_entry p xs ≡ none
      → find_entry p (remove_entry q xs) ≡ none
  unfolding find_entry remove_entry
  find_entry-remove_none p q [] h = refl
  find_entry-remove_none p q (x ∷ xs) h = ground (arith, find_entry-remove_none p q xs)

  pub find_entry-change_none :
      (p q : A → Bool) (f : A → A) (xs : List A)
      → ((x : A) → p (f x) ≡ p x)
      → find_entry p xs ≡ none
      → find_entry p (change_entry q f xs) ≡ none
  unfolding find_entry change_entry
  find_entry-change_none p q f [] k h = refl
  find_entry-change_none p q f (x ∷ xs) k h = ground (arith, k x, find_entry-change_none p q f xs k)

  pub AtMostOne-append :
      (p : A → Bool) (xs : List A) (a : A)
      → (p a ≡ true → find_entry p xs ≡ none)
      → AtMostOne p xs
      → AtMostOne p (xs ++ a ∷ [])
  unfolding find_entry
  AtMostOne-append p [] a k h = (λ _. refl, tt)
  AtMostOne-append p (x ∷ xs) a k (u, h) = (
    λ e. ground (arith, e, k, u e, find_entry-append p xs (a ∷ [])),
    AtMostOne-append p xs a (λ e. ground (arith, k e)) h,
  )

  pub AtMostOne-remove :
      (p q : A → Bool) (xs : List A) → AtMostOne p xs → AtMostOne p (remove_entry q xs)
  unfolding remove_entry
  AtMostOne-remove p q [] h = h
  AtMostOne-remove p q (x ∷ xs) (u, h) = elim (Bool-cases (q x)) [
    | inl e ↦ rw e h
    | inr e ↦ rw e (λ k. find_entry-remove_none p q xs (u k), AtMostOne-remove p q xs h)
  ]

  pub AtMostOne-change :
      (p q : A → Bool) (f : A → A) (xs : List A)
      → ((x : A) → p (f x) ≡ p x)
      → AtMostOne p xs
      → AtMostOne p (change_entry q f xs)
  unfolding change_entry
  AtMostOne-change p q f [] k h = h
  AtMostOne-change p q f (x ∷ xs) k (u, h) = elim (Bool-cases (q x)) [
    | inl e ↦ rw (e, k x) (u, h)
    | inr e ↦ rw e (λ d. find_entry-change_none p q f xs k (u d), AtMostOne-change p q f xs k h)
  ]

  pub change_entry-append :
      (p : A → Bool) (f : A → A) (xs : List A) (a : A)
      → find_entry p xs ≡ none
      → p a ≡ true
      → change_entry p f (xs ++ a ∷ []) ≡ xs ++ f a ∷ []
  unfolding find_entry change_entry
  change_entry-append p f [] a h k = ground (arith, k)
  change_entry-append p f (x ∷ xs) a h k = ground (arith, h, change_entry-append p f xs a)
