-- ===== src/Prelude/OrderedSet.antt =====
-- `std::set` ordered by a numeric key, and the `std::map` and `std::set` of face ids: a list in
-- ascending order of the keys. `insert` keeps an equivalent element that is already there.
use Prim.Native.Nat.{ℕ, ◌<◌, ◌≤◌}
use mathlib.Core.Path.{◌≡◌, refl}
use mathlib.Core.Bool.{false}
use mathlib.Core.List.{List, [], ◌∷◌}
use mathlib.Core.Option.{Option, none, some}
use native.Mathlib.Omega.{arith}
use f_copss.Prelude.Tests.{ltb, ◌==◌, if◌then◌else◌}

module _ {ℓ} {A : Type ℓ} (key : A → ℕ) where
  unfoldable pub insert : A → List A → List A
  insert a [] = a ∷ []
  insert a (x ∷ xs) =
      if ltb (key a) (key x) then a ∷ x ∷ xs else if key a == key x then x ∷ xs else x ∷ insert a xs

  unfoldable pub erase : ℕ → List A → List A
  erase k [] = []
  erase k (x ∷ xs) = if key x == k then xs else x ∷ erase k xs

  unfoldable pub find : ℕ → List A → Option A
  find k [] = none
  find k (x ∷ xs) = if key x == k then some x else find k xs

  -- Every key is above the bound.
  abbrev pub Above : ℕ → List A → Type 0
  Above k [] = Unit
  Above k (x ∷ xs) = (k < key x) × Above k xs

  abbrev pub IsAscending : List A → Type 0
  IsAscending [] = Unit
  IsAscending (x ∷ xs) = Above (key x) xs × IsAscending xs

  Above-trans : (j k : ℕ) (xs : List A) → j < k → Above k xs → Above j xs
  Above-trans j k [] h a = tt
  Above-trans j k (x ∷ xs) h a = (omega arith, Above-trans j k xs h a.1)

  Above-insert : (k : ℕ) (a : A) (xs : List A) → k < key a → Above k xs → Above k (insert a xs)
  unfolding insert
  Above-insert k a [] h v = (h, tt)
  Above-insert k a (x ∷ xs) h v = ground (arith, Above-insert k a xs)

  Above-erase : (k j : ℕ) (xs : List A) → Above k xs → Above k (erase j xs)
  unfolding erase
  Above-erase k j [] v = tt
  Above-erase k j (x ∷ xs) v = ground (arith, Above-erase k j xs)

  find-none_of_Above : (k j : ℕ) (xs : List A) → Above k xs → j ≤ k → find j xs ≡ none
  unfolding find
  find-none_of_Above k j [] v h = refl
  find-none_of_Above k j (x ∷ xs) v h = ground (arith, find-none_of_Above k j xs)

  pub find-key : (k : ℕ) (xs : List A) (x : A) → find k xs ≡ some x → key x ≡ k
  unfolding find
  find-key k [] x e = cc
  find-key k (y ∷ ys) x e = ground (arith, find-key k ys x)

  pub find-Above : (j k : ℕ) (xs : List A) (x : A) → Above j xs → find k xs ≡ some x → j < k
  unfolding find
  find-Above j k [] x a e = cc
  find-Above j k (y ∷ ys) x a e = ground (arith, find-Above j k ys x)

  pub insert-IsAscending : (a : A) (xs : List A) → IsAscending xs → IsAscending (insert a xs)
  unfolding insert
  insert-IsAscending a [] v = (tt, tt)
  insert-IsAscending a (x ∷ xs) v =
      ground
        (arith, Above-trans (key a) (key x) xs, Above-insert (key x) a xs, insert-IsAscending a xs)

  pub erase-IsAscending : (k : ℕ) (xs : List A) → IsAscending xs → IsAscending (erase k xs)
  unfolding erase
  erase-IsAscending k [] v = tt
  erase-IsAscending k (x ∷ xs) v = ground (arith, Above-erase (key x) k xs, erase-IsAscending k xs)

  -- An insertion is seen only where no equivalent element stood.
  pub find-insert :
      (a : A) (k : ℕ) (xs : List A)
      → find k xs ≡ none
      → find k (insert a xs) ≡ (if key a == k then some a else none)
  unfolding find insert
  find-insert a k [] h = refl
  find-insert a k (x ∷ xs) h = ground (arith, find-insert a k xs)

  pub find-insert_ne :
      (a : A) (k : ℕ) (xs : List A) → (key a == k) ≡ false → find k (insert a xs) ≡ find k xs
  unfolding find insert
  find-insert_ne a k [] h = ground arith
  find-insert_ne a k (x ∷ xs) h = ground (arith, find-insert_ne a k xs)

  pub find-erase :
      (j k : ℕ) (xs : List A)
      → IsAscending xs
      → find k (erase j xs) ≡ (if j == k then none else find k xs)
  unfolding find erase
  find-erase j k [] v = ground arith
  find-erase j k (x ∷ xs) v = ground (arith, find-none_of_Above (key x) k xs, find-erase j k xs)

  -- Replacing an element: erase it, then insert the new one.
  pub find-insert-erase :
      (a : A) (k : ℕ) (xs : List A)
      → IsAscending xs
      → find k (insert a (erase (key a) xs)) ≡ (if key a == k then some a else find k xs)
  find-insert-erase a k xs v = ground (
    arith,
    find-erase (key a) k xs v,
    find-insert a k (erase (key a) xs),
    find-insert_ne a k (erase (key a) xs),
  )
