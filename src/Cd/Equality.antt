-- ===== src/Cd/Equality.antt =====
-- src/lib/cd.cpp: `equals`, `isPrefixOf`, `size`, `empty` and the element accessors.
use f_copss.Cd.{Cd}
use f_copss.Ndn.{Block, Ndn}
use f_copss.Prelude.{
  ℕ, ◌+◌, ◌≡◌, ◌↔◌, refl, ap, Bool, true, false, not, List, [], ◌∷◌, ◌++◌, length, arith, ◌==◌, ltb,
  if◌then◌else◌, ◌∙◌, length-append,
}

unfoldable pub size : Cd → ℕ
size cd = length cd.elements

module _ ⦃ndn : Ndn⦄ where
  -- The loop over `i < size()`, on the elements from `i` on. It meets no end of `cd`, whose size
  -- was compared before.
  unfoldable pub equal_elements : List Block → List Block → Bool
  equal_elements [] other = true
  equal_elements (x ∷ xs) [] = false
  equal_elements (x ∷ xs) (y ∷ ys) = if not (ndn.block_eq x y) then false else equal_elements xs ys

  unfoldable pub equals : Cd → Cd → Bool
  unfolding equal_elements size
  equals cd other =
      if not (size cd == size other) then false else equal_elements cd.elements other.elements

  unfoldable pub is_prefix_of : Cd → Cd → Bool
  unfolding equal_elements size
  is_prefix_of cd other =
      if ltb (size other) (size cd) then false else equal_elements cd.elements other.elements

  equal_elements-same_length :
      (xs ys : List Block) → length xs ≡ length ys → (equal_elements xs ys ≡ true) ↔ (xs ≡ ys)
  unfolding equal_elements
  equal_elements-same_length [] [] h = (λ e. refl, λ e. refl)
  equal_elements-same_length [] (y ∷ ys) h = absurd (omega arith)
  equal_elements-same_length (x ∷ xs) [] h = absurd (omega arith)
  equal_elements-same_length (x ∷ xs) (y ∷ ys) h =
      ground (arith, ndn.block_eq_iff x y, equal_elements-same_length xs ys)

  -- `operator==` on descriptors is equality of the elements, in order.
  pub equals_iff : (a b : Cd) → (equals a b ≡ true) ↔ (a ≡ b)
  unfolding equals
  equals_iff a b = ground (arith, equal_elements-same_length a.elements b.elements)

  equal_elements-split :
      (xs ys : List Block) → equal_elements xs ys ≡ true → (rest : List Block) × (ys ≡ xs ++ rest)
  unfolding equal_elements
  equal_elements-split [] ys h = (ys, refl)
  equal_elements-split (x ∷ xs) [] h = cc
  equal_elements-split (x ∷ xs) (y ∷ ys) h =
      let (rest, e) = equal_elements-split xs ys (ground arith) in
      (rest, ground (arith, ndn.block_eq_iff x y))

  equal_elements-append : (xs rest : List Block) → equal_elements xs (xs ++ rest) ≡ true
  unfolding equal_elements
  equal_elements-append [] rest = refl
  equal_elements-append (x ∷ xs) rest =
      ground (arith, ndn.block_eq_iff x x, equal_elements-append xs rest)

  -- The elements of `other` begin with those of `cd`.
  abbrev pub IsPrefixOf : Cd → Cd → Type 0
  IsPrefixOf cd other = (rest : List Block) × (other.elements ≡ cd.elements ++ rest)

  pub is_prefix_of-IsPrefixOf : (a b : Cd) → is_prefix_of a b ≡ true → IsPrefixOf a b
  unfolding is_prefix_of
  is_prefix_of-IsPrefixOf a b h = equal_elements-split a.elements b.elements (ground arith)

  pub IsPrefixOf-is_prefix_of : (a b : Cd) → IsPrefixOf a b → is_prefix_of a b ≡ true
  unfolding is_prefix_of
  IsPrefixOf-is_prefix_of a b (rest, e) =
      let l : length b.elements ≡ length a.elements + length rest =
        ap length e ∙ length-append a.elements rest in
      rw e (ground (arith, length-append a.elements rest, equal_elements-append a.elements rest))
