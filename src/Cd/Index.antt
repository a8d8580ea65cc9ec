-- ===== src/Cd/Index.antt =====
-- src/lib/cd.cpp: the access to an element by a signed index, `at`, `get` and `operator[]`. The number
-- of elements is a `size_t` that fits into an `ssize_t`.
use f_copss.Prelude.{
  ◌∙◌, sym, Bool-cases, inl, ap, inr, refl, [], ◌∷◌, arith, ok, ◌⊎◌, some, index_out_of_range, none,
  true, ◌+◌, ◌-◌, zero, length, err, false, ◌<◌, ◌||◌, ◌≡◌, if◌then◌else◌, get_elem?, ltb, Result,
  Option, Bool,
}
use Prim.Native.Nat.{suc, ℕ}
use f_copss.Cd.{List, Cd}
use f_copss.Cd.Equality.{size}
use f_copss.Ndn.{Block}

-- Signed integers; `negsuc n` is -(n + 1).
pub data ℤ : Type 0 where
  pos : ℕ → ℤ
  negsuc : ℕ → ℤ

-- `-n` and `n - 1`.
abbrev minus : ℕ → ℤ
minus zero = pos 0
minus (suc n) = negsuc n

abbrev before : ℕ → ℤ
before zero = negsuc 0
before (suc n) = pos n

abbrev pub lt_ℤ : ℤ → ℤ → Bool
lt_ℤ (pos m) (pos n) = ltb m n
lt_ℤ (pos m) (negsuc n) = false
lt_ℤ (negsuc m) (pos n) = true
lt_ℤ (negsuc m) (negsuc n) = ltb n m

-- `get`: a negative index counts from the end; `none` is a read outside of the elements.
unfoldable pub get_in {ℓ} : {A : Type ℓ} → ℤ → List A → Option A
get_in (pos n) elements = get_elem? elements n
get_in (negsuc n) elements =
    if ltb n (length elements) then get_elem? elements (length elements - suc n) else none

-- `at`.
unfoldable pub at_in {ℓ} : {A : Type ℓ} → ℤ → List A → Result (Option A)
unfolding get_in
at_in i elements =
    if lt_ℤ i (minus (length elements)) || lt_ℤ (before (length elements)) i
    then err index_out_of_range
    else ok (get_in i elements)

abbrev pub get : ℤ → Cd → Option Block
get i cd = get_in i cd.elements

abbrev pub at : ℤ → Cd → Result (Option Block)
at i cd = at_in i cd.elements

-- The place that an index means among so many elements.
abbrev pub IsPlace : ℤ → ℕ → ℕ → Type 0
IsPlace (pos n) count place = (place ≡ n) × (n < count)
IsPlace (negsuc n) count place = place + suc n ≡ count

get_elem?-some {ℓ} :
    {A : Type ℓ} (xs : List A) (n : ℕ) → n < length xs → (x : A) × (get_elem? xs n ≡ some x)
get_elem?-some [] n l = absurd (omega arith)
get_elem?-some (x ∷ xs) zero l = (x, refl)
get_elem?-some (x ∷ xs) (suc n) l = get_elem?-some xs n (omega arith)

is_outside : (i : ℤ) (count : ℕ) → Bool
is_outside i count = lt_ℤ i (minus count) || lt_ℤ (before count) i

-- An index is inside when it means a place, and then there is an element at this place.
is_outside-cases :
    (i : ℤ) (count : ℕ)
    → ((is_outside i count ≡ false) × ((place : ℕ) × (IsPlace i count place × (place < count))))
      ⊎ ((is_outside i count ≡ true) × ((place : ℕ) → ¬ IsPlace i count place))
unfolding is_outside
is_outside-cases (pos n) zero = inr (ground arith, λ place (e, l). omega arith)
is_outside-cases (pos n) (suc count) = elim (Bool-cases (ltb count n)) [
  | inl far ↦ inr (far, λ place (e, l). ground arith)
  | inr near ↦ inl (near, (n, ((refl, ground arith), ground arith)))
]
is_outside-cases (negsuc n) zero = inr (refl, λ place e. omega arith)
is_outside-cases (negsuc n) (suc count) = elim (Bool-cases (ltb count n)) [
  | inl far ↦ inr (ground arith, λ place e. ground arith)
  | inr near ↦ inl (ground arith, (count - n, (ground arith, omega arith)))
]

get-place :
    (i : ℤ) (cd : Cd) (place : ℕ)
    → IsPlace i (length cd.elements) place
    → place < length cd.elements
    → get i cd ≡ get_elem? cd.elements place
unfolding get_in
get-place (pos n) cd place (e, l) below = ap (get_elem? cd.elements) (sym e)
get-place (negsuc n) cd place e below =
    let inside : ltb n (length cd.elements) ≡ true = ground arith in
    let same : length cd.elements - suc n ≡ place = omega arith in rw (inside, same) refl

-- `at` raises exactly when the index means no place, from the front or from the end; otherwise it gives
-- the element at this place, and never reads outside of the elements.
pub at-IsPlace :
    (i : ℤ) (cd : Cd)
    → ((place : ℕ) × (block : Block) × IsPlace i (size cd) place
        × (get_elem? cd.elements place ≡ some block)
        × (at i cd ≡ ok (some block)))
      ⊎ (((place : ℕ) → ¬ IsPlace i (size cd) place) × (at i cd ≡ err index_out_of_range))
unfolding size at_in is_outside
at-IsPlace i cd = elim (is_outside-cases i (length cd.elements)) [
  | inl (inside, (place, (means, below))) ↦
      let (block, there) = get_elem?-some cd.elements place below in
      let got = get-place i cd place means below ∙ there in
      inl (place, block, means, there, rw (inside, got) refl)
  | inr (outside, no_place) ↦ inr (no_place, rw outside refl)
]
