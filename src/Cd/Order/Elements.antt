-- ===== src/Cd/Order/Elements.antt =====
-- The order of descriptors is the canonical one, and `compare` reads no place outside of them.
use f_copss.Prelude.{
  ◌^◌, ◌<◌, get_elem?, ◌+◌, All, ◌≡◌, [], ◌∷◌, refl, arith, zero, some, inl, inr, ap, ◌∙◌,
  Bool-cases, true, false, ok, suc, sym,
}
use f_copss.Cd.Order.{
  in_elements, ltb, length, Result, List, compare_blocks, compare_loop, compare_range, compare_cds,
  element_at, to_index, npos,
}
use f_copss.Cd.Order.Canonical.{canonical_list}
use f_copss.Cd.Order.Blocks.{IsWired, compare_blocks-canonical, sign_size}
use f_copss.Cd.Wired.{Wired, Memory, sub_size, to_int, sign, is_zero, min, and_then}
use f_copss.Cd.Index.{ℤ, pos, negsuc, at_in, get_in}
use f_copss.Ndn.{Block}
use Prim.Native.Nat.{ℕ, compare, Ordering}

-- What the blocks show.
abbrev pub blocks : List Wired → List Block
blocks [] = []
blocks (b ∷ cd) = b.block ∷ blocks cd

-- A descriptor of properly encoded blocks, as many as an `int` can count.
abbrev pub IsWiredCd : List Wired → Type 0
IsWiredCd cd = All IsWired cd × (length cd < 2 ^ 31)

-- The elements from a place on.
abbrev IsRest : List Wired → ℕ → List Wired → Type 0
IsRest cd i rest =
    (i + length rest ≡ length cd) × ((j : ℕ) → get_elem? rest j ≡ get_elem? cd (i + j))

IsRest-next :
    (cd rest : List Wired) (b : Wired) (i : ℕ) → IsRest cd i (b ∷ rest) → IsRest cd (i + 1) rest
IsRest-next cd rest b i (l, same) =
    (omega arith, λ j. let e : i + suc j ≡ i + 1 + j = omega arith in rw e at (same (suc j)))

IsRest-start : (cd : List Wired) → IsRest cd 0 cd
IsRest-start cd = (omega arith, λ j. let e : 0 + j ≡ j = omega arith in ap (get_elem? cd) (sym e))

element_at-first :
    (cd rest : List Wired) (b : Wired) (i : ℕ)
    → IsRest cd i (b ∷ rest)
    → length cd < 2 ^ 31
    → element_at i cd ≡ ok b
unfolding at_in get_in
element_at-first [] rest b i (l, same) small = absurd (omega arith)
element_at-first (x ∷ cd) rest b i (l, same) small =
    let e : i + 0 ≡ i = omega arith in
    let there = rw e at (same 0) in
    let index : to_index i ≡ pos i = ground arith in
    let inside : ltb (length cd) i ≡ false = ground arith in
    let found : at_in (pos i) (x ∷ cd) ≡ ok (some b) = rw (inside, sym there) refl in
    ap in_elements (ap (λ z. at_in z (x ∷ cd)) index ∙ found)

sign_same : (z : ℤ) (o p : Ordering) → is_zero z ≡ true → sign z ≡ o → and_then o p ≡ p
sign_same (pos zero) o p e f = ap (λ x. and_then x p) (sym f)
sign_same (pos (suc n)) o p e f = cc
sign_same (negsuc n) o p e f = cc

sign_other : (z : ℤ) (o p : Ordering) → is_zero z ≡ false → sign z ≡ o → and_then o p ≡ sign z
sign_other (pos zero) o p e f = cc
sign_other (pos (suc n)) o p e f = ap (λ x. and_then x p) (sym f)
sign_other (negsuc n) o p e f = ap (λ x. and_then x p) (sym f)

min_zero : (n : ℕ) → min 0 n ≡ 0
min_zero n = ground arith

min_zero' : (n : ℕ) → min n 0 ≡ 0
min_zero' n = ground arith

zero_lt : (n : ℕ) → compare 0 (suc n) ≡ Ordering.lt
zero_lt n = ground arith

suc_gt : (n : ℕ) → compare (suc n) 0 ≡ Ordering.gt
suc_gt n = ground arith

compare-suc-suc : (m n : ℕ) → compare (suc m) (suc n) ≡ compare m n
compare-suc-suc m n = ground arith

min-suc : (m n : ℕ) → min (suc m) (suc n) ≡ suc (min m n)
min-suc m n = ground arith

module _ ⦃memory : Memory⦄ where
  -- `compare` returns a number with the sign of the canonical order.
  abbrev pub Compares : Result ℤ → Ordering → Type 0
  Compares r o = (z : ℤ) × (r ≡ ok z) × (sign z ≡ o)

  compare_loop-canonical :
      (a b rest other : List Wired) (i : ℕ) (lengths : ℤ)
      → IsRest a i rest
      → IsRest b i other
      → length a < 2 ^ 31
      → length b < 2 ^ 31
      → All IsWired rest
      → All IsWired other
      → sign lengths ≡ compare (length rest) (length other)
      → Compares
          (compare_loop (min (length rest) (length other)) i i lengths a b)
          (canonical_list (blocks rest) (blocks other))
  unfolding compare_loop canonical_list
  compare_loop-canonical a b [] [] i lengths r s l k v w e = (lengths, refl, e)
  compare_loop-canonical a b [] (y ∷ other) i lengths r s l k v w e =
      (lengths, rw (min_zero (suc (length other))) refl, e ∙ zero_lt (length other))
  compare_loop-canonical a b (x ∷ rest) [] i lengths r s l k v w e =
      (lengths, rw (min_zero' (suc (length rest))) refl, e ∙ suc_gt (length rest))
  compare_loop-canonical a b (x ∷ rest) (y ∷ other) i lengths r s l k (vx, v) (wy, w) e =
      let sign_xy = compare_blocks-canonical x y vx wy in
      let (z, later, sign_z) =
        compare_loop-canonical a b rest other (i + 1) lengths (IsRest-next a rest x i r)
          (IsRest-next b other y i s) l k v w (e ∙ compare-suc-suc (length rest) (length other)) in
      elim (Bool-cases (is_zero (compare_blocks x y))) [
        | inl same ↦ (
          z,
          rw
              (
                min-suc (length rest) (length other),
                element_at-first a rest x i r l,
                element_at-first b other y i s k,
                same,
              )
              later,
          sign_z ∙ sym (sign_same _ _ _ same sign_xy),
        )
        | inr other_one ↦ (
          compare_blocks x y,
          rw
              (
                min-suc (length rest) (length other),
                element_at-first a rest x i r l,
                element_at-first b other y i s k,
                other_one,
              )
              refl,
          sym (sign_other _ _ _ other_one sign_xy),
        )
      ]

  -- Take two descriptors with less than 2^31 elements each, of types and with lengths below 2^31, where
  -- an element either has no octets or keeps those that encode it. `compare` of them never raises, and
  -- has the sign of the canonical order: the first element that differs decides, and else the number
  -- of elements.
  pub compare_cds-canonical :
      (a b : List Wired)
      → IsWiredCd a
      → IsWiredCd b
      → Compares (compare_cds a b) (canonical_list (blocks a) (blocks b))
  unfolding compare_range
  compare_cds-canonical a b (v, l) (w, k) =
      let size_a : min npos (sub_size (length a) 0) ≡ length a = ground arith in
      let size_b : min npos (sub_size (length b) 0) ≡ length b = ground arith in
      rw (size_a, size_b)
        (compare_loop-canonical a b a b 0 (to_int (sub_size (length a) (length b))) (IsRest-start a)
          (IsRest-start b) l k v w (sign_size (length a) (length b) l k))
