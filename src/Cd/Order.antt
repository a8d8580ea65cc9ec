-- ===== src/Cd/Order.antt =====
-- src/lib/cd.cpp: `compare` and the relational operators of descriptors.
pub mod Canonical
pub mod Octets
pub mod Blocks
pub mod Elements
pub mod Laws
pub mod Single
use f_copss.Prelude.{◌&&◌, ◌||◌, [], ◌∷◌, ◌>>=◌, refl, arith, zero}
use f_copss.Prelude.{
  none, ◌+◌, some, ◌%◌, index_out_of_range, ◌-◌, ok, err, ltb, not, true, ◌^◌, Result, Bytes,
  if◌then◌else◌, false, List, Option, length, Bool,
}
use Prim.Native.Nat.{suc, ℕ}
use f_copss.Cd.Wired.{Wired, Memory, sub_u32, sub_size, to_int, sign, is_zero, min}
use f_copss.Cd.Index.{ℤ, pos, negsuc, at_in}

abbrev pub less : ℤ → Bool
less (pos n) = false
less (negsuc n) = true

-- `ssize_t` of a `size_t`.
abbrev pub to_index : ℕ → ℤ
to_index n =
    if ltb (n % 2 ^ 64) (2 ^ 63) then pos (n % 2 ^ 64) else negsuc (2 ^ 64 - 1 - n % 2 ^ 64)

-- `at`, which reads no place outside of the elements.
abbrev pub in_elements : Result (Option Wired) → Result Wired
in_elements (err error) = err error
in_elements (ok none) = err index_out_of_range
in_elements (ok (some b)) = ok b

abbrev pub element_at : ℕ → List Wired → Result Wired
element_at i cd = in_elements (at_in (to_index i) cd)

module _ ⦃memory : Memory⦄ where
  -- The code of `compare` for two blocks of which one has no wire, with the answer of `empty()`.
  abbrev pub compare_values : Bool → Wired → Wired → ℤ
  compare_values empty b1 b2 =
      let type = to_int (sub_u32 b1.type b2.type) in
      let size = to_int (sub_size (length b1.value) (length b2.value)) in
      if not (is_zero type)
      then type
      else if not (is_zero size)
      then size
      else if empty
      then pos 0
      else memory.memcmp (length b1.value) b1.value b2.value

  abbrev pub compare_wires : Option Bytes → Option Bytes → ℤ → ℤ
  compare_wires (some w1) (some w2) otherwise = memory.memcmp (min (length w1) (length w2)) w1 w2
  compare_wires _ _ otherwise = otherwise

  -- `compare(b1, b2)`.
  unfoldable pub compare_blocks : Wired → Wired → ℤ
  compare_blocks b1 b2 =
      compare_wires b1.wire b2.wire (compare_values (memory.is_empty b1.block) b1 b2)

  -- The loop of `compare`, for the rounds that are left; then the lengths decide.
  unfoldable pub compare_loop : ℕ → ℕ → ℕ → ℤ → List Wired → List Wired → Result ℤ
  unfolding compare_blocks
  compare_loop zero pos1 pos2 lengths cd other = ok lengths
  compare_loop (suc n) pos1 pos2 lengths cd other =
      let rest = compare_loop n (pos1 + 1) (pos2 + 1) lengths cd other in
      do
        b1 ← element_at pos1 cd
        b2 ← element_at pos2 other
        if not (is_zero (compare_blocks b1 b2)) then ok (compare_blocks b1 b2) else rest

  -- `compare(pos1, count1, other, pos2, count2)`.
  unfoldable pub compare_range : ℕ → ℕ → List Wired → ℕ → ℕ → List Wired → Result ℤ
  unfolding compare_loop
  compare_range pos1 count1 cd pos2 count2 other =
      let n1 = min count1 (sub_size (length cd) pos1) in
      let n2 = min count2 (sub_size (length other) pos2) in
      compare_loop (min n1 n2) pos1 pos2 (to_int (sub_size n1 n2)) cd other

  -- `compare(other)`; `npos` is the greatest `size_t`.
  abbrev pub npos : ℕ
  npos = 2 ^ 64 - 1

  abbrev pub compare_cds : List Wired → List Wired → Result ℤ
  compare_cds cd other = compare_range 0 npos cd 0 npos other

  -- The relational operators.
  abbrev pub is_lt : List Wired → List Wired → Result Bool
  is_lt cd other = do comp ← compare_cds cd other; ok (less comp)

  abbrev pub is_le : List Wired → List Wired → Result Bool
  is_le cd other = do comp ← compare_cds cd other; ok (less comp || is_zero comp)

  abbrev pub is_ge : List Wired → List Wired → Result Bool
  is_ge cd other = do comp ← compare_cds cd other; ok (not (less comp))

  abbrev pub is_gt : List Wired → List Wired → Result Bool
  is_gt cd other = do comp ← compare_cds cd other; ok (not (less comp) && not (is_zero comp))
