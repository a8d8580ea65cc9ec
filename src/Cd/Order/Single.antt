-- ===== src/Cd/Order/Single.antt =====
-- Options and asterisks by themselves: their equality is that of the blocks, and agrees with their
-- order.
use f_copss.Prelude.{
  ◌∙◌, sym, ap, ◌||◌, ◌↔◌, ◌==◌, length, Bytes, ◌≡◌, [], ◌∷◌, zero, suc, refl, true, arith,
  bytes_eq, bytes_eq_iff,
}
use f_copss.Cd.Order.Laws.{canonical-eq_iff}
use f_copss.Cd.Order.Blocks.{IsWired, compare_wires-canonical, IsEarly}
use f_copss.Cd.Wired.{Wired, Memory, is_zero, sign, compare_first}
use f_copss.Cd.Index.{ℤ, pos, negsuc}
use f_copss.Cd.Optional
use f_copss.Cd.Asterisk
use f_copss.Ndn.{Block}
use Prim.Native.Nat.{Ordering}

Block_eq : (a b : Block) → a.type ≡ b.type → a.value ≡ b.value → a ≡ b
Block_eq a b e f = cc

same_value :
    (a b : Bytes) → (length a == length b) ≡ true → ((length a == 0) || bytes_eq a b) ≡ true → a ≡ b
same_value [] [] l e = refl
same_value [] (y ∷ b) l e = ground arith
same_value (x ∷ a) b l e = ground (arith, bytes_eq_iff (x ∷ a) b)

-- `equals` of either class tells whether the blocks are the same.
pub equals-block : (a b : Wired) → (Optional.equals a b ≡ true) ↔ (a.block ≡ b.block)
unfolding Optional.equals
equals-block a b = (
  λ e.
      Block_eq a.block b.block (ground arith)
        (same_value a.value b.value (ground arith) (ground arith)),
  λ e.
      let type : a.type ≡ b.type = ap (λ (x : Block). x.type) e in
      let value : a.value ≡ b.value = ap (λ (x : Block). x.value) e in
      rw (type, value) (ground (arith, bytes_eq_iff b.value b.value)),
)

is_zero-sign : (z : ℤ) → (is_zero z ≡ true) ↔ (sign z ≡ Ordering.eq)
is_zero-sign (pos zero) = (λ e. refl, λ e. refl)
is_zero-sign (pos (suc n)) = (λ e. cc, λ e. cc)
is_zero-sign (negsuc n) = (λ e. cc, λ e. cc)

module _ ⦃memory : Memory⦄ where
  empty-IsEarly : (a b : Wired) → IsEarly (Optional.empty a) a b
  unfolding compare_first
  empty-IsEarly a b e = let l : length a.value ≡ 0 = ground arith in rw l refl

  -- `compare` of an option and a block answers 0 exactly when `equals` holds.
  pub optional_compare-equals :
      (a b : Wired)
      → IsWired a
      → IsWired b
      → (is_zero (Optional.compare a b) ≡ true) ↔ (Optional.equals a b ≡ true)
  unfolding Optional.compare
  optional_compare-equals a b v w =
      let sign_z = compare_wires-canonical (Optional.empty a) a b (empty-IsEarly a b) v w in
      let decides = is_zero-sign (Optional.compare a b) in
      let same = canonical-eq_iff a.block b.block in
      (
        λ zero_is. (equals-block a b).1 (same.0 (sym sign_z ∙ decides.0 zero_is)),
        λ equal. decides.1 (sign_z ∙ same.1 ((equals-block a b).0 equal)),
      )

  -- The same of an asterisk.
  pub asterisk_compare-equals :
      (a b : Wired)
      → IsWired a
      → IsWired b
      → (is_zero (Asterisk.compare a b) ≡ true) ↔ (Asterisk.equals a b ≡ true)
  unfolding Asterisk.compare Asterisk.equals Optional.compare Optional.equals
  asterisk_compare-equals a b v w = optional_compare-equals a b v w
