-- ===== src/Cd/Wired.antt =====
-- The blocks of a descriptor with the octets that they keep once they are encoded (`hasWire`, `wire`),
-- the conversions of C++ to `int`, and `memcmp`.
use f_copss.Prelude.{◌∷◌}
use f_copss.Prelude.{
  ◌≡◌, ◌%◌, ◌-◌, length, ◌≤◌, ◌^◌, false, ltb, ◌+◌, zero, true, if◌then◌else◌, Bytes, Bool, Option,
}
use f_copss.Cd.Index.{ℤ, pos, negsuc}
use f_copss.Ndn.{Block}
use Prim.Native.Nat.{suc, ℕ, compare, Ordering}

pub record Wired : Type 0 where
  pub block : Block
  pub open block use *
  pub wire : Option Bytes

-- `uint32_t` and `size_t` subtraction, and the conversion to a 32-bit `int`.
abbrev pub sub_u32 : ℕ → ℕ → ℕ
sub_u32 a b = (a + 2 ^ 32 - b) % 2 ^ 32

abbrev pub sub_size : ℕ → ℕ → ℕ
sub_size a b = (a + 2 ^ 64 - b) % 2 ^ 64

abbrev pub to_int : ℕ → ℤ
to_int n = if ltb (n % 2 ^ 32) (2 ^ 31) then pos (n % 2 ^ 32) else negsuc (2 ^ 32 - 1 - n % 2 ^ 32)

abbrev pub sign : ℤ → Ordering
sign (pos zero) = Ordering.eq
sign (pos (suc n)) = Ordering.gt
sign (negsuc n) = Ordering.lt

-- The second test counts where the first one finds no difference.
abbrev pub and_then : Ordering → Ordering → Ordering
and_then Ordering.eq o = o
and_then Ordering.lt o = Ordering.lt
and_then Ordering.gt o = Ordering.gt

-- The first octet that differs, among so many.
unfoldable pub compare_first : ℕ → Bytes → Bytes → Ordering
compare_first zero a b = Ordering.eq
compare_first (suc n) (x ∷ a) (y ∷ b) = and_then (compare x y) (compare_first n a b)
compare_first (suc n) _ _ = Ordering.eq

-- `memcmp`, whose result has only its sign documented, and `Block::empty`, which is true of a block
-- without a type alone.
pub record Memory : Type 0 where
  pub memcmp : ℕ → Bytes → Bytes → ℤ
  pub memcmp-sign :
      (n : ℕ) (a b : Bytes)
      → n ≤ length a
      → n ≤ length b
      → sign (memcmp n a b) ≡ compare_first n a b
  pub is_empty : Block → Bool
  pub is_empty-type : (b : Block) → is_empty b ≡ true → b.type ≡ 2 ^ 32 - 1

abbrev pub is_zero : ℤ → Bool
is_zero (pos zero) = true
is_zero _ = false

-- The lengths of what is compared.
abbrev pub min : ℕ → ℕ → ℕ
min a b = if ltb b a then b else a
