-- ===== src/Cd/Order/Canonical.antt =====
-- The canonical order of NDN names, as a description that the code is compared with.
use f_copss.Prelude.{[]}
use f_copss.Prelude.{refl, zero, arith, ◌∷◌, ◌≡◌, Bytes, List, length}
use f_copss.Cd.Wired.{and_then, compare_first}
use f_copss.Ndn.{Block}
use Prim.Native.Nat.{suc, ℕ, compare, Ordering}

-- Blocks by their types, then by the lengths of their values, then by the first octet that differs.
unfoldable pub canonical : Block → Block → Ordering
unfolding compare_first
canonical a b = and_then (compare a.type b.type) (
    and_then (compare (length a.value) (length b.value))
      (compare_first (length a.value) a.value b.value))

-- Lists by the first block that differs, then by their lengths.
unfoldable pub canonical_list : List Block → List Block → Ordering
unfolding canonical
canonical_list [] [] = Ordering.eq
canonical_list [] (y ∷ b) = Ordering.lt
canonical_list (x ∷ a) [] = Ordering.gt
canonical_list (x ∷ a) (y ∷ b) = and_then (canonical x y) (canonical_list a b)

abbrev pub swapped : Ordering → Ordering
swapped Ordering.lt = Ordering.gt
swapped Ordering.eq = Ordering.eq
swapped Ordering.gt = Ordering.lt

pub compare_first-swapped :
    (n : ℕ) (a b : Bytes) → compare_first n b a ≡ swapped (compare_first n a b)
unfolding compare_first
compare_first-swapped zero a b = refl
compare_first-swapped (suc n) [] [] = refl
compare_first-swapped (suc n) [] (y ∷ b) = refl
compare_first-swapped (suc n) (x ∷ a) [] = refl
compare_first-swapped (suc n) (x ∷ a) (y ∷ b) = ground (arith, compare_first-swapped n a b)

pub compare_first-eq :
    (a b : Bytes) → length a ≡ length b → compare_first (length a) a b ≡ Ordering.eq → a ≡ b
unfolding compare_first
compare_first-eq [] [] l e = refl
compare_first-eq [] (y ∷ b) l e = absurd (omega arith)
compare_first-eq (x ∷ a) [] l e = absurd (omega arith)
compare_first-eq (x ∷ a) (y ∷ b) l e = ground (arith, compare_first-eq a b)

pub compare_first_refl : (n : ℕ) (a : Bytes) → compare_first n a a ≡ Ordering.eq
unfolding compare_first
compare_first_refl zero a = refl
compare_first_refl (suc n) [] = refl
compare_first_refl (suc n) (x ∷ a) = ground (arith, compare_first_refl n a)

pub compare_first_trans :
    (n : ℕ) (a b c : Bytes)
    → length a ≡ length b
    → length b ≡ length c
    → compare_first n a b ≡ Ordering.lt
    → compare_first n b c ≡ Ordering.lt
    → compare_first n a c ≡ Ordering.lt
unfolding compare_first
compare_first_trans zero a b c l l' e f = cc
compare_first_trans (suc n) [] b c l l' e f = cc
compare_first_trans (suc n) (x ∷ a) [] c l l' e f = cc
compare_first_trans (suc n) (x ∷ a) (y ∷ b) [] l l' e f = cc
compare_first_trans (suc n) (x ∷ a) (y ∷ b) (z ∷ c) l l' e f =
    ground (arith, compare_first_trans n a b c)
