-- ===== src/Tests/OrderWitnesses.antt =====
-- The order of descriptors at `/a` and `/b`, of which one keeps its encoding.
use f_copss.Prelude.{List, ◌==◌, ◌≡◌, [], ◌∷◌, none, some, inl, inr, refl, arith, ==_lem}
use f_copss.Cd.Order.{compare_cds}
use f_copss.Cd.Order.Canonical.{canonical_list}
use f_copss.Cd.Order.Octets.{octets}
use f_copss.Cd.Order.Elements
use f_copss.Cd.Order.Elements.{blocks, IsWiredCd}
use f_copss.Cd.Order.Laws
use f_copss.Cd.Wired.{Wired, Memory, sign, compare_first}
use f_copss.Cd.Index.{ℤ, pos, negsuc}
use f_copss.Ndn.{Block}
use f_copss.Tests.Instances.{ndn_model}
use Prim.Native.Nat.{ℕ, Ordering}

abbrev number_of : Ordering → ℤ
number_of Ordering.lt = negsuc 0
number_of Ordering.eq = pos 0
number_of Ordering.gt = pos 1

sign-number_of : (o : Ordering) → sign (number_of o) ≡ o
sign-number_of Ordering.lt = refl
sign-number_of Ordering.eq = refl
sign-number_of Ordering.gt = refl

instance abbrev memory_model : Memory
memory_model = record {
  memcmp = λ n a b. number_of (compare_first n a b);
  memcmp-sign = λ n a b l k. sign-number_of (compare_first n a b);
  is_empty = λ b. b.type == 4294967295;
  is_empty-type = λ b e. ==_lem b.type 4294967295 e;
}

abbrev word : ℕ → Block
word c = record { type = 8; value = c ∷ [] }

-- `/a` as it came with a packet, and `/a` and `/b` as they were made.
abbrev received : List Wired
received = record { block = word b'a'; wire = some (octets (word b'a')) } ∷ []

abbrev made : ℕ → List Wired
made c = record { block = word c; wire = none } ∷ []

received-IsWiredCd : IsWiredCd received
received-IsWiredCd = (((omega arith, inr refl), tt), omega arith)

made-IsWiredCd : (c : ℕ) → IsWiredCd (made c)
made-IsWiredCd c = (((omega arith, inl refl), tt), omega arith)

compare_cds-canonical_example :
    Elements.Compares
      (compare_cds received (made b'b'))
      (canonical_list (blocks received) (blocks (made b'b')))
compare_cds-canonical_example =
    Elements.compare_cds-canonical received (made b'b') received-IsWiredCd (made-IsWiredCd b'b')

is_lt-Trichotomy_example : Laws.Trichotomy received (made b'a')
is_lt-Trichotomy_example =
    Laws.is_lt-Trichotomy received (made b'a') received-IsWiredCd (made-IsWiredCd b'a')
