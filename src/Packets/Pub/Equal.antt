-- ===== src/Packets/Pub/Equal.antt =====
-- `operator==` of src/lib/pub.cpp.
use f_copss.Ndn.{Ndn}
use f_copss.Cd.Equality
use f_copss.Packets.Pub.{Pub, equals, get_content}
use f_copss.Prelude.{◌↔◌, true, ◌≡◌, arith}

module _ ⦃ndn : Ndn⦄ where
  -- Publications are equal when their descriptors and contents are, whatever wire they keep.
  equals_iff : (a b : Pub) → (equals a b ≡ true) ↔ ((a.cd ≡ b.cd) × (get_content a ≡ get_content b))
  unfolding equals
  equals_iff a b =
      ground
        (arith, Equality.equals_iff a.cd b.cd, ndn.block_eq_iff (get_content a) (get_content b))
