-- ===== src/Packets/Sub.antt =====
-- The object that holds a subscription: src/lib/sub.cpp, with the wire block that it keeps.
pub mod Coherent
pub mod Equal
use f_copss.Cd.{Cd}
use f_copss.Ndn.Tlv
use f_copss.Ndn.{Ndn, Block}
use f_copss.Ndn.Encoding.{Encoding}
use f_copss.Packets.{parse_value, get_element, decode_cd, encode_sub}
use f_copss.Prelude.{
  ◌>>=◌, unexpected_type, Result, err, ok, not, ◌==◌, Bool, if◌then◌else◌, none, some, Option,
}

-- `m_cd` and `m_wire`, which is `none` when it has no octets.
pub record Sub : Type 0 where
  pub cd : Cd
  pub wire : Option Block

-- `Sub(const Cd&)`.
unfoldable pub of_cd : Cd → Sub
of_cd cd = record { cd = cd; wire = none }

-- `Sub::setCd`.
unfoldable pub set_cd : Cd → Sub → Sub
set_cd cd self = record { cd = cd; wire = none }

module _ ⦃encoding : Encoding⦄ where
  -- `Sub::wireDecode`, and the constructor from a block.
  unfoldable pub wire_decode : Block → Result Sub
  wire_decode wire = do
    es ← parse_value wire.value
    if not (wire.type == Tlv.sub) then err unexpected_type else (do
      block ← get_element Tlv.cd es
      cd ← decode_cd block
      ok (record { cd = cd; wire = some wire }))

  -- `Sub::wireEncode` with an encoder.
  unfoldable pub encoded : Sub → Block
  encoded self = record { type = Tlv.sub; value = encode_sub self.cd }

  -- `Sub::wireEncode`: the wire that is kept, or what is encoded now, which is decoded and kept.
  unfoldable pub wire_encode : Sub → Result (Block × Sub)
  wire_encode self = elim self.wire [
    | some wire ↦ ok (wire, self)
    | none ↦ (do decoded ← wire_decode (encoded self); ok (encoded self, decoded))
  ]

module _ ⦃encoding : Encoding⦄ ⦃ndn : Ndn⦄ where
  -- `operator==` of `Sub`, with both objects as `wireEncode` leaves them.
  unfoldable pub equals : Sub → Sub → Result (Bool × Sub × Sub)
  equals self other = do
    left ← wire_encode self
    right ← wire_encode other
    ok (ndn.block_eq left.0 right.0, left.1, right.1)
