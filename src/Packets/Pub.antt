-- ===== src/Packets/Pub.antt =====
-- The objects that hold a publication: src/lib/pub.cpp, pub-to-rp.cpp and pub-from-rp.cpp, with the
-- wire block that they keep. The two classes differ in the type of their block, which the
-- operations take.
pub mod Coherent
pub mod Equal
use f_copss.Prelude.{
  ◌>>=◌, unexpected_type, Result, err, ok, not, ◌==◌, false, Bool, ◌++◌, if◌then◌else◌, Bytes, none,
  some, [], Option,
}
use f_copss.Cd.{Cd}
use f_copss.Cd.Equality
use f_copss.Cd.Wired.{Wired}
use f_copss.Ndn.Tlv
use f_copss.Ndn.{Ndn, Block}
use f_copss.Ndn.Encoding.{tlv, Encoding}
use f_copss.Packets.{parse_value, get_element, decode_cd, encode_cd}
use Prim.Native.Nat.{ℕ}

-- `m_cd`, `m_content` and `m_wire`. A content that is `none` is the empty block, a wire that is
-- `none` has no octets.
pub record Pub : Type 0 where
  pub cd : Cd
  pub content : Option Block
  pub wire : Option Block

abbrev pub empty_content : Block
empty_content = record { type = Tlv.content; value = [] }

-- `Pub(const Cd&)`.
unfoldable pub of_cd : Cd → Pub
of_cd cd = record { cd = cd; content = some empty_content; wire = none }

-- `Pub::getContent`. The block that it stores is the one that it would make again.
unfoldable pub get_content : Pub → Block
get_content self = elim self.content [ none ↦ empty_content | some block ↦ block ]

-- `Pub::setCd`.
unfoldable pub set_cd : Cd → Pub → Pub
set_cd cd self = record { cd = cd; content = self.content; wire = none }

-- `Pub::setContent` with a buffer.
unfoldable pub set_content : Bytes → Pub → Pub
set_content buffer self = record {
  cd = self.cd;
  content = some (record { type = Tlv.content; value = buffer });
  wire = none;
}

abbrev octets_kept : Option Bytes → Bytes
octets_kept none = []
octets_kept (some octets) = octets

module _ ⦃encoding : Encoding⦄ where
  -- `Pub::setContent` with a block, which may keep its octets. `Block(tlv::Content, block)` has the
  -- octets that the block keeps for its value, and none when the block was never encoded.
  unfoldable pub set_content_block : Wired → Pub → Pub
  set_content_block block self =
      if block.type == Tlv.content
      then record { cd = self.cd; content = some block.block; wire = none }
      else record {
        cd = self.cd;
        content = some (record { type = Tlv.content; value = octets_kept block.wire });
        wire = none;
      }

  -- What `getContent` returns is encoded.
  abbrev pub encoded_content : Pub → Wired
  encoded_content self =
      let content = get_content self in
      record { block = content; wire = some (tlv content.type content.value) }

  -- `PubFromRp(const PubToRp&)`.
  unfoldable pub from_rp : Pub → Pub
  unfolding of_cd set_content_block
  from_rp published = set_content_block (encoded_content published) (of_cd published.cd)

  -- `wireDecode`, and the constructor from a block.
  unfoldable pub wire_decode : ℕ → Block → Result Pub
  wire_decode type wire = do
    es ← parse_value wire.value
    if not (wire.type == type) then err unexpected_type else (do
      block ← get_element Tlv.cd es
      cd ← decode_cd block
      content ← get_element Tlv.content es
      ok (record { cd = cd; content = some content; wire = some wire }))

  -- `wireEncode` with an encoder.
  unfoldable pub encoded : ℕ → Pub → Block
  encoded type self = record {
    type = type;
    value = encode_cd self.cd ++ tlv (get_content self).type (get_content self).value;
  }

  -- `wireEncode`: the wire that is kept, or what is encoded now, which is decoded and kept.
  unfoldable pub wire_encode : ℕ → Pub → Result (Block × Pub)
  wire_encode type self = elim self.wire [
    | some wire ↦ ok (wire, self)
    | none ↦ (do decoded ← wire_decode type (encoded type self); ok (encoded type self, decoded))
  ]

module _ ⦃ndn : Ndn⦄ where
  -- `operator==`.
  unfoldable pub equals : Pub → Pub → Bool
  equals self other =
      if Equality.equals self.cd other.cd
      then ndn.block_eq (get_content self) (get_content other)
      else false
