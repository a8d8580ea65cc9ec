-- ===== src/Packets.antt =====
-- The packets: src/lib/sub.cpp, pub.cpp, pub-to-rp.cpp, pub-from-rp.cpp, the wire format of
-- src/lib/cd.cpp, and `Face::onPacketReceived` of src/router/face.cpp.
pub mod Wire
pub mod Pub
pub mod Sub
use f_copss.Ndn.{Block}
use f_copss.Cd.{Cd}
use f_copss.Ndn.Tlv
use f_copss.Router.Forwarder.{Packet, sub, pub_to_rp, pub_from_rp}
use f_copss.Prelude.{
  unexpected_type, ◌>>=◌, some, ill_formed, ok, [], ◌==◌, none, not, missing_element, Option,
  if◌then◌else◌, ◌++◌, ◌∷◌, err, Result, Bytes, List,
}
use f_copss.Ndn.Encoding.{tlv, Encoding}
use Prim.Native.Nat.{ℕ}

module _ ⦃encoding : Encoding⦄ where
  -- The encoder works from the last element to the first, and each goes in front.
  unfoldable pub encode_elements : List Block → Bytes
  encode_elements [] = []
  encode_elements (e ∷ es) = tlv e.type e.value ++ encode_elements es

  -- `Cd::wireEncode`, `Sub::wireEncode`, and `wireEncode` of the two publications.
  abbrev pub encode_cd : Cd → Bytes
  encode_cd cd = tlv Tlv.cd (encode_elements cd.elements)

  abbrev pub encode_sub : Cd → Bytes
  encode_sub cd = encode_cd cd

  abbrev pub encode_pub : Cd → Bytes → Bytes
  encode_pub cd content = encode_cd cd ++ tlv Tlv.content content

  -- The block of a packet: its type, and what is encoded in front of which type and length go.
  unfoldable pub wire_encode : Packet → Block
  wire_encode (sub cd) = record { type = Tlv.sub; value = encode_sub cd }
  wire_encode (pub_to_rp cd content) = record {
    type = Tlv.pub_to_rp;
    value = encode_pub cd content;
  }
  wire_encode (pub_from_rp cd content) = record {
    type = Tlv.pub_from_rp;
    value = encode_pub cd content;
  }

  abbrev pub parse_value : Bytes → Result (List Block)
  parse_value v = elim (encoding.parse v) [ none ↦ err ill_formed | some es ↦ ok es ]

  -- `m_wire.get`.
  abbrev pub get_element : ℕ → List Block → Result Block
  get_element type es = elim (encoding.get type es) [ none ↦ err missing_element | some e ↦ ok e ]

  -- `Cd::wireDecode`.
  unfoldable pub decode_cd : Block → Result Cd
  decode_cd wire =
      if not (wire.type == Tlv.cd)
      then err unexpected_type
      else (do es ← parse_value wire.value; ok (record { elements = es }))

  -- `Sub::wireDecode`.
  unfoldable pub decode_sub : Block → Result Packet
  decode_sub wire = do
    es ← parse_value wire.value
    if not (wire.type == Tlv.sub)
        then err unexpected_type
        else (do block ← get_element Tlv.cd es; cd ← decode_cd block; ok (sub cd))

  -- `wireDecode` of the two publications, which differ in the type that they expect.
  unfoldable pub decode_pub : ℕ → (Cd → Bytes → Packet) → Block → Result Packet
  decode_pub type make wire = do
    es ← parse_value wire.value
    if not (wire.type == type) then err unexpected_type else (do
      block ← get_element Tlv.cd es
      cd ← decode_cd block
      content ← get_element Tlv.content es
      ok (make cd content.value))

  -- `Face::onPacketReceived`: an exception or an unknown type is logged, and nothing else happens.
  abbrev pub caught : Result Packet → Option Packet
  caught (err error) = none
  caught (ok packet) = some packet

  unfoldable pub on_packet_received : Block → Option Packet
  unfolding decode_sub decode_pub
  on_packet_received packet =
      if packet.type == Tlv.sub
      then caught (decode_sub packet)
      else if packet.type == Tlv.pub_to_rp
      then caught (decode_pub Tlv.pub_to_rp pub_to_rp packet)
      else if packet.type == Tlv.pub_from_rp
      then caught (decode_pub Tlv.pub_from_rp pub_from_rp packet)
      else none
