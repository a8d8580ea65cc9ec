-- ===== src/Packets/Wire.antt =====
-- A face reads what a face wrote.
use f_copss.Ndn.Tlv
use mathlib.Core.List.{append-nil}
use f_copss.Router.Forwarder.{sub, pub_to_rp, pub_from_rp}
use f_copss.Prelude.{arith, subst, ◌∙◌, refl, [], ◌≡◌}
use f_copss.Cd.{Cd}
use f_copss.Packets.{
  get_element, Packet, wire_encode, ◌∷◌, decode_pub, encode_pub, encode_sub, ok, some, decode_sub,
  parse_value, Block, Bytes, List, on_packet_received, decode_cd, encode_elements,
}
use Prim.Native.Nat.{ℕ}
use f_copss.Ndn.Encoding.{tlv, Encoding}

module _ ⦃encoding : Encoding⦄ where
  parse-elements : (es : List Block) → encoding.parse (encode_elements es) ≡ some es
  unfolding encode_elements
  parse-elements [] = encoding.parse-nil
  parse-elements (e ∷ es) =
      encoding.parse-cons e.type e.value (encode_elements es) es (parse-elements es)

  pub parse-one :
      (type : ℕ) (v : Bytes)
      → encoding.parse (tlv type v) ≡ some (record { type = type; value = v } ∷ [])
  parse-one type v =
      let e = encoding.parse-cons type v [] [] encoding.parse-nil in rw append-nil at e

  pub parse_value-parse :
      (v : Bytes) (es : List Block) → encoding.parse v ≡ some es → parse_value v ≡ ok es
  parse_value-parse v es e = rw (e, parse_value) refl

  abbrev pub cd_block : Cd → Block
  cd_block cd = record { type = Tlv.cd; value = encode_elements cd.elements }

  pub decode_cd-encode : (cd : Cd) → decode_cd (cd_block cd) ≡ ok cd
  unfolding decode_cd
  decode_cd-encode cd =
      rw (parse_value-parse (encode_elements cd.elements) cd.elements (parse-elements cd.elements))
        refl

  pub parse-sub : (cd : Cd) → parse_value (encode_sub cd) ≡ ok (cd_block cd ∷ [])
  parse-sub cd =
      parse_value-parse (encode_sub cd) (cd_block cd ∷ [])
        (parse-one Tlv.cd (encode_elements cd.elements))

  abbrev content_block : Bytes → Block
  content_block content = record { type = Tlv.content; value = content }

  parse-pub :
      (cd : Cd) (content : Bytes)
      → parse_value (encode_pub cd content)
        ≡ ok (cd_block cd ∷ record { type = Tlv.content; value = content } ∷ [])
  parse-pub cd content = parse_value-parse (encode_pub cd content) _ (
      encoding.parse-cons Tlv.cd (encode_elements cd.elements) (tlv Tlv.content content) _
        (parse-one Tlv.content content))

  get_element-get :
      (type : ℕ) (es : List Block) (e : Block)
      → encoding.get type es ≡ some e
      → get_element type es ≡ ok e
  get_element-get type es e h = rw (h, get_element) refl

  pub get-cd :
      (cd : Cd) (es : List Block) → get_element Tlv.cd (cd_block cd ∷ es) ≡ ok (cd_block cd)
  get-cd cd es =
      get_element-get Tlv.cd (cd_block cd ∷ es) (cd_block cd) (encoding.get-first (cd_block cd) es)

  pub get-content :
      (cd : Cd) (content : Block)
      → content.type ≡ Tlv.content
      → get_element Tlv.content (cd_block cd ∷ content ∷ []) ≡ ok content
  get-content cd content e = get_element-get Tlv.content (cd_block cd ∷ content ∷ []) content (
      encoding.get-other Tlv.content (cd_block cd) (content ∷ []) (λ h. omega arith)
      ∙ subst (λ t. encoding.get t (content ∷ []) ≡ some content) e (encoding.get-first content []))

  -- What `wireEncode` writes for a packet, `onPacketReceived` passes on as that packet.
  pub on_packet_received-encode :
      (packet : Packet) → on_packet_received (wire_encode packet) ≡ some packet
  unfolding on_packet_received decode_sub decode_pub wire_encode
  on_packet_received-encode (sub cd) = rw (parse-sub cd, get-cd cd [], decode_cd-encode cd) refl
  on_packet_received-encode (pub_to_rp cd content) =
      rw
        (
          parse-pub cd content,
          get-cd cd (content_block content ∷ []),
          decode_cd-encode cd,
          get-content cd (content_block content) refl,
        )
        refl
  on_packet_received-encode (pub_from_rp cd content) =
      rw
        (
          parse-pub cd content,
          get-cd cd (content_block content ∷ []),
          decode_cd-encode cd,
          get-content cd (content_block content) refl,
        )
        refl
