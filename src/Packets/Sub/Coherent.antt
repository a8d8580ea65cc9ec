-- ===== src/Packets/Sub/Coherent.antt =====
-- What a subscription encodes to, whatever was done to it before: the wire block that
-- src/lib/sub.cpp keeps never goes stale.
use f_copss.Packets.Wire.{decode_cd-encode, get-cd, parse-sub}
use f_copss.Packets.{decode_cd, not, [], get_element, parse_value, none, some, ok, decode_sub}
use f_copss.Ndn.Tlv
use f_copss.Router.Forwarder.{sub}
use f_copss.Ndn.{Block}
use f_copss.Packets.Sub.{
  Option, Cd, Encoding, Sub, of_cd, set_cd, wire_decode, wire_encode, encoded,
}
use f_copss.Prelude.{◌==◌, if-eq-ok, refl, bind-eq-ok, ◌≡◌, arith, ◌>>=◌, subst}

module _ ⦃encoding : Encoding⦄ where
  -- What is done to a subscription: made, decoded from a block, given another descriptor, encoded.
  pub data Reached : Sub → Type 0 where
    made : (cd : Cd) → Reached (of_cd cd)
    decoded : (wire : Block) (s : Sub) → wire_decode wire ≡ ok s → Reached s
    cd_set : (cd : Cd) (s : Sub) → Reached s → Reached (set_cd cd s)
    encoded_to :
        (wire : Block) (s after : Sub)
        → Reached s
        → wire_encode s ≡ ok (wire, after)
        → Reached after

  -- A wire that is kept is one of this very subscription.
  abbrev pub IsCoherent : Sub → Type 0
  IsCoherent s = (wire : Block) → s.wire ≡ some wire → wire_decode wire ≡ ok s

  wire_decode-wire : (wire : Block) (s : Sub) → wire_decode wire ≡ ok s → s.wire ≡ some wire
  unfolding wire_decode
  wire_decode-wire wire s e =
      let (es, parsed, e₁) = bind-eq-ok (parse_value wire.value) _ e in
      let (block, found, e₂) =
        bind-eq-ok (get_element Tlv.cd es) _ (if-eq-ok (not (wire.type == Tlv.sub)) _ _ s e₁) in
      let (cd, read, e₃) = bind-eq-ok (decode_cd block) _ e₂ in ground (arith, e₃)

  wire_decode-IsCoherent : (wire : Block) (s : Sub) → wire_decode wire ≡ ok s → IsCoherent s
  wire_decode-IsCoherent wire s e other kept = let same = wire_decode-wire wire s e in cc

  unkept-IsCoherent : (s : Sub) → s.wire ≡ none → IsCoherent s
  unkept-IsCoherent s unkept wire kept = ground (arith, unkept, kept)

  wire_decode-encoded :
      (s : Sub) → wire_decode (encoded s) ≡ ok (record { cd = s.cd; wire = some (encoded s) })
  unfolding wire_decode encoded
  wire_decode-encoded s = rw (parse-sub s.cd, get-cd s.cd [], decode_cd-encode s.cd) refl

  -- The receiver of a block reads from it what the object that is made from it holds.
  decode_sub-wire_decode :
      (wire : Block) → decode_sub wire ≡ (do s ← wire_decode wire; ok (sub s.cd))
  unfolding decode_sub wire_decode
  decode_sub-wire_decode wire = ground arith

  -- `wireEncode` returns, and a receiver of its block makes the subscription of it.
  abbrev IsEncodable : Sub → Type 0
  IsEncodable s =
      (wire : Block) × (after : Sub) × (wire_encode s ≡ ok (wire, after))
      × (wire_decode wire ≡ ok after)
      × (after.cd ≡ s.cd)

  IsCoherent-IsEncodable :
      (s : Sub) (kept : Option Block) → s.wire ≡ kept → IsCoherent s → IsEncodable s
  unfolding wire_encode wire_decode encoded
  IsCoherent-IsEncodable s none e coherent =
      let again = wire_decode-encoded s in (encoded s, _, rw (e, again) refl, again, refl)
  IsCoherent-IsEncodable s (some wire) e coherent = (wire, s, rw e refl, coherent wire e, refl)

  wire_encode-IsCoherent :
      (wire : Block) (s after : Sub)
      → IsCoherent s
      → wire_encode s ≡ ok (wire, after)
      → IsCoherent after
  wire_encode-IsCoherent wire s after coherent e =
      let (_, other, e₁, decodes, _) = IsCoherent-IsEncodable s s.wire refl coherent in
      subst IsCoherent (cc) (wire_decode-IsCoherent _ other decodes)

  Reached-IsCoherent : (s : Sub) → Reached s → IsCoherent s
  unfolding of_cd set_cd
  Reached-IsCoherent _ (made cd) = unkept-IsCoherent _ refl
  Reached-IsCoherent _ (decoded wire s e) = wire_decode-IsCoherent wire s e
  Reached-IsCoherent _ (cd_set cd s reached) = unkept-IsCoherent _ refl
  Reached-IsCoherent _ (encoded_to wire s after reached e) =
      wire_encode-IsCoherent wire s after (Reached-IsCoherent s reached) e

  -- Whatever was done to a subscription, `wireEncode` returns a block, from which a receiver decodes
  -- the descriptor that the subscription has now; and that stays what it is.
  pub wire_encode-cd :
      (s : Sub)
      → Reached s
      → (wire : Block) × (after : Sub) × (wire_encode s ≡ ok (wire, after))
        × (decode_sub wire ≡ ok (sub s.cd))
        × (after.cd ≡ s.cd)
  wire_encode-cd s reached =
      let (wire, after, e, decodes, same) =
        IsCoherent-IsEncodable s s.wire refl (Reached-IsCoherent s reached) in
      (wire, after, e, rw (decode_sub-wire_decode wire, decodes, same) refl, same)
