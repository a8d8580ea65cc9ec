-- ===== src/Tests/EncodingInstance.antt =====
-- The interface of the encoder, filled for types and lengths that take one octet each, and a
-- packet that is written and read.
use f_copss.Prelude.Text.{codes}
use f_copss.Prelude.{
  ◌≢◌, ◌==◌, ◌∙◌, drop-append, ap, length-append, inr, zero, true, inl, leb, Bool-cases,
  if◌then◌else◌, ◌++◌, arith, drop, refl, none, ◌≤◌, length, some, ◌≡◌, [], List, ◌∷◌, Bytes,
  Option,
}
use f_copss.Tests.Samples.{match_point_cd}
use f_copss.Ndn.Encoding.{Encoding}
use f_copss.Ndn.{Block}
use Prim.Native.Nat.{suc, ℕ}
use f_copss.Tests.WireInstance.{take, take-append}
use f_copss.Packets.Wire
use f_copss.Router.Forwarder.{pub_to_rp}
use f_copss.Packets.{on_packet_received, wire_encode}

abbrev onto_blocks : Block → Option (List Block) → Option (List Block)
onto_blocks b none = none
onto_blocks b (some bs) = some (b ∷ bs)

abbrev parse_octets : ℕ → Bytes → Option (List Block)
parse_octets n [] = some []
parse_octets zero (c ∷ s) = none
parse_octets (suc n) (type ∷ []) = none
parse_octets (suc n) (type ∷ size ∷ s) =
    let rest = parse_octets n (drop size s) in
    if leb size (length s)
    then onto_blocks (record { type = type; value = take size s }) rest
    else none

onto_blocks_inv :
    (b : Block) (o : Option (List Block)) (es : List Block)
    → onto_blocks b o ≡ some es
    → (bs : List Block) × (o ≡ some bs) × (es ≡ b ∷ bs)
onto_blocks_inv b none es e = absurd cc
onto_blocks_inv b (some bs) es e = (bs, refl, cc)

-- More rounds do not change what was parsed.
parse_octets_more :
    (m n : ℕ) (s : Bytes) (es : List Block)
    → m ≤ n
    → parse_octets m s ≡ some es
    → parse_octets n s ≡ some es
parse_octets_more m n [] es l e = e
parse_octets_more zero n (c ∷ s) es l e = absurd cc
parse_octets_more (suc m) zero (c ∷ s) es l e = absurd (omega arith)
parse_octets_more (suc m) (suc n) (type ∷ []) es l e = absurd cc
parse_octets_more (suc m) (suc n) (type ∷ size ∷ s) es l e =
    elim (Bool-cases (leb size (length s))) [
      | inl fits ↦
          let block : Block = record { type = type; value = take size s } in
          let (bs, parsed, same) =
            onto_blocks_inv block (parse_octets m (drop size s)) es (rw fits at e) in
          let more = parse_octets_more m n (drop size s) bs (omega arith) parsed in
          rw (fits, more, same) refl
      | inr short ↦ absurd (ground arith)
    ]

pub parse_cons_model :
    (type : ℕ) (v rest : Bytes) (es : List Block)
    → parse_octets (length rest) rest ≡ some es
    → parse_octets (suc (suc (length (v ++ rest)))) (type ∷ length v ∷ (v ++ rest))
      ≡ some (record { type = type; value = v } ∷ es)
parse_cons_model type v rest es e =
    let fits : leb (length v) (length (v ++ rest)) ≡ true = ground (arith, length-append v rest) in
    let behind : parse_octets (suc (length (v ++ rest))) (drop (length v) (v ++ rest)) ≡ some es =
      ap (parse_octets (suc (length (v ++ rest)))) (drop-append v rest)
      ∙ parse_octets_more (length rest) (suc (length (v ++ rest))) rest es
          (omega (arith, length-append v rest)) e in
    rw (fits, behind, take-append v rest) refl

abbrev first_of : ℕ → List Block → Option Block
first_of type [] = none
first_of type (e ∷ es) = if e.type == type then some e else first_of type es

pub first_of-here : (e : Block) (es : List Block) → first_of e.type (e ∷ es) ≡ some e
first_of-here e es = ground arith

pub first_of-other :
    (type : ℕ) (e : Block) (es : List Block)
    → e.type ≢ type
    → first_of type (e ∷ es) ≡ first_of type es
first_of-other type e es other = ground arith

instance abbrev pub encoding_model : Encoding
encoding_model = record {
  var_number = λ n. n ∷ [];
  parse = λ s. parse_octets (length s) s;
  parse-nil = refl;
  parse-cons = parse_cons_model;
  get = first_of;
  get-nil = λ type. refl;
  get-first = first_of-here;
  get-other = first_of-other;
}

on_packet_received-encode_example :
    on_packet_received (wire_encode (pub_to_rp match_point_cd (codes "hi")))
    ≡ some (pub_to_rp match_point_cd (codes "hi"))
on_packet_received-encode_example =
    Wire.on_packet_received-encode (pub_to_rp match_point_cd (codes "hi"))
