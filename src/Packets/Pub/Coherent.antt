-- ===== src/Packets/Pub/Coherent.antt =====
-- What a publication encodes to, whatever was done to it before: the wire block that
-- src/lib/pub-to-rp.cpp and pub-from-rp.cpp keep never goes stale.
use f_copss.Packets.{Bytes, some, ok, Block, Cd, ℕ, Encoding}
use f_copss.Ndn.Tlv
use f_copss.Cd.Wired.{Wired}
use f_copss.Packets.Pub.{
  Pub, of_cd, from_rp, set_cd, set_content, set_content_block, wire_decode, wire_encode,
  get_content,
}
use f_copss.Prelude.{◌>>=◌, ◌≡◌}

module _ ⦃encoding : Encoding⦄ where
  -- What is done to a publication: made, decoded from a block, copied from the one to the rendezvous
  -- point, given another descriptor or content, or encoded.
  pub data Reached : ℕ → Pub → Type 0 where
    made : (type : ℕ) (cd : Cd) → Reached type (of_cd cd)
    decoded : (type : ℕ) (wire : Block) (p : Pub) → wire_decode type wire ≡ ok p → Reached type p
    copied : (p : Pub) → Reached Tlv.pub_to_rp p → Reached Tlv.pub_from_rp (from_rp p)
    cd_set : (type : ℕ) (cd : Cd) (p : Pub) → Reached type p → Reached type (set_cd cd p)
    content_set :
        (type : ℕ) (buffer : Bytes) (p : Pub) → Reached type p → Reached type (set_content buffer p)
    block_set :
        (type : ℕ) (block : Wired) (p : Pub)
        → Reached type p
        → Reached type (set_content_block block p)
    encoded_to :
        (type : ℕ) (wire : Block) (p after : Pub)
        → Reached type p
        → wire_encode type p ≡ ok (wire, after)
        → Reached type after

  -- The content is a content block, and a wire that is kept is one of this very publication.
  pub record IsCoherent (type : ℕ) (p : Pub) : Type 0 where
    pub content_type : (get_content p).type ≡ Tlv.content
    pub wire_decodes : (wire : Block) → p.wire ≡ some wire → wire_decode type wire ≡ ok p

  -- `wireEncode` returns, and a receiver of its block makes the publication of it.
  abbrev IsEncodable : ℕ → Pub → Type 0
  IsEncodable type p =
      (wire : Block) × (after : Pub) × (wire_encode type p ≡ ok (wire, after))
      × (wire_decode type wire ≡ ok after)
      × (after.cd ≡ p.cd)
      × (get_content after ≡ get_content p)
