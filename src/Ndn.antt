-- ===== src/Ndn.antt =====
-- The parts of ndn-cxx that the code uses, as an interface; and the TLV numbers of
-- include/fcopss/tlv.hpp.
pub mod Tlv
pub mod Wire
pub mod Encoding
use f_copss.Prelude.{ℕ, ◌≡◌, ◌↔◌, Bool, true, [], Bytes}

-- An `ndn::Block` as its accessors show it: `type()` and the octets from `value()` on.
pub record Block : Type 0 where
  pub type : ℕ
  pub value : Bytes

pub record Ndn : Type 0 where
  -- `operator==` of `ndn::Block`: documented to compare the type and the value.
  pub block_eq : Block → Block → Bool
  pub block_eq_iff : (a b : Block) → (block_eq a b ≡ true) ↔ (a ≡ b)
  -- `ndn::name::Component(const std::string&)`: a generic component with these octets.
  pub component : Bytes → Block
  pub component_lem : (w : Bytes) → component w ≡ record { type = 8; value = w }
  -- `ndn::encoding::makeStringBlock`, and the constructor of `Block` from a type alone.
  pub make_string_block : ℕ → Bytes → Block
  pub make_string_block_lem :
      (t : ℕ) (w : Bytes) → make_string_block t w ≡ record { type = t; value = w }
  pub empty_block : ℕ → Block
  pub empty_block_lem : (t : ℕ) → empty_block t ≡ record { type = t; value = [] }
