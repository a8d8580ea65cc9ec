-- ===== src/Cd/Asterisk.antt =====
-- src/lib/cd-asterisk.cpp: the constructor from a block, encoding, equality and order.
use f_copss.Prelude.{
  ◌++◌, bytes_eq, ◌&&◌, unexpected_type, ltb, not, ◌||◌, ◌==◌, length, if◌then◌else◌, Bytes, Bool,
  Result, [], none, some, ok, err,
}
use f_copss.Cd.Wired.{Wired, Memory, is_zero}
use f_copss.Cd.Order.{compare_values, compare_wires, less}
use f_copss.Cd.Index.{ℤ}
use f_copss.Ndn.{Ndn, Block}
use f_copss.Ndn.Encoding.{Encoding}
use f_copss.Ndn.Tlv

-- Each constructor with a value raises when there is one.
abbrev pub check_value : Wired → Result Wired
check_value asterisk = if ltb 0 (length asterisk.value) then err unexpected_type else ok asterisk

-- `Asterisk(const Block& wire)`, and `wireDecode`, which assigns what it makes.
unfoldable pub of_block : Wired → Result Wired
of_block wire = if not (wire.type == Tlv.cd_asterisk) then err unexpected_type else check_value wire

abbrev pub wire_decode : Wired → Wired → Result Wired
wire_decode wire asterisk = of_block wire

-- `Asterisk(const string& str)`, as the block that its accessors show.
unfoldable pub of_string : ⦃ndn : Ndn⦄ → Bytes → Result Block
of_string ⦃ndn⦄ str =
    let block = ndn.make_string_block Tlv.cd_asterisk str in
    if ltb 0 (length block.value) then err unexpected_type else ok block

abbrev pub empty : Wired → Bool
empty asterisk = length asterisk.value == 0

unfoldable pub equals : Wired → Wired → Bool
equals asterisk other =
    asterisk.type == other.type
    && length asterisk.value == length other.value
    && (empty asterisk || bytes_eq asterisk.value other.value)

module _ ⦃memory : Memory⦄ where
  unfoldable pub compare : Wired → Wired → ℤ
  compare asterisk other =
      compare_wires asterisk.wire other.wire (compare_values (empty asterisk) asterisk other)

  -- The relational operators.
  abbrev pub is_lt : Wired → Wired → Bool
  is_lt asterisk other = less (compare asterisk other)

  abbrev pub is_le : Wired → Wired → Bool
  is_le asterisk other = less (compare asterisk other) || is_zero (compare asterisk other)

  abbrev pub is_ge : Wired → Wired → Bool
  is_ge asterisk other = not (less (compare asterisk other))

  abbrev pub is_gt : Wired → Wired → Bool
  is_gt asterisk other =
      not (less (compare asterisk other)) && not (is_zero (compare asterisk other))

module _ ⦃encoding : Encoding⦄ where
  -- `wireEncode(encoder)`: value, length and type, each in front of the one before.
  abbrev pub encode : Wired → Bytes
  encode asterisk =
      let value = if ltb 0 (length asterisk.value) then asterisk.value else [] in
      encoding.var_number asterisk.type ++ (encoding.var_number (length asterisk.value) ++ value)

  -- `wireEncode()`: the block keeps its octets from then on.
  unfoldable pub wire_encode : Wired → Wired
  wire_encode asterisk = elim asterisk.wire [
    | some wire ↦ asterisk
    | none ↦ record asterisk { wire = some (encode asterisk) }
  ]
