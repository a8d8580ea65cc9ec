-- ===== src/Cd/Optional.antt =====
-- src/lib/cd-optional.cpp: the constructor from a block, encoding, equality and order.
use f_copss.Prelude.{
  ◌++◌, bytes_eq, ltb, ◌&&◌, unexpected_type, not, ◌||◌, ◌==◌, length, if◌then◌else◌, Bytes, Bool,
  Result, [], none, some, ok, err,
}
use f_copss.Cd.Wired.{Wired, Memory, is_zero}
use f_copss.Cd.Order.{compare_values, compare_wires, less}
use f_copss.Cd.Index.{ℤ}
use f_copss.Ndn.Encoding.{Encoding}
use f_copss.Ndn.Tlv

-- `Optional(const Block& wire)`, and `wireDecode`, which assigns what it makes.
abbrev pub of_block : Wired → Result Wired
of_block wire = if not (wire.type == Tlv.cd_optional) then err unexpected_type else ok wire

abbrev pub wire_decode : Wired → Wired → Result Wired
wire_decode wire optional = of_block wire

abbrev pub empty : Wired → Bool
empty optional = length optional.value == 0

unfoldable pub equals : Wired → Wired → Bool
equals optional other =
    optional.type == other.type
    && length optional.value == length other.value
    && (empty optional || bytes_eq optional.value other.value)

module _ ⦃memory : Memory⦄ where
  unfoldable pub compare : Wired → Wired → ℤ
  compare optional other =
      compare_wires optional.wire other.wire (compare_values (empty optional) optional other)

  -- The relational operators.
  abbrev pub is_lt : Wired → Wired → Bool
  is_lt optional other = less (compare optional other)

  abbrev pub is_le : Wired → Wired → Bool
  is_le optional other = less (compare optional other) || is_zero (compare optional other)

  abbrev pub is_ge : Wired → Wired → Bool
  is_ge optional other = not (less (compare optional other))

  abbrev pub is_gt : Wired → Wired → Bool
  is_gt optional other =
      not (less (compare optional other)) && not (is_zero (compare optional other))

module _ ⦃encoding : Encoding⦄ where
  -- `wireEncode(encoder)`: value, length and type, each in front of the one before.
  abbrev pub encode : Wired → Bytes
  encode optional =
      let value = if ltb 0 (length optional.value) then optional.value else [] in
      encoding.var_number optional.type ++ (encoding.var_number (length optional.value) ++ value)

  -- `wireEncode()`: the block keeps its octets from then on.
  unfoldable pub wire_encode : Wired → Wired
  wire_encode optional = elim optional.wire [
    | some wire ↦ optional
    | none ↦ record optional { wire = some (encode optional) }
  ]
