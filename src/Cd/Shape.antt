-- ===== src/Cd/Shape.antt =====
-- The descriptors that a URI can denote: plain names, and names with one group of options.
use f_copss.Ndn.{Block}
use f_copss.Ndn.Tlv
use f_copss.Prelude.{List, [], ◌∷◌, ◌++◌, map, Bytes}

abbrev pub component : Bytes → Block
component w = record { type = Tlv.cd_component; value = w }

abbrev pub optional : Bytes → Block
optional w = record { type = Tlv.cd_optional; value = w }

abbrev pub asterisk : Block
asterisk = record { type = Tlv.cd_asterisk; value = [] }

-- `/a/b`, or `/before/opener(/options/closer)/first/after`.
pub data Shape : Type 0 where
  plain : List Bytes → Shape
  grouped : List Bytes → Bytes → List Bytes → Bytes → Bytes → List Bytes → Shape

abbrev pub blocks : Shape → List Block
blocks (plain words) = map component words
blocks (grouped before opener options closer first after) =
    map component before
    ++ (component opener
        ∷ (map optional options
            ++ (optional closer ∷ asterisk ∷ component first ∷ map component after)))
