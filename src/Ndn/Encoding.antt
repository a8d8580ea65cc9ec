-- ===== src/Ndn/Encoding.antt =====
-- The encoder and the parser of ndn-cxx, as an interface.
use f_copss.Ndn.{[], Block}
use f_copss.Prelude.{◌≢◌, ◌∷◌, none, some, ◌≡◌, length, List, ◌++◌, Option, Bytes}
use Prim.Native.Nat.{ℕ}

pub record Encoding : Type 0 where
  -- The octets that `prependVarNumber` puts in front.
  pub var_number : ℕ → Bytes
  -- The elements that `Block::parse` finds in a value; `none` is the exception of an ill-formed one.
  pub parse : Bytes → Option (List Block)
  pub parse-nil : parse [] ≡ some []
  -- A type, a length and so many octets are one element, and the rest is parsed behind it.
  pub parse-cons :
      (type : ℕ) (v rest : Bytes) (es : List Block)
      → parse rest ≡ some es
      → parse ((var_number type ++ (var_number (length v) ++ v)) ++ rest)
        ≡ some (record { type = type; value = v } ∷ es)
  -- `Block::get`: the first element of the type; `none` is the exception when there is none.
  pub get : ℕ → List Block → Option Block
  pub get-nil : (type : ℕ) → get type [] ≡ none
  pub get-first : (e : Block) (es : List Block) → get e.type (e ∷ es) ≡ some e
  pub get-other :
      (type : ℕ) (e : Block) (es : List Block) → e.type ≢ type → get type (e ∷ es) ≡ get type es

module _ ⦃encoding : Encoding⦄ where
  -- `prependVarNumber(totalLength)` and `prependVarNumber(type)` in front of a value.
  abbrev pub tlv : ℕ → Bytes → Bytes
  tlv type v = encoding.var_number type ++ (encoding.var_number (length v) ++ v)
