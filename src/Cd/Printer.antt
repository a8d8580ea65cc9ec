-- ===== src/Cd/Printer.antt =====
-- src/lib/cd.cpp: `operator<<` and `toUri`; src/lib/cd-optional.cpp and cd-asterisk.cpp: `toUri`.
use f_copss.Prelude.{
  ◌%◌, ◌+◌, ◌||◌, ◌==◌, true, ◌++◌, ltb, not, ◌&&◌, ◌≡◌, All, [], ◌∷◌, if◌then◌else◌, false, leb,
  Bool, Bytes,
}
use Prim.Native.Nat.{◌/◌, ℕ}
use f_copss.Cd.{List, Cd}
use f_copss.Ndn.{Block}
use f_copss.Ndn.Tlv

-- The byte `0x2e`.
abbrev pub period : ℕ
period = b'.'

-- The bytes that are not escaped: digits, letters, and `+ - . _`.
abbrev pub is_unreserved : ℕ → Bool
is_unreserved x =
    (leb 48 x && leb x 57)
    || (leb 65 x && leb x 90)
    || (leb 97 x && leb x 122)
    || x == b'+'
    || x == b'-'
    || x == period
    || x == b'_'

-- The loop that looks for a byte other than a period.
unfoldable pub got_non_dot : Bytes → Bool
got_non_dot [] = false
got_non_dot (x ∷ s) = if not (x == period) then true else got_non_dot s

abbrev pub hex_digit : ℕ → ℕ
hex_digit n = if ltb n 10 then 48 + n else 55 + n

-- `os << hex << uppercase << uint32_t(x)` of a byte.
abbrev pub put_hex : ℕ → Bytes
put_hex x = if ltb x 16 then hex_digit x ∷ [] else hex_digit (x / 16) ∷ hex_digit (x % 16) ∷ []

abbrev pub put_byte : ℕ → Bytes
put_byte x =
    if is_unreserved x then x ∷ [] else b'%' ∷ ((if ltb x 16 then b'0' ∷ [] else []) ++ put_hex x)

unfoldable pub put_bytes : Bytes → Bytes
put_bytes [] = []
put_bytes (x ∷ s) = put_byte x ++ put_bytes s

unfoldable pub put_dots : Bytes → Bytes
put_dots [] = []
put_dots (x ∷ s) = period ∷ put_dots s

-- `Optional::toUri`, on the value.
unfoldable pub optional_uri : Bytes → Bytes
unfolding got_non_dot put_bytes put_dots
optional_uri value =
    if not (got_non_dot value) then period ∷ period ∷ period ∷ put_dots value else put_bytes value

-- `Asterisk::toUri`.
abbrev pub asterisk_uri : Bytes
asterisk_uri = []

-- A word that needs no escape.
abbrev pub IsPlainWord : Bytes → Type 0
IsPlainWord w = All (λ x. is_unreserved x ≡ true) w × (got_non_dot w ≡ true)

-- `toUri` of an `ndn::name::Component`, as an interface: a component of unreserved bytes, not all of
-- them periods, is printed as it is.
pub record ComponentUri : Type 0 where
  pub component_uri : Bytes → Bytes
  pub component_uri_plain : (w : Bytes) → IsPlainWord w → component_uri w ≡ w

module _ ⦃uri : ComponentUri⦄ where
  -- The loop of `operator<<`; `first` says that no option has been printed.
  unfoldable pub print_elements : Bool → List Block → Bytes
  unfolding optional_uri
  print_elements first [] = []
  print_elements first (e ∷ es) =
      if e.type == Tlv.cd_optional
      then (if first then b'(' ∷ [] else [])
        ++ (b'/' ∷ (optional_uri e.value ++ print_elements false es))
      else (let rest = print_elements first es in
          if e.type == Tlv.cd_asterisk
          then b')' ∷ (asterisk_uri ++ rest)
          else b'/' ∷ (uri.component_uri e.value ++ rest))

  unfoldable pub to_uri : Cd → Bytes
  unfolding print_elements
  to_uri cd = elim cd.elements [ [] ↦ b'/' ∷ [] | e ∷ es ↦ print_elements true (e ∷ es) ]
