-- ===== src/Ndn/Tlv.antt =====
-- The enumeration of include/fcopss/tlv.hpp.
use f_copss.Prelude.{ℕ}

abbrev pub sub : ℕ
sub = 65

abbrev pub pub_to_rp : ℕ
pub_to_rp = 66

abbrev pub pub_from_rp : ℕ
pub_from_rp = 67

abbrev pub cd : ℕ
cd = 70

-- The generic name component of NDN.
abbrev pub cd_component : ℕ
cd_component = 8

abbrev pub cd_optional : ℕ
cd_optional = 81

abbrev pub cd_asterisk : ℕ
cd_asterisk = 82

abbrev pub content : ℕ
content = 21
