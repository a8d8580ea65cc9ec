-- ===== src/Tests/WireInstance.antt =====
-- The interface of `fromBuffer`, filled for blocks with one octet of type and one of length.
use f_copss.Ndn.Wire.{Wire}
use f_copss.Prelude.{
  length-append, sym, none, ◌<◌, refl, zero, ◌∙◌, leb, arith, some, if◌then◌else◌, ap, drop, ◌≤◌,
  ◌++◌, ◌∷◌, Option, length, ◌≡◌, [], Bytes,
}
use Prim.Native.Nat.{suc, ℕ}

abbrev pub take : ℕ → Bytes → Bytes
take zero s = []
take (suc n) [] = []
take (suc n) (c ∷ s) = c ∷ take n s

take-drop : (n : ℕ) (s : Bytes) → s ≡ take n s ++ drop n s
take-drop zero s = refl
take-drop (suc n) [] = refl
take-drop (suc n) (c ∷ s) = ap (λ x. c ∷ x) (take-drop n s)

length-take : (n : ℕ) (s : Bytes) → n ≤ length s → length (take n s) ≡ n
length-take zero s l = refl
length-take (suc n) [] l = absurd (omega arith)
length-take (suc n) (c ∷ s) l = ap suc (length-take n s (omega arith))

pub take-append : (v other : Bytes) → take (length v) (v ++ other) ≡ v
take-append [] other = refl
take-append (c ∷ v) other = ap (λ x. c ∷ x) (take-append v other)

abbrev from_octets : Bytes → Option Bytes
from_octets (type ∷ size ∷ s) =
    if leb size (length s) then some (type ∷ size ∷ take size s) else none
from_octets _ = none

from_octets_inv :
    (type size : ℕ) (s w : Bytes)
    → from_octets (type ∷ size ∷ s) ≡ some w
    → (size ≤ length s) × (w ≡ type ∷ size ∷ take size s)
from_octets_inv type size s w e = ground arith

from_octets_lem :
    (type size : ℕ) (s : Bytes)
    → size ≤ length s
    → from_octets (type ∷ size ∷ s) ≡ some (type ∷ size ∷ take size s)
from_octets_lem type size s l = ground arith

pub front_model : (s w : Bytes) → from_octets s ≡ some w → (rest : Bytes) × (s ≡ w ++ rest)
front_model [] w e = absurd cc
front_model (type ∷ []) w e = absurd cc
front_model (type ∷ size ∷ s) w e =
    let (l, same) = from_octets_inv type size s w e in
    (
      drop size s,
      ap (λ x. type ∷ size ∷ x) (take-drop size s) ∙ sym (ap (λ x. x ++ drop size s) same),
    )

pub positive_model : (s w : Bytes) → from_octets s ≡ some w → 0 < length w
positive_model [] w e = absurd cc
positive_model (type ∷ []) w e = absurd cc
positive_model (type ∷ size ∷ s) w e =
    let (l, same) = from_octets_inv type size s w e in omega (arith, ap length same)

pub local_model :
    (w rest other : Bytes) → from_octets (w ++ rest) ≡ some w → from_octets (w ++ other) ≡ some w
local_model [] [] other e = absurd cc
local_model [] (t ∷ []) other e = absurd cc
local_model [] (t ∷ n ∷ s) other e = absurd (omega (arith, positive_model (t ∷ n ∷ s) [] e))
local_model (t ∷ []) [] other e = absurd cc
local_model (t ∷ []) (n ∷ s) other e =
    absurd (omega (arith, ap length (from_octets_inv t n s (t ∷ []) e).1))
local_model (t ∷ n ∷ v) rest other e =
    let (l, same) = from_octets_inv t n (v ++ rest) (t ∷ n ∷ v) e in
    let size : length v ≡ n = omega (arith, ap length same, length-take n (v ++ rest) l) in
    let taken : take n (v ++ other) ≡ v =
      ap (λ k. take k (v ++ other)) (sym size) ∙ take-append v other in
    from_octets_lem t n (v ++ other) (omega (arith, length-append v other))
    ∙ ap (λ x. some (t ∷ n ∷ x)) taken

instance abbrev pub wire_model : Wire
wire_model = record {
  from_buffer = from_octets;
  from_buffer-front = front_model;
  from_buffer-positive = positive_model;
  from_buffer-local = local_model;
}
