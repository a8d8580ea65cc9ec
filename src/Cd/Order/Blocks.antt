-- ===== src/Cd/Order/Blocks.antt =====
-- The order of two blocks is the canonical one, whether their octets are compared or their values.
use f_copss.Prelude.{false, subst}
use f_copss.Prelude.{◌+◌, ◌≤◌, ◌-◌, if◌then◌else◌, not, suc, sym}
use f_copss.Prelude.{◌^◌, ◌⊎◌, ◌<◌, ◌≡◌, refl, arith, zero, none, some, inl, inr, ap, ◌∙◌, true}
use f_copss.Cd.Order.{compare_wires, Bool, Bytes, length, compare_blocks, compare_values}
use f_copss.Cd.Order.Canonical.{canonical, compare_first-swapped}
use f_copss.Cd.Order.Octets.{
  number, octets, width, length-number, compare_first-number, compare_first-lt,
}
use f_copss.Cd.Wired.{
  Wired, Memory, sub_u32, sub_size, to_int, sign, is_zero, min, and_then, compare_first,
}
use f_copss.Cd.Index.{ℤ, pos, negsuc}
use f_copss.Ndn.{Block}
use mathlib.Core.Path.{ap₂}
use native.Mathlib.Decide.{dec_lt}
use Prim.Native.Nat.{ℕ, compare, Ordering}

-- A block whose type and length are within the range of `int`.
abbrev pub IsSmall : Block → Type 0
IsSmall b = (b.type < 2 ^ 31) × (length b.value < 2 ^ 31)

-- What a block keeps as its octets, if anything, are the octets that encode it.
abbrev pub IsWired : Wired → Type 0
IsWired b = IsSmall b.block × ((b.wire ≡ none) ⊎ (b.wire ≡ some (octets b.block)))

pub sign_u32 : (a b : ℕ) → a < 2 ^ 31 → b < 2 ^ 31 → sign (to_int (sub_u32 a b)) ≡ compare a b
sign_u32 a b l k = ground arith

pub sign_size : (a b : ℕ) → a < 2 ^ 31 → b < 2 ^ 31 → sign (to_int (sub_size a b)) ≡ compare a b
sign_size a b l k = ground arith

-- A test that was not zero decides.
sign_first :
    (z w : ℤ) (o p : Ordering)
    → sign z ≡ o
    → (o ≡ Ordering.eq → sign w ≡ p)
    → sign (if not (is_zero z) then z else w) ≡ and_then o p
sign_first (pos zero) w o p e f = f (sym e) ∙ ap (λ x. and_then x p) e
sign_first (pos (suc n)) w o p e f = ap (λ x. and_then x p) e
sign_first (negsuc n) w o p e f = ap (λ x. and_then x p) e

and_then-cong : (o p q : Ordering) → (o ≡ Ordering.eq → p ≡ q) → and_then o p ≡ and_then o q
and_then-cong Ordering.lt p q f = refl
and_then-cong Ordering.eq p q f = f refl
and_then-cong Ordering.gt p q f = refl

compare_eq : (m n : ℕ) → compare m n ≡ Ordering.eq → m ≡ n
compare_eq m n e = ground arith

-- Two numbers in front of what follows.
compare_first-numbers :
    (m n k : ℕ) (a b : Bytes)
    → m < 2 ^ 31
    → n < 2 ^ 31
    → (m ≤ n → width m ≤ k)
    → (n ≤ m → width n ≤ k)
    → compare_first k (number m a) (number n b)
      ≡ and_then (compare m n) (compare_first (k - width m) a b)
compare_first-numbers m n k a b l u w x = elim (dec_lt m n) [
  | yes less ↦
      let c : compare m n ≡ Ordering.lt = ground arith in
      rw c (compare_first-lt m n k a b less u (w (omega arith)))
  | no more ↦ elim (dec_lt n m) [
    | yes less ↦
        let c : compare m n ≡ Ordering.gt = ground arith in
        compare_first-swapped k (number n b) (number m a)
        ∙ rw (c, compare_first-lt n m k b a less l (x (omega arith))) refl
    | no same ↦
        let e : n ≡ m = omega arith in
        let c : compare m m ≡ Ordering.eq = ground arith in
        rw (e, c) (compare_first-number m k a b (w (omega arith)))
  ]
]

width-le : (m n : ℕ) → m ≤ n → width m ≤ width n
width-le m n l = ground arith

le_min : (n x y : ℕ) → n ≤ x → n ≤ y → n ≤ min x y
le_min n x y l k = ground arith

le_rest : (w n k : ℕ) → w + n ≤ k → n ≤ k - w
le_rest w n k l = omega arith

min_self : (x : ℕ) → min x x ≡ x
min_self x = ground arith

length-octets :
    (b : Block) → length (octets b) ≡ width b.type + (width (length b.value) + length b.value)
length-octets b =
    length-number b.type (number (length b.value) b.value)
    ∙ ap (λ n. width b.type + n) (length-number (length b.value) b.value)

-- What is compared has room for the numbers of the block that comes first.
type_fits :
    (a b : Block) → a.type ≤ b.type → width a.type ≤ min (length (octets a)) (length (octets b))
type_fits a b l =
    let w = width-le a.type b.type l in
    le_min (width a.type) (length (octets a)) (length (octets b)) (omega (arith, length-octets a))
      (omega (arith, length-octets b))

length_fits :
    (a b : Block)
    → a.type ≡ b.type
    → length a.value ≤ length b.value
    → width (length a.value) ≤ min (length (octets a)) (length (octets b)) - width a.type
length_fits a b e l =
    let w = width-le (length a.value) (length b.value) l in
    let v : width a.type ≡ width b.type = ap width e in
    le_rest (width a.type) (width (length a.value)) _ (
      le_min (width a.type + width (length a.value)) (length (octets a)) (length (octets b))
        (omega (arith, length-octets a)) (omega (arith, length-octets b)))

min_comm : (x y : ℕ) → min x y ≡ min y x
min_comm x y = ground arith

same_octets :
    (a b : Block)
    → a.type ≡ b.type
    → length a.value ≡ length b.value
    → min (length (octets a)) (length (octets b)) - width a.type - width (length a.value)
      ≡ length a.value
same_octets a b e f =
    let same : length (octets b) ≡ length (octets a) =
      length-octets b ∙ sym (length-octets a ∙ ap₂ (λ t n. width t + (width n + n)) e f) in
    rw (same, min_self (length (octets a)), length-octets a) (omega arith)

compare_octets :
    (a b : Block)
    → IsSmall a
    → IsSmall b
    → compare_first (min (length (octets a)) (length (octets b))) (octets a) (octets b)
      ≡ canonical a b
unfolding canonical
compare_octets a b (t, l) (u, m) =
    let k = min (length (octets a)) (length (octets b)) in
    let other = min_comm (length (octets b)) (length (octets a)) in
    compare_first-numbers a.type b.type k (number (length a.value) a.value)
      (number (length b.value) b.value) t u (type_fits a b)
      (λ le. subst (λ x. width b.type ≤ x) other (type_fits b a le))
    ∙ and_then-cong (compare a.type b.type) _ _ λ same_type.
      let e = compare_eq a.type b.type same_type in
      compare_first-numbers (length a.value) (length b.value) (k - width a.type) a.value b.value l m
        (length_fits a b e)
        (λ le.
          subst (λ x. width (length b.value) ≤ x) (ap₂ (λ j type. j - width type) other (sym e))
            (length_fits b a (sym e) le))
      ∙ and_then-cong (compare (length a.value) (length b.value)) _ _ λ same_length.
        ap (λ n. compare_first n a.value b.value)
          (same_octets a b e (compare_eq (length a.value) (length b.value) same_length))

module _ ⦃memory : Memory⦄ where
  -- The early answer of an empty block is right.
  abbrev pub IsEarly : Bool → Wired → Wired → Type 0
  IsEarly empty a b = empty ≡ true → compare_first (length a.value) a.value b.value ≡ Ordering.eq

  compare_contents :
      (empty : Bool) (a b : Wired)
      → IsEarly empty a b
      → length a.value ≡ length b.value
      → sign (if empty then pos 0 else memory.memcmp (length a.value) a.value b.value)
        ≡ compare_first (length a.value) a.value b.value
  compare_contents true a b early same = sym (early refl)
  compare_contents false a b early same =
      memory.memcmp-sign (length a.value) a.value b.value (omega arith) (omega arith)

  compare_values-canonical :
      (empty : Bool) (a b : Wired)
      → IsEarly empty a b
      → IsSmall a.block
      → IsSmall b.block
      → sign (compare_values empty a b) ≡ canonical a.block b.block
  unfolding canonical
  compare_values-canonical empty a b early (t, l) (u, m) =
      sign_first (to_int (sub_u32 a.type b.type)) _ _ _ (sign_u32 a.type b.type t u) λ same_type.
        sign_first (to_int (sub_size (length a.value) (length b.value))) _ _ _
          (sign_size (length a.value) (length b.value) l m)
          λ same_length.
            compare_contents empty a b early
              (compare_eq (length a.value) (length b.value) same_length)

  compare_octets-canonical :
      (a b : Wired) (w v : Bytes)
      → IsSmall a.block
      → IsSmall b.block
      → w ≡ octets a.block
      → v ≡ octets b.block
      → sign (memory.memcmp (min (length w) (length v)) w v) ≡ canonical a.block b.block
  compare_octets-canonical a b w v s r e f =
      memory.memcmp-sign (min (length w) (length v)) w v (ground arith) (ground arith)
      ∙ rw (e, f) (compare_octets a.block b.block s r)

  pub compare_wires-canonical :
      (empty : Bool) (a b : Wired)
      → IsEarly empty a b
      → IsWired a
      → IsWired b
      → sign (compare_wires a.wire b.wire (compare_values empty a b)) ≡ canonical a.block b.block
  compare_wires-canonical empty a b early (s, inl e) (r, other) =
      rw e (compare_values-canonical empty a b early s r)
  compare_wires-canonical empty a b early (s, inr e) (r, inl f) =
      rw (e, f) (compare_values-canonical empty a b early s r)
  compare_wires-canonical empty a b early (s, inr e) (r, inr f) =
      rw (e, f) (compare_octets-canonical a b _ _ s r refl refl)

  -- `compare` of two blocks has the sign of the canonical order, by type, length of the value and
  -- octets, no matter which of them keep their encoding.
  pub compare_blocks-canonical :
      (a b : Wired) → IsWired a → IsWired b → sign (compare_blocks a b) ≡ canonical a.block b.block
  unfolding compare_blocks
  compare_blocks-canonical a b v w =
      compare_wires-canonical (memory.is_empty a.block) a b
        (λ empty. absurd (omega (arith, memory.is_empty-type a.block empty, v.0.0))) v w
