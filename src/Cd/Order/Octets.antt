-- ===== src/Cd/Order/Octets.antt =====
-- The order of the octets of encoded blocks. Types and lengths are numbers of the format that the
-- specification of NDN packets gives: one octet below 253, or a mark and a big-endian number.
use f_copss.Prelude.{◌-◌, ◌⊎◌, inl, inr, ap, ◌∙◌, Bool-cases, true, ◌++◌}
use f_copss.Prelude.{
  ◌≤◌, ◌%◌, ◌^◌, ◌≡◌, ltb, ◌<◌, ◌+◌, length, if◌then◌else◌, Bytes, [], ◌∷◌, refl, arith, zero, suc,
}
use f_copss.Cd.Wired.{compare_first}
use f_copss.Ndn.{Block}
use native.Mathlib.Decide.{dec_lt}
use Prim.Native.Nat.{◌/◌, ℕ, Ordering}

abbrev pub big_2 : ℕ → Bytes → Bytes
big_2 n rest = (n / 2 ^ 8) ∷ (n % 2 ^ 8) ∷ rest

abbrev pub big_4 : ℕ → Bytes → Bytes
big_4 n rest = big_2 (n / 2 ^ 16) (big_2 (n % 2 ^ 16) rest)

-- In front of what follows.
unfoldable pub number : ℕ → Bytes → Bytes
number n rest =
    if ltb n 253
    then n ∷ rest
    else if ltb n (2 ^ 16)
    then 253 ∷ big_2 n rest
    else if ltb n (2 ^ 32)
    then 254 ∷ big_4 n rest
    else 255 ∷ big_4 (n / 2 ^ 32) (big_4 (n % 2 ^ 32) rest)

-- The octets of a block.
abbrev pub octets : Block → Bytes
octets b = number b.type (number (length b.value) b.value)

-- Places after which `memcmp` surely sees more than the numbers.
abbrev pub width : ℕ → ℕ
width n = if ltb n 253 then 1 else if ltb n (2 ^ 16) then 3 else if ltb n (2 ^ 32) then 5 else 9

pub length-number : (n : ℕ) (rest : Bytes) → length (number n rest) ≡ width n + length rest
unfolding number
length-number n rest = ground arith

compare_first-append :
    (p : Bytes) (k : ℕ) (a b : Bytes)
    → compare_first (length p + k) (p ++ a) (p ++ b) ≡ compare_first k a b
unfolding compare_first
compare_first-append [] k a b = let e : 0 + k ≡ k = omega arith in rw e refl
compare_first-append (x ∷ p) k a b =
    let e : suc (length p) + k ≡ suc (length p + k) = omega arith in
    rw e (ground (arith, compare_first-append p k a b))

number-append : (n : ℕ) (a : Bytes) → number n a ≡ number n [] ++ a
unfolding number
number-append n a = elim (Bool-cases (ltb n 253)) [
  | inl e ↦ rw e refl
  | inr e ↦ elim (Bool-cases (ltb n (2 ^ 16))) [
    | inl f ↦ rw (e, f) refl
    | inr f ↦ elim (Bool-cases (ltb n (2 ^ 32))) [
      | inl g ↦ rw (e, f, g) refl
      | inr g ↦ rw (e, f, g) refl
    ]
  ]
]

-- The same number in front makes no difference.
pub compare_first-number :
    (n k : ℕ) (a b : Bytes)
    → width n ≤ k
    → compare_first k (number n a) (number n b) ≡ compare_first (k - width n) a b
compare_first-number n k a b l =
    let e : k ≡ length (number n []) + (k - width n) = omega (arith, length-number n []) in
    ap (λ j. compare_first j (number n a) (number n b)) e
    ∙ rw (number-append n a, number-append n b)
        (compare_first-append (number n []) (k - width n) a b)

octet-lt :
    (x y k : ℕ) (a b : Bytes)
    → 0 < k
    → (x < y) ⊎ ((x ≡ y) × (compare_first (k - 1) a b ≡ Ordering.lt))
    → compare_first k (x ∷ a) (y ∷ b) ≡ Ordering.lt
unfolding compare_first
octet-lt x y zero a b l cases = absurd (omega arith)
octet-lt x y (suc k) a b l (inl less) = ground arith
octet-lt x y (suc k) a b l (inr (same, later)) =
    let e : suc k - 1 ≡ k = omega arith in
    let before : compare_first k a b ≡ Ordering.lt = rw e at later in ground arith

big_2-lt :
    (m n k : ℕ) (a b : Bytes)
    → 1 < k
    → (m < n) ⊎ ((m ≡ n) × (compare_first (k - 2) a b ≡ Ordering.lt))
    → compare_first k (big_2 m a) (big_2 n b) ≡ Ordering.lt
big_2-lt m n k a b l (inl less) =
    octet-lt (m / 2 ^ 8) (n / 2 ^ 8) k _ _ (omega arith) (elim (dec_lt (m / 2 ^ 8) (n / 2 ^ 8)) [
      | yes p ↦ inl p
      | no p ↦ inr (
        omega arith,
        octet-lt (m % 2 ^ 8) (n % 2 ^ 8) (k - 1) a b (omega arith) (inl (omega arith)),
      )
    ])
big_2-lt m n k a b l (inr (same, later)) =
    let e : k - 1 - 1 ≡ k - 2 = omega arith in
    octet-lt (m / 2 ^ 8) (n / 2 ^ 8) k _ _ (omega arith) (
      inr (
        ap (λ x. x / 2 ^ 8) same,
        octet-lt (m % 2 ^ 8) (n % 2 ^ 8) (k - 1) a b (omega arith)
            (inr (ap (λ x. x % 2 ^ 8) same, rw e later)),
      ))

big_4-lt :
    (m n k : ℕ) (a b : Bytes)
    → 3 < k
    → m < n
    → compare_first k (big_4 m a) (big_4 n b) ≡ Ordering.lt
big_4-lt m n k a b l less =
    big_2-lt (m / 2 ^ 16) (n / 2 ^ 16) k _ _ (omega arith)
      (elim (dec_lt (m / 2 ^ 16) (n / 2 ^ 16)) [
        | yes p ↦ inl p
        | no p ↦ inr (
          omega arith,
          big_2-lt (m % 2 ^ 16) (n % 2 ^ 16) (k - 2) a b (omega arith) (inl (omega arith)),
        )
      ])

-- The smaller number has the smaller octet where they differ first.
pub compare_first-lt :
    (m n k : ℕ) (a b : Bytes)
    → m < n
    → n < 2 ^ 31
    → width m ≤ k
    → compare_first k (number m a) (number n b) ≡ Ordering.lt
unfolding number
compare_first-lt m n k a b l u w = elim (Bool-cases (ltb n 253)) [
  | inl e ↦
      let d : ltb m 253 ≡ true = ground arith in
      rw (d, e) (octet-lt m n k a b (ground arith) (inl l))
  | inr e ↦ elim (Bool-cases (ltb m 253)) [
    | inl d ↦ elim (Bool-cases (ltb n (2 ^ 16))) [
      | inl f ↦ rw (d, e, f) (octet-lt m 253 k _ _ (ground arith) (inl (ground arith)))
      | inr f ↦
          let g : ltb n (2 ^ 32) ≡ true = ground arith in
          rw (d, e, f, g) (octet-lt m 254 k _ _ (ground arith) (inl (ground arith)))
    ]
    | inr d ↦ elim (Bool-cases (ltb n (2 ^ 16))) [
      | inl f ↦
          let h : ltb m (2 ^ 16) ≡ true = ground arith in
          rw (d, e, f, h)
            (octet-lt 253 253 k _ _ (ground arith)
              (inr (refl, big_2-lt m n (k - 1) a b (ground arith) (inl l))))
      | inr f ↦
          let g : ltb n (2 ^ 32) ≡ true = ground arith in
          let h : ltb m (2 ^ 32) ≡ true = ground arith in
          elim (Bool-cases (ltb m (2 ^ 16))) [
            | inl j ↦ rw (d, e, f, g, j) (octet-lt 253 254 k _ _ (ground arith) (inl (omega arith)))
            | inr j ↦
                rw (d, e, f, g, h, j)
                  (octet-lt 254 254 k _ _ (ground arith)
                    (inr (refl, big_4-lt m n (k - 1) a b (ground arith) l)))
          ]
    ]
  ]
]
