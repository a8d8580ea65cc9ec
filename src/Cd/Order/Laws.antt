-- ===== src/Cd/Order/Laws.antt =====
-- The relational operators of descriptors are a strict total order that agrees with `operator==`.
use f_copss.Prelude.{
  ◌↔◌, ◌≢◌, ◌⊎◌, ◌≡◌, [], ◌∷◌, refl, arith, zero, inl, inr, ap, ◌∙◌, Bool-cases, true, false, ok,
  suc, sym, ◌>>=◌,
}
use f_copss.Cd.Order.{length, Bool, is_lt, less}
use f_copss.Cd.Order.Canonical.{
  canonical, canonical_list, swapped, compare_first-swapped, compare_first-eq, compare_first_refl,
  compare_first_trans,
}
use f_copss.Cd.Order.Elements.{blocks, IsWiredCd, compare_cds-canonical}
use f_copss.Cd.Equality.{equals, equals_iff}
use f_copss.Cd.Wired.{Wired, Memory, sign, and_then}
use f_copss.Cd.Index.{ℤ, pos, negsuc}
use f_copss.Cd.{List, Cd}
use f_copss.Ndn.{Block, Ndn}
use Prim.Native.Nat.{ℕ, compare, Ordering}

abbrev is_less : Ordering → Bool
is_less Ordering.lt = true
is_less Ordering.eq = false
is_less Ordering.gt = false

abbrev cd_of : List Wired → Cd
cd_of a = record { elements = blocks a }

and_then-swapped :
    (o p q : Ordering)
    → (o ≡ Ordering.eq → q ≡ swapped p)
    → and_then (swapped o) q ≡ swapped (and_then o p)
and_then-swapped Ordering.lt p q f = refl
and_then-swapped Ordering.eq p q f = f refl
and_then-swapped Ordering.gt p q f = refl

compare-swapped : (m n : ℕ) → compare n m ≡ swapped (compare m n)
compare-swapped m n = ground arith

compare_eq : (m n : ℕ) → compare m n ≡ Ordering.eq → m ≡ n
compare_eq m n e = ground arith

canonical-swapped : (a b : Block) → canonical b a ≡ swapped (canonical a b)
unfolding canonical
canonical-swapped a b =
    rw (compare-swapped a.type b.type, compare-swapped (length a.value) (length b.value))
      (and_then-swapped (compare a.type b.type) _ _ λ same_type.
        and_then-swapped (compare (length a.value) (length b.value)) _ _ λ same_length.
          let e = compare_eq (length a.value) (length b.value) same_length in
          rw e (compare_first-swapped (length b.value) a.value b.value))

and_then_eq : (o p : Ordering) → and_then o p ≡ Ordering.eq → (o ≡ Ordering.eq) × (p ≡ Ordering.eq)
and_then_eq Ordering.lt p e = cc
and_then_eq Ordering.eq p e = (refl, e)
and_then_eq Ordering.gt p e = cc

canonical-eq : (a b : Block) → canonical a b ≡ Ordering.eq → a ≡ b
unfolding canonical
canonical-eq a b e =
    let (t, r) = and_then_eq (compare a.type b.type) _ e in
    let (l, f) = and_then_eq (compare (length a.value) (length b.value)) _ r in
    let same =
      compare_first-eq a.value b.value (compare_eq (length a.value) (length b.value) l) f in
    let type = compare_eq a.type b.type t in cc

compare_refl : (n : ℕ) → compare n n ≡ Ordering.eq
compare_refl n = ground arith

canonical_refl : (a : Block) → canonical a a ≡ Ordering.eq
unfolding canonical
canonical_refl a =
    rw (compare_refl a.type, compare_refl (length a.value))
      (compare_first_refl (length a.value) a.value)

canonical_trans :
    (a b c : Block)
    → canonical a b ≡ Ordering.lt
    → canonical b c ≡ Ordering.lt
    → canonical a c ≡ Ordering.lt
unfolding canonical
canonical_trans a b c e f =
    ground (arith, compare_first_trans (length a.value) a.value b.value c.value)

and_then_lt :
    (o p : Ordering)
    → and_then o p ≡ Ordering.lt
    → (o ≡ Ordering.lt) ⊎ ((o ≡ Ordering.eq) × (p ≡ Ordering.lt))
and_then_lt Ordering.lt p e = inl refl
and_then_lt Ordering.eq p e = inr (refl, e)
and_then_lt Ordering.gt p e = cc

-- The canonical order has no difference exactly between equal blocks.
pub canonical-eq_iff : (a b : Block) → (canonical a b ≡ Ordering.eq) ↔ (a ≡ b)
canonical-eq_iff a b = (canonical-eq a b, λ e. ap (canonical a) (sym e) ∙ canonical_refl a)

canonical_list-swapped : (a b : List Block) → canonical_list b a ≡ swapped (canonical_list a b)
unfolding canonical_list
canonical_list-swapped [] [] = refl
canonical_list-swapped [] (y ∷ b) = refl
canonical_list-swapped (x ∷ a) [] = refl
canonical_list-swapped (x ∷ a) (y ∷ b) =
    rw (canonical-swapped x y)
      (and_then-swapped (canonical x y) _ _ λ same. canonical_list-swapped a b)

canonical_list-eq : (a b : List Block) → canonical_list a b ≡ Ordering.eq → a ≡ b
unfolding canonical_list
canonical_list-eq [] [] e = refl
canonical_list-eq [] (y ∷ b) e = cc
canonical_list-eq (x ∷ a) [] e = cc
canonical_list-eq (x ∷ a) (y ∷ b) e =
    let (first, later) = and_then_eq (canonical x y) _ e in
    let same_first = canonical-eq x y first in let same_later = canonical_list-eq a b later in cc

canonical_list_refl : (a : List Block) → canonical_list a a ≡ Ordering.eq
unfolding canonical_list
canonical_list_refl [] = refl
canonical_list_refl (x ∷ a) = rw (canonical_refl x) (canonical_list_refl a)

canonical_list_trans :
    (a b c : List Block)
    → canonical_list a b ≡ Ordering.lt
    → canonical_list b c ≡ Ordering.lt
    → canonical_list a c ≡ Ordering.lt
unfolding canonical_list
canonical_list_trans [] [] c e f = cc
canonical_list_trans [] (y ∷ b) [] e f = cc
canonical_list_trans [] (y ∷ b) (z ∷ c) e f = refl
canonical_list_trans (x ∷ a) [] c e f = cc
canonical_list_trans (x ∷ a) (y ∷ b) [] e f = cc
canonical_list_trans (x ∷ a) (y ∷ b) (z ∷ c) e f =
    let later = canonical_list_trans a b c in
    elim (and_then_lt (canonical x y) _ e) [
      | inl first ↦ elim (and_then_lt (canonical y z) _ f) [
        | inl second ↦ rw (canonical_trans x y z first second) refl
        | inr (second, f') ↦
            let lt = ap (canonical x) (sym (canonical-eq y z second)) ∙ first in rw lt refl
      ]
      | inr (first, e') ↦
          let same = ap (λ w. canonical w z) (canonical-eq x y first) in
          elim (and_then_lt (canonical y z) _ f) [
            | inl second ↦ rw (same, second) refl
            | inr (second, f') ↦ rw (same, second) (later e' f')
          ]
    ]

module _ ⦃memory : Memory⦄ where
  less-sign : (z : ℤ) (o : Ordering) → sign z ≡ o → less z ≡ is_less o
  less-sign (pos zero) o e = ap is_less e
  less-sign (pos (suc n)) o e = ap is_less e
  less-sign (negsuc n) o e = ap is_less e

  -- `operator<` on descriptors tells whether the canonical order says so.
  is_lt-canonical :
      (a b : List Wired)
      → IsWiredCd a
      → IsWiredCd b
      → is_lt a b ≡ ok (is_less (canonical_list (blocks a) (blocks b)))
  is_lt-canonical a b v w =
      let (z, e, s) = compare_cds-canonical a b v w in
      ap (λ r. r >>= λ comp. ok (less comp)) e ∙ ap ok (less-sign z _ s)

  is_less-lt : (o : Ordering) → ok (is_less o) ≡ ok true → o ≡ Ordering.lt
  is_less-lt Ordering.lt e = refl
  is_less-lt Ordering.eq e = cc
  is_less-lt Ordering.gt e = cc

  -- On descriptors of encoded blocks `operator<` is transitive.
  pub is_lt_trans :
      (a b c : List Wired)
      → IsWiredCd a
      → IsWiredCd b
      → IsWiredCd c
      → is_lt a b ≡ ok true
      → is_lt b c ≡ ok true
      → is_lt a c ≡ ok true
  is_lt_trans a b c v w x e f =
      let first = is_less-lt _ (sym (is_lt-canonical a b v w) ∙ e) in
      let second = is_less-lt _ (sym (is_lt-canonical b c w x) ∙ f) in
      is_lt-canonical a c v x
      ∙ ap (λ o. ok (is_less o))
          (canonical_list_trans (blocks a) (blocks b) (blocks c) first second)

  -- The three ways in which two descriptors can stand to each other.
  abbrev pub Trichotomy : ⦃ndn : Ndn⦄ → List Wired → List Wired → Type 0
  Trichotomy a b =
      ((is_lt a b ≡ ok true) × (is_lt b a ≡ ok false) × (equals (cd_of a) (cd_of b) ≡ false))
      ⊎ ((is_lt a b ≡ ok false) × (is_lt b a ≡ ok true) × (equals (cd_of a) (cd_of b) ≡ false))
      ⊎ ((is_lt a b ≡ ok false) × (is_lt b a ≡ ok false) × (equals (cd_of a) (cd_of b) ≡ true))

  equals-canonical :
      ⦃ndn : Ndn⦄ (a b : List Wired) (o : Ordering)
      → canonical_list (blocks a) (blocks b) ≡ o
      → o ≢ Ordering.eq
      → equals (cd_of a) (cd_of b) ≡ false
  equals-canonical a b o e differs = elim (Bool-cases (equals (cd_of a) (cd_of b))) [
    | inl same ↦
        let elements = ap (λ (cd : Cd). cd.elements) ((equals_iff (cd_of a) (cd_of b)).0 same) in
        absurd (
          differs (
            sym e ∙ ap (canonical_list (blocks a)) (sym elements) ∙ canonical_list_refl (blocks a)))
    | inr other ↦ other
  ]

  is_lt-there :
      (a b : List Wired) (o : Ordering)
      → IsWiredCd a
      → IsWiredCd b
      → canonical_list (blocks a) (blocks b) ≡ o
      → is_lt a b ≡ ok (is_less o)
  is_lt-there a b o v w e = is_lt-canonical a b v w ∙ ap (λ p. ok (is_less p)) e

  is_lt-back :
      (a b : List Wired) (o : Ordering)
      → IsWiredCd a
      → IsWiredCd b
      → canonical_list (blocks a) (blocks b) ≡ o
      → is_lt b a ≡ ok (is_less (swapped o))
  is_lt-back a b o v w e =
      is_lt-there b a (swapped o) w v (canonical_list-swapped (blocks a) (blocks b) ∙ ap swapped e)

  is_lt-cases :
      ⦃ndn : Ndn⦄ (a b : List Wired) (o : Ordering)
      → IsWiredCd a
      → IsWiredCd b
      → canonical_list (blocks a) (blocks b) ≡ o
      → Trichotomy a b
  is_lt-cases a b Ordering.lt v w e =
      inl (is_lt-there a b _ v w e, is_lt-back a b _ v w e, equals-canonical a b _ e (λ d. cc))
  is_lt-cases a b Ordering.gt v w e =
      inr
        (inl (is_lt-there a b _ v w e, is_lt-back a b _ v w e, equals-canonical a b _ e (λ d. cc)))
  is_lt-cases a b Ordering.eq v w e =
      let same = canonical_list-eq (blocks a) (blocks b) e in
      inr (
        inr (
          is_lt-there a b _ v w e,
          is_lt-back a b _ v w e,
          (equals_iff (cd_of a) (cd_of b)).1 (ap (λ es. record { elements = es }) same),
        ))

  -- Take two descriptors with less than 2^31 elements each, of types and with lengths below 2^31, where
  -- an element either has no octets or keeps those that encode it. `operator<` of them never raises,
  -- and either one of them is before the other or `operator==` holds, and never two of these.
  pub is_lt-Trichotomy : ⦃ndn : Ndn⦄ (a b : List Wired) → IsWiredCd a → IsWiredCd b → Trichotomy a b
  is_lt-Trichotomy a b v w = is_lt-cases a b _ v w refl
