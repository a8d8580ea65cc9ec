-- ===== src/Router/Matching/Totality.antt =====
-- When `matchRegex` returns, and what it does on descriptors for which it does not.
use f_copss.Cd.{Cd}
use f_copss.Ndn.{Block}
use f_copss.Ndn.Tlv
use f_copss.Prelude.{
  Bool-cases, ℕ, zero, suc, ◌≤◌, ◌<◌, ◌≡◌, ◌≢◌, ◌⊎◌, inl, inr, refl, Bool, true, false, List, [],
  ◌∷◌, length, Option, none, some, arith, if◌then◌else◌, ◌==◌,
}
use f_copss.Prelude.Outcome.{Outcome, value, out_of_bounds, runs_on}
use f_copss.Router.Matching.{is_equal_value, skip_to_component, match_loop, match_regex}

-- A plain component stands somewhere in the list.
abbrev pub HasComponent : List Block → Type 0
HasComponent [] = ⊥
HasComponent (e ∷ es) = (e.type ≡ Tlv.cd_component) ⊎ HasComponent es

-- Every element has one of the three types, and behind every option a component follows.
abbrev pub IsMatchable : List Block → Type 0
IsMatchable [] = Unit
IsMatchable (e ∷ es) =
    ((e.type ≡ Tlv.cd_component)
      ⊎ (e.type ≡ Tlv.cd_asterisk)
      ⊎ ((e.type ≡ Tlv.cd_optional) × HasComponent es))
    × IsMatchable es

skip_to_component-IsMatchable :
    (es : List Block)
    → HasComponent es
    → IsMatchable es
    → (rest : List Block) × (skip_to_component es ≡ some rest)
      × IsMatchable rest
      × (length rest ≤ length es)
unfolding skip_to_component
skip_to_component-IsMatchable [] h m = absurd h
skip_to_component-IsMatchable (e ∷ es) h m = elim (Bool-cases (e.type == Tlv.cd_component)) [
  | inl found ↦ (e ∷ es, rw found refl, m, omega arith)
  | inr other ↦
      let behind : HasComponent es = ground arith in
      let (rest, s, k, l) = skip_to_component-IsMatchable es behind m.1 in
      (rest, rw other s, k, omega arith)
]

abbrev pub Returns : Outcome Bool → Type 0
Returns o = (b : Bool) × (o ≡ value b)

Returns-if :
    (b : Bool) {x y : Outcome Bool}
    → (b ≡ true → Returns x)
    → (b ≡ false → Returns y)
    → Returns (if b then x else y)
Returns-if true f g = f refl
Returns-if false f g = g refl

Returns-skip :
    (o : Option (List Block)) (rest : List Block) (k : List Block → Outcome Bool)
    → o ≡ some rest
    → Returns (k rest)
    → Returns (elim o [ none ↦ out_of_bounds | some next ↦ k next ])
Returns-skip o rest k e r = rw e r

match_loop-Returns :
    (n : ℕ) (es is : List Block) → length es < n → IsMatchable es → Returns (match_loop n es is)
unfolding match_loop
match_loop-Returns zero es is l m = absurd (omega arith)
match_loop-Returns (suc n) [] is l m = (true, refl)
match_loop-Returns (suc n) (e ∷ es) [] l m = (false, refl)
match_loop-Returns (suc n) (e ∷ es) (i ∷ is) l m =
    Returns-if (e.type == Tlv.cd_asterisk) (λ _. match_loop-Returns n es (i ∷ is) (omega arith) m.1)
      λ star.
        Returns-if (is_equal_value e i) (λ _. match_loop-Returns n es is (omega arith) m.1)
          λ _.
            Returns-if (e.type == Tlv.cd_optional)
              (λ opt.
                let behind : HasComponent es = ground arith in
                let (rest, s, k, le) = skip_to_component-IsMatchable es behind m.1 in
                rw s (match_loop-Returns n rest (i ∷ is) (omega arith) k))
              λ other.
                Returns-if (e.type == Tlv.cd_component) (λ _. (false, refl))
                  λ none_of. absurd (ground arith)

-- On an entry whose elements are components, asterisks, and options with a component behind them,
-- the match returns for every input: it neither reads past the end nor loops for ever.
pub match_regex-Returns :
    (entry input : Cd) → IsMatchable entry.elements → Returns (match_regex entry input)
unfolding match_regex
match_regex-Returns entry input m =
    match_loop-Returns (suc (length entry.elements)) entry.elements input.elements (omega arith) m

-- The element type is none of the three that the loop knows.
abbrev pub IsUnknown : Block → Type 0
IsUnknown e = (e.type ≢ Tlv.cd_component) × (e.type ≢ Tlv.cd_asterisk) × (e.type ≢ Tlv.cd_optional)

-- The loop never ends, however many rounds it is given, once its entry stands at an element of an
-- unknown type with another value than the input's.
pub match_loop-runs_on :
    (n : ℕ) (e i : Block) (es is : List Block)
    → IsUnknown e
    → is_equal_value e i ≡ false
    → match_loop n (e ∷ es) (i ∷ is) ≡ runs_on
unfolding match_loop
match_loop-runs_on zero e i es is u d = refl
match_loop-runs_on (suc n) e i es is u d = ground (arith, match_loop-runs_on n e i es is u d)

skip_to_component-none : (es : List Block) → ¬ HasComponent es → skip_to_component es ≡ none
unfolding skip_to_component
skip_to_component-none [] h = refl
skip_to_component-none (e ∷ es) h = elim (Bool-cases (e.type == Tlv.cd_component)) [
  | inl found ↦ absurd (h (inl (ground arith)))
  | inr other ↦ rw other (skip_to_component-none es (λ k. h (inr k)))
]

-- The loop reads past the end of the entry when it is at an option that differs from the input and
-- has no component behind it.
pub match_loop-out_of_bounds :
    (n : ℕ) (e i : Block) (es is : List Block)
    → e.type ≡ Tlv.cd_optional
    → is_equal_value e i ≡ false
    → ¬ HasComponent es
    → match_loop (suc n) (e ∷ es) (i ∷ is) ≡ out_of_bounds
unfolding match_loop
match_loop-out_of_bounds n e i es is t d h = ground (arith, skip_to_component-none es h)
