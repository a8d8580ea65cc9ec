-- ===== src/Boost.antt =====
-- The string algorithms of Boost that the code calls, as an interface. A class of characters, such
-- as `is_any_of("/")`, is a test on bytes.
use f_copss.Prelude.{ℕ, ◌≡◌, Bool, true, false, List, [], ◌∷◌, ◌++◌, Bytes, All, any, ◌==◌}

-- The words with the separator between each two.
abbrev pub join : ℕ → Bytes → List Bytes → Bytes
join c w [] = w
join c w (v ∷ vs) = w ++ (c ∷ join c v vs)

-- No byte of the text is in the class.
abbrev pub IsFree : (ℕ → Bool) → Bytes → Type 0
IsFree p = All (λ c. p c ≡ false)

-- The text is empty, or its first byte is outside the class.
abbrev pub StartsOutside : (ℕ → Bool) → Bytes → Type 0
StartsOutside p [] = Unit
StartsOutside p (c ∷ cs) = p c ≡ false

-- The same of the last byte.
abbrev pub EndsOutside : (ℕ → Bool) → Bytes → Type 0
EndsOutside p [] = Unit
EndsOutside p (c ∷ []) = p c ≡ false
EndsOutside p (c ∷ d ∷ cs) = EndsOutside p (d ∷ cs)

pub record Boost : Type 0 where
  pub trim_if : (ℕ → Bool) → Bytes → Bytes
  pub trim_right_if : (ℕ → Bool) → Bytes → Bytes
  pub split : (ℕ → Bool) → Bytes → List Bytes
  pub contains : Bytes → Bytes → Bool
  -- What is trimmed is the run of the class at each end, and nothing else.
  pub trim_if_lem :
      (p : ℕ → Bool) (before s after : Bytes)
      → All (λ c. p c ≡ true) before
      → All (λ c. p c ≡ true) after
      → StartsOutside p s
      → EndsOutside p s
      → trim_if p (before ++ (s ++ after)) ≡ s
  pub trim_right_if_lem :
      (p : ℕ → Bool) (s after : Bytes)
      → All (λ c. p c ≡ true) after
      → EndsOutside p s
      → trim_right_if p (s ++ after) ≡ s
  -- Each separator ends a word; adjacent separators are not merged.
  pub split-join :
      (p : ℕ → Bool) (c : ℕ) (w : Bytes) (ws : List Bytes)
      → p c ≡ true
      → IsFree p w
      → All (IsFree p) ws
      → split p (join c w ws) ≡ w ∷ ws
  pub contains_lem : (c : ℕ) (s : Bytes) → contains s (c ∷ []) ≡ any (λ x. x == c) s
