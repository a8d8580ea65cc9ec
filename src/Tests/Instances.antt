-- ===== src/Tests/Instances.antt =====
-- The interfaces of ndn-cxx and Boost, filled by functions with the documented behaviour.
use mathlib.Core.List.{append-nil}
use f_copss.Boost.{Boost, join, IsFree, StartsOutside, EndsOutside}
use f_copss.Ndn.{Ndn, Block}
use f_copss.Prelude.{
  bytes_eq_iff, bytes_eq, arith, ◌&&◌, ◌++◌, any, ◌||◌, false, List, if◌then◌else◌, ◌↔◌, ◌==◌, ℕ,
  true, Bool, refl, [], ◌∷◌, Bytes, ◌≡◌, All,
}

abbrev same_block : Block → Block → Bool
same_block a b = a.type == b.type && bytes_eq a.value b.value

pub same_block_iff : (a b : Block) → (same_block a b ≡ true) ↔ (a ≡ b)
same_block_iff a b = ground (arith, bytes_eq_iff a.value b.value)

instance abbrev pub ndn_model : Ndn
ndn_model = record {
  block_eq = same_block;
  block_eq_iff = same_block_iff;
  component = λ w. record { type = 8; value = w };
  component_lem = λ w. refl;
  make_string_block = λ t w. record { type = t; value = w };
  make_string_block_lem = λ t w. refl;
  empty_block = λ t. record { type = t; value = [] };
  empty_block_lem = λ t. refl;
}

abbrev trim_left : (ℕ → Bool) → Bytes → Bytes
trim_left p [] = []
trim_left p (c ∷ s) = if p c then trim_left p s else c ∷ s

-- `c` in front of what is left of the rest.
abbrev keep : (ℕ → Bool) → ℕ → Bytes → Bytes
keep p c [] = if p c then [] else c ∷ []
keep p c (d ∷ s) = c ∷ d ∷ s

abbrev trim_right : (ℕ → Bool) → Bytes → Bytes
trim_right p [] = []
trim_right p (c ∷ s) = keep p c (trim_right p s)

abbrev onto_first : ℕ → List Bytes → List Bytes
onto_first c [] = (c ∷ []) ∷ []
onto_first c (w ∷ ws) = (c ∷ w) ∷ ws

abbrev pub split_at : (ℕ → Bool) → Bytes → List Bytes
split_at p [] = [] ∷ []
split_at p (c ∷ s) = if p c then [] ∷ split_at p s else onto_first c (split_at p s)

abbrev begins_with : Bytes → Bytes → Bool
begins_with [] s = true
begins_with (c ∷ w) [] = false
begins_with (c ∷ w) (d ∷ s) = d == c && begins_with w s

abbrev holds : Bytes → Bytes → Bool
holds [] w = begins_with w []
holds (c ∷ s) w = begins_with w (c ∷ s) || holds s w

trim_left_run :
    (p : ℕ → Bool) (before s : Bytes)
    → All (λ c. p c ≡ true) before
    → trim_left p (before ++ s) ≡ trim_left p s
trim_left_run p [] s a = refl
trim_left_run p (c ∷ before) s a = rw a.0 (trim_left_run p before s a.1)

trim_left-StartsOutside :
    (p : ℕ → Bool) (c : ℕ) (s : Bytes) → p c ≡ false → trim_left p (c ∷ s) ≡ c ∷ s
trim_left-StartsOutside p c s h = rw h refl

trim_right_run :
    (p : ℕ → Bool) (after : Bytes) → All (λ c. p c ≡ true) after → trim_right p after ≡ []
trim_right_run p [] a = refl
trim_right_run p (c ∷ after) a = rw (trim_right_run p after a.1, a.0) refl

trim_right-EndsOutside :
    (p : ℕ → Bool) (c : ℕ) (s after : Bytes)
    → All (λ d. p d ≡ true) after
    → EndsOutside p (c ∷ s)
    → trim_right p (c ∷ (s ++ after)) ≡ c ∷ s
trim_right-EndsOutside p c [] after a e = rw (trim_right_run p after a, e) refl
trim_right-EndsOutside p c (d ∷ s) after a e = rw (trim_right-EndsOutside p d s after a e) refl

pub trim_right_lem :
    (p : ℕ → Bool) (s after : Bytes)
    → All (λ c. p c ≡ true) after
    → EndsOutside p s
    → trim_right p (s ++ after) ≡ s
trim_right_lem p [] after a e = trim_right_run p after a
trim_right_lem p (c ∷ s) after a e = trim_right-EndsOutside p c s after a e

pub trim_lem :
    (p : ℕ → Bool) (before s after : Bytes)
    → All (λ c. p c ≡ true) before
    → All (λ c. p c ≡ true) after
    → StartsOutside p s
    → EndsOutside p s
    → trim_right p (trim_left p (before ++ (s ++ after))) ≡ s
trim_lem p before [] after b a x y = rw (trim_left_run p before after b, all_gone p after a) refl
  where
    all_gone : (p : ℕ → Bool) (after : Bytes) → All (λ c. p c ≡ true) after → trim_left p after ≡ []
    all_gone p [] a = refl
    all_gone p (c ∷ after) a = rw a.0 (all_gone p after a.1)
trim_lem p before (c ∷ s) after b a x y =
    rw (trim_left_run p before (c ∷ (s ++ after)) b, x) (trim_right-EndsOutside p c s after a y)

split_word :
    (p : ℕ → Bool) (w rest : Bytes) (v : Bytes) (vs : List Bytes)
    → IsFree p w
    → split_at p rest ≡ v ∷ vs
    → split_at p (w ++ rest) ≡ (w ++ v) ∷ vs
split_word p [] rest v vs f e = e
split_word p (c ∷ w) rest v vs f e = rw (f.0, split_word p w rest v vs f.1 e) refl

pub split-join_model :
    (p : ℕ → Bool) (c : ℕ) (w : Bytes) (ws : List Bytes)
    → p c ≡ true
    → IsFree p w
    → All (IsFree p) ws
    → split_at p (join c w ws) ≡ w ∷ ws
split-join_model p c w [] h f a = let e = split_word p w [] [] [] f refl in rw append-nil at e
split-join_model p c w (v ∷ vs) h f a =
    let e =
      split_word p w (c ∷ join c v vs) [] (v ∷ vs) f
        (rw (h, split-join_model p c v vs h a.0 a.1) refl) in
    rw append-nil at e

pub holds_one : (c : ℕ) (s : Bytes) → holds s (c ∷ []) ≡ any (λ x. x == c) s
holds_one c [] = refl
holds_one c (d ∷ s) = ground (arith, holds_one c s)

instance abbrev pub boost_model : Boost
boost_model = record {
  trim_if = λ p s. trim_right p (trim_left p s);
  trim_right_if = trim_right;
  split = split_at;
  contains = holds;
  trim_if_lem = trim_lem;
  trim_right_if_lem = trim_right_lem;
  split-join = split-join_model;
  contains_lem = holds_one;
}
