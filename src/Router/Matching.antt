-- ===== src/Router/Matching.antt =====
-- src/router/st-impl.cpp: `matchRegex` and `isEqualValue`.
pub mod Totality
pub mod Meaning
pub mod Parsed
use f_copss.Cd.{Cd}
use f_copss.Ndn.{Block}
use f_copss.Ndn.Tlv
use f_copss.Prelude.Outcome.{Outcome, value, out_of_bounds, runs_on}
use f_copss.Prelude.{
  ℕ, zero, suc, Bool, true, false, not, ◌&&◌, ◌||◌, List, [], ◌∷◌, length, Option, none, some,
  bytes_eq, ◌==◌, if◌then◌else◌,
}

-- Sizes first, then `memcmp`.
unfoldable pub is_equal_value : Block → Block → Bool
is_equal_value entry input =
    if not (length entry.value == length input.value)
    then false
    else if not (bytes_eq entry.value input.value)
    then false
    else true

-- The `do ... while` from the element behind the current one: `none` is the read at `cend()`.
unfoldable pub skip_to_component : List Block → Option (List Block)
skip_to_component [] = none
skip_to_component (e ∷ es) =
    if e.type == Tlv.cd_component then some (e ∷ es) else skip_to_component es

-- `while (true)`, at most so many rounds of it, on what the two iterators have in front of them.
unfoldable pub match_loop : ℕ → List Block → List Block → Outcome Bool
unfolding is_equal_value
match_loop zero entry input = runs_on
match_loop (suc rounds) [] input = value true
match_loop (suc rounds) (e ∷ es) [] = value false
match_loop (suc rounds) (e ∷ es) (i ∷ is) =
    let next_entry = match_loop rounds es (i ∷ is) in
    let next_both = match_loop rounds es is in
    let stay = match_loop rounds (e ∷ es) (i ∷ is) in
    if e.type == Tlv.cd_asterisk
    then next_entry
    else if is_equal_value e i
    then next_both
    else if e.type == Tlv.cd_optional
    then elim (skip_to_component es) [
      | none ↦ out_of_bounds
      | some rest ↦ match_loop rounds rest (i ∷ is)
    ]
    else if e.type == Tlv.cd_component
    then value false
    else stay

-- Every round that does not repeat for ever passes an element of the entry.
unfoldable pub match_regex : Cd → Cd → Outcome Bool
unfolding match_loop skip_to_component
match_regex entry input = match_loop (suc (length entry.elements)) entry.elements input.elements
