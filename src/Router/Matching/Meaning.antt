-- ===== src/Router/Matching/Meaning.antt =====
-- What `matchRegex` decides on the descriptors that a URI can denote, in terms of the words alone.
use mathlib.Core.List.{map-append, append_assoc}
use f_copss.Cd.Shape.{Shape, plain, grouped, blocks, component, optional, asterisk}
use f_copss.Ndn.{Block}
use f_copss.Prelude.{
  length-append, length-map, ℕ, zero, suc, ◌+◌, ◌<◌, ◌≡◌, refl, Bool, true, false, ◌&&◌, List, [],
  ◌∷◌, ◌++◌, map, length, drop, Bytes, bytes_eq, bytes_eq_iff, Bool-cases, some, arith,
  if◌then◌else◌, inl, inr,
}
use f_copss.Prelude.Outcome.{value}
use f_copss.Router.Matching.{is_equal_value, skip_to_component, match_loop, match_regex}

-- The words of a descriptor, whatever the types of its elements.
abbrev pub words_of : List Block → List Bytes
words_of = map (λ b. b.value)

-- The input begins with the words.
unfoldable pub starts_with : List Bytes → List Bytes → Bool
starts_with [] input = true
starts_with (w ∷ ws) [] = false
starts_with (w ∷ ws) (i ∷ is) = if bytes_eq w i then starts_with ws is else false

-- What is left of the input behind the longest run of options that it begins with.
unfoldable pub pass_options : List Bytes → List Bytes → List Bytes
pass_options [] input = input
pass_options (w ∷ ws) [] = []
pass_options (w ∷ ws) (i ∷ is) = if bytes_eq w i then pass_options ws is else i ∷ is

-- A plain name matches what it is a prefix of. A group takes as many of its options, in order, as
-- the input offers; the rest of the name must follow.
abbrev pub accepts : Shape → List Bytes → Bool
accepts (plain words) input = starts_with words input
accepts (grouped before opener options closer first after) input =
    let front = before ++ (opener ∷ []) in
    starts_with front input
    && starts_with (first ∷ after)
        (pass_options (options ++ (closer ∷ [])) (drop (length front) input))

is_equal_value_lem : (a b : Block) → is_equal_value a b ≡ bytes_eq a.value b.value
unfolding is_equal_value
is_equal_value_lem a b = ground (arith, bytes_eq_iff a.value b.value)

match-plain :
    (ws : List Bytes) (n : ℕ) (is : List Block)
    → length ws < n
    → match_loop n (map component ws) is ≡ value (starts_with ws (words_of is))
unfolding match_loop starts_with
match-plain ws zero is l = absurd (omega arith)
match-plain [] (suc n) is l = refl
match-plain (w ∷ ws) (suc n) [] l = refl
match-plain (w ∷ ws) (suc n) (i ∷ is) l =
    ground (arith, is_equal_value_lem (component w) i, match-plain ws n is (omega arith))

-- Behind plain words the loop goes on with the rest of the entry and of the input.
match-front :
    (ws : List Bytes) (es : List Block) (bound : ℕ) (f : List Bytes → Bool)
    → ((m : ℕ) (js : List Block) → bound < m → match_loop m es js ≡ value (f (words_of js)))
    → (n : ℕ) (is : List Block) → length ws + bound < n
    → match_loop n (map component ws ++ es) is
      ≡ value (starts_with ws (words_of is) && f (drop (length ws) (words_of is)))
unfolding match_loop starts_with
match-front [] es bound f h n is l = h n is (omega arith)
match-front (w ∷ ws) es bound f h zero is l = absurd (omega arith)
match-front (w ∷ ws) es bound f h (suc n) [] l = refl
match-front (w ∷ ws) es bound f h (suc n) (i ∷ is) l =
    let later = match-front ws es bound f h n is (omega arith) in
    elim (Bool-cases (bytes_eq w i.value)) [
      | inl same ↦ rw (is_equal_value_lem (component w) i, same) later
      | inr other ↦ rw (is_equal_value_lem (component w) i, other) refl
    ]

skip-options :
    (ws : List Bytes) (first : Bytes) (es : List Block)
    → skip_to_component (map optional ws ++ (asterisk ∷ component first ∷ es))
      ≡ some (component first ∷ es)
unfolding skip_to_component
skip-options [] first es = refl
skip-options (w ∷ ws) first es = skip-options ws first es

match-options :
    (ws : List Bytes) (first : Bytes) (after : List Bytes) (n : ℕ) (is : List Block)
    → length ws + length after + 2 < n
    → match_loop n (map optional ws ++ (asterisk ∷ map component (first ∷ after))) is
      ≡ value (starts_with (first ∷ after) (pass_options ws (words_of is)))
unfolding match_loop pass_options
match-options ws first after zero is l = absurd (omega arith)
match-options [] first after (suc n) [] l = unfold starts_with in refl
match-options [] first after (suc n) (i ∷ is) l =
    match-plain (first ∷ after) n (i ∷ is) (omega arith)
match-options (w ∷ ws) first after (suc n) [] l = unfold starts_with in refl
match-options (w ∷ ws) first after (suc n) (i ∷ is) l = elim (Bool-cases (bytes_eq w i.value)) [
  | inl same ↦
      rw (is_equal_value_lem (optional w) i, same) (match-options ws first after n is (omega arith))
  | inr other ↦
      rw (is_equal_value_lem (optional w) i, other, skip-options ws first (map component after))
        (match-plain (first ∷ after) n (i ∷ is) (omega arith))
]

blocks-grouped :
    (before : List Bytes) (opener : Bytes) (options : List Bytes) (closer first : Bytes)
    (after : List Bytes)
    → blocks (grouped before opener options closer first after)
      ≡ map component (before ++ (opener ∷ []))
        ++ (map optional (options ++ (closer ∷ [])) ++ (asterisk ∷ map component (first ∷ after)))
blocks-grouped before opener options closer first after = simp (map-append, append_assoc)

match-blocks :
    (entry : Shape) (n : ℕ) (is : List Block)
    → length (blocks entry) < n
    → match_loop n (blocks entry) is ≡ value (accepts entry (words_of is))
match-blocks (plain words) n is l = match-plain words n is (rw length-map at l)
match-blocks (grouped before opener options closer first after) n is l =
    rw (blocks-grouped before opener options closer first after) (
      match-front (before ++ (opener ∷ [])) _ (length (options ++ (closer ∷ [])) + length after + 2)
        (λ vs. starts_with (first ∷ after) (pass_options (options ++ (closer ∷ [])) vs)) rest n is
        fuel)
  where
    fuel :
        length (before ++ (opener ∷ [])) + (length (options ++ (closer ∷ [])) + length after + 2)
        < n
    fuel = omega (
      arith,
      length-append (map component before) (
          component opener
          ∷ (map optional options
              ++ (optional closer ∷ asterisk ∷ component first ∷ map component after))),
      length-append (map optional options)
          (optional closer ∷ asterisk ∷ component first ∷ map component after),
      length-append before (opener ∷ []),
      length-append options (closer ∷ []),
      length-map component before,
      length-map optional options,
      length-map component after,
    )

    rest :
        (m : ℕ) (js : List Block)
        → length (options ++ (closer ∷ [])) + length after + 2 < m
        → match_loop m
            (map optional (options ++ (closer ∷ [])) ++ (asterisk ∷ map component (first ∷ after)))
            js
          ≡ value
              (starts_with (first ∷ after) (pass_options (options ++ (closer ∷ [])) (words_of js)))
    rest m js = match-options (options ++ (closer ∷ [])) first after m js

-- The decision of `matchRegex` for an entry that a URI can denote, on any input.
pub match_regex-accepts :
    (entry : Shape) (input : List Block)
    → match_regex (record { elements = blocks entry }) (record { elements = input })
      ≡ value (accepts entry (words_of input))
unfolding match_regex
match_regex-accepts entry input =
    match-blocks entry (suc (length (blocks entry))) input (omega arith)
