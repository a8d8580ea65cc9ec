-- ===== src/Router/Matching/Parsed.antt =====
-- `matchRegex` on the descriptors that the constructor of src/lib/cd.cpp makes from a URI.
use f_copss.Router.Matching.Meaning.{match_regex-accepts, words_of, accepts}
use f_copss.Router.Matching.{value, match_regex}
use f_copss.Cd.Shape.{blocks, Shape}
use f_copss.Cd.Parser.{of_uri}
use f_copss.Cd.{Cd}
use f_copss.Prelude.{sym, subst, ok, ◌≡◌, Bytes}
use f_copss.Ndn.{Ndn}
use f_copss.Boost.{Boost}
use f_copss.Cd.Grammar.{of_uri-Shape}

module _ ⦃boost : Boost⦄ ⦃ndn : Ndn⦄ where
  -- A URI that parses denotes a plain name or a name with one group, and `matchRegex` with it returns
  -- for every input, with the decision that the meaning of that name gives.
  pub match_regex-of_uri :
      (uri : Bytes) (entry : Cd)
      → of_uri uri ≡ ok entry
      → (shape : Shape) × (entry.elements ≡ blocks shape)
        × ((input : Cd) → match_regex entry input ≡ value (accepts shape (words_of input.elements)))
  match_regex-of_uri uri entry e =
      let (shape, same) = of_uri-Shape uri entry e in
      (
        shape,
        same,
        λ input.
            subst
              (λ es.
                match_regex (record { elements = es }) input
                ≡ value (accepts shape (words_of input.elements)))
              (sym same) (match_regex-accepts shape input.elements),
      )
