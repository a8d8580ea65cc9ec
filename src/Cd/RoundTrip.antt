-- ===== src/Cd/RoundTrip.antt =====
-- Printing a descriptor and parsing the text again: src/lib/cd.cpp.
pub mod Words
pub mod Events
pub mod Blocks
pub mod Parse
use f_copss.Cd.Printer.{IsPlainWord}
use f_copss.Prelude.{[], ◌++◌, ◌∷◌, All, Bytes, List}
use f_copss.Cd.Shape.{grouped, plain, Shape}

-- The words between the slashes of the text that is printed.
abbrev pub words : Shape → List Bytes
words (plain ws) = ws
words (grouped before opener options closer first after) =
    before ++ ((opener ++ (b'(' ∷ [])) ∷ (options ++ ((closer ++ (b')' ∷ [])) ∷ first ∷ after)))

-- Every word is printed without an escape.
abbrev pub IsPlain : Shape → Type 0
IsPlain (plain ws) = All IsPlainWord ws
IsPlain (grouped before opener options closer first after) =
    All IsPlainWord before
    × IsPlainWord opener
    × All IsPlainWord options
    × IsPlainWord closer
    × IsPlainWord first
    × All IsPlainWord after

-- A slash in front of each word.
unfoldable pub slashed : List Bytes → Bytes
slashed [] = []
slashed (w ∷ ws) = b'/' ∷ (w ++ slashed ws)
