-- ===== src/Cd/RoundTrip/Parse.antt =====
-- The whole round trip: from a descriptor to its text and back.
use f_copss.Cd.Shape.{optional, asterisk}
use f_copss.Cd.RoundTrip.Words.{print-blocks}
use f_copss.Cd.Grammar.{back?-append, back?-opened}
use f_copss.Cd.RoundTrip.Events.{unreserved_other}
use f_copss.Cd.RoundTrip.Blocks.{parse_words-words, check_last-component}
use f_copss.Ndn.{Block, Ndn}
use f_copss.Cd.Parser.{of_uri, parse_trimmed, parse_cd_string, check_last, is_slash, back?}
use f_copss.Boost.{join, EndsOutside, StartsOutside, IsFree, Boost}
use f_copss.Cd.RoundTrip.{grouped, plain, words, IsPlain, All, ◌∷◌, slashed}
use f_copss.Cd.Shape.{blocks, component, Shape}
use f_copss.Cd.Printer.{
  print_elements, to_uri, ComponentUri, is_unreserved, IsPlainWord, got_non_dot,
}
use f_copss.Prelude.{
  subst, sym, ◌∙◌, refl, ap, some, append-nil, All-map, ok, false, true, ◌++◌, [], map, ◌≡◌, List,
  Bytes,
}
use Prim.Native.Nat.{ℕ}

-- A word between two slashes: not empty, and without a slash.
abbrev IsWord : Bytes → Type 0
IsWord [] = ⊥
IsWord (c ∷ w) = IsFree is_slash (c ∷ w)

plain-IsFree : (w : Bytes) → All (λ x. is_unreserved x ≡ true) w → IsFree is_slash w
plain-IsFree w a = All-map (λ x u. (unreserved_other x u).0) w a

plain-IsWord : (w : Bytes) → IsPlainWord w → IsWord w
unfolding got_non_dot
plain-IsWord [] (a, n) = absurd cc
plain-IsWord (c ∷ w) (a, n) = plain-IsFree (c ∷ w) a

IsFree-snoc :
    (w : Bytes) (c : ℕ) → IsFree is_slash w → is_slash c ≡ false → IsFree is_slash (w ++ (c ∷ []))
IsFree-snoc [] c f e = (e, tt)
IsFree-snoc (x ∷ w) c (h, f) e = (h, IsFree-snoc w c f e)

decorated-IsWord : (w : Bytes) (c : ℕ) → IsPlainWord w → is_slash c ≡ false → IsWord (w ++ (c ∷ []))
unfolding got_non_dot
decorated-IsWord [] c (a, n) e = absurd cc
decorated-IsWord (x ∷ w) c (a, n) e = IsFree-snoc (x ∷ w) c (plain-IsFree (x ∷ w) a) e

All-append : (ws vs : List Bytes) → All IsWord ws → All IsWord vs → All IsWord (ws ++ vs)
All-append [] vs a b = b
All-append (w ∷ ws) vs (h, a) b = (h, All-append ws vs a b)

words-IsWord : (s : Shape) → IsPlain s → All IsWord (words s)
words-IsWord (plain ws) a = All-map plain-IsWord ws a
words-IsWord (grouped before opener options closer first after) (b, o, a, c, f, r) =
    All-append before _ (All-map plain-IsWord before b) (
      decorated-IsWord opener b'(' o refl,
      All-append options _ (All-map plain-IsWord options a) (
        decorated-IsWord closer b')' c refl,
        (plain-IsWord first f, All-map plain-IsWord after r),
      ),
    )

slashed-join : (w : Bytes) (ws : List Bytes) → slashed (w ∷ ws) ≡ b'/' ∷ join b'/' w ws
unfolding slashed
slashed-join w [] = rw (append-nil w) refl
slashed-join w (v ∷ ws) = ap (λ x. b'/' ∷ (w ++ x)) (slashed-join v ws)

StartsOutside-join :
    (w : Bytes) (ws : List Bytes) → IsWord w → StartsOutside is_slash (join b'/' w ws)
StartsOutside-join [] ws h = absurd h
StartsOutside-join (c ∷ w) [] h = h.0
StartsOutside-join (c ∷ w) (v ∷ ws) h = h.0

EndsOutside-word : (c : ℕ) (w : Bytes) → IsFree is_slash (c ∷ w) → EndsOutside is_slash (c ∷ w)
EndsOutside-word c [] h = h.0
EndsOutside-word c (d ∷ w) h = EndsOutside-word d w h.1

EndsOutside-behind :
    (w : Bytes) (c : ℕ) (s : Bytes)
    → EndsOutside is_slash (c ∷ s)
    → EndsOutside is_slash (w ++ (c ∷ s))
EndsOutside-behind [] c s e = e
EndsOutside-behind (x ∷ []) c s e = e
EndsOutside-behind (x ∷ y ∷ w) c s e = EndsOutside-behind (y ∷ w) c s e

EndsOutside-slash :
    (w : Bytes) (ws : List Bytes)
    → IsWord w
    → EndsOutside is_slash (join b'/' w ws)
    → EndsOutside is_slash (b'/' ∷ join b'/' w ws)
EndsOutside-slash [] ws h e = absurd h
EndsOutside-slash (c ∷ w) [] h e = e
EndsOutside-slash (c ∷ w) (v ∷ ws) h e = e

EndsOutside-join :
    (w : Bytes) (ws : List Bytes) → IsWord w → All IsWord ws → EndsOutside is_slash (join b'/' w ws)
EndsOutside-join [] ws h a = absurd h
EndsOutside-join (c ∷ w) [] h a = EndsOutside-word c w h
EndsOutside-join w (v ∷ ws) h (k, a) =
    EndsOutside-behind w b'/' (join b'/' v ws)
      (EndsOutside-slash v ws k (EndsOutside-join v ws k a))

IsWord-IsFree : (w : Bytes) → IsWord w → IsFree is_slash w
IsWord-IsFree [] h = absurd h
IsWord-IsFree (c ∷ w) h = h

-- The last block of a descriptor that a URI can denote is a component.
back?-components :
    (w : Bytes) (ws : List Bytes)
    → (v : Bytes) × (back? (map component (w ∷ ws)) ≡ some (component v))
back?-components w [] = (w, refl)
back?-components w (v ∷ ws) = back?-components v ws

module _ ⦃boost : Boost⦄ ⦃ndn : Ndn⦄ where
  check_last-blocks : (s : Shape) → check_last (blocks s) ≡ ok (blocks s)
  unfolding check_last
  check_last-blocks (plain []) = refl
  check_last-blocks (plain (w ∷ ws)) =
      let (v, e) = back?-components w ws in check_last-component (map component (w ∷ ws)) v e
  check_last-blocks (grouped before opener options closer first after) =
      let (v, e) = back?-components first after in
      let rest = map component (first ∷ after) in
      let group = map optional options ++ (optional closer ∷ asterisk ∷ rest) in
      check_last-component (map component before ++ (component opener ∷ group)) v (
        back?-opened before opener group
          (back?-append (map optional options) (optional closer) (asterisk ∷ rest) ∙ e))

  parse_cd_string-words : (s : Shape) → IsPlain s → parse_cd_string (words s) ≡ ok (blocks s)
  unfolding parse_cd_string
  parse_cd_string-words s p = rw (parse_words-words s p) (check_last-blocks s)

  parse_trimmed-join :
      (w : Bytes) (ws : List Bytes) (es : List Block)
      → IsWord w
      → parse_cd_string (boost.split is_slash (join b'/' w ws)) ≡ ok es
      → parse_trimmed (join b'/' w ws) ≡ ok (record { elements = es })
  unfolding parse_trimmed
  parse_trimmed-join [] ws es h e = absurd h
  parse_trimmed-join (c ∷ w) [] es h e = rw e refl
  parse_trimmed-join (c ∷ w) (v ∷ ws) es h e = rw e refl

  of_uri-slashed :
      (w : Bytes) (ws : List Bytes) (es : List Block)
      → All IsWord (w ∷ ws)
      → parse_cd_string (w ∷ ws) ≡ ok es
      → of_uri (slashed (w ∷ ws)) ≡ ok (record { elements = es })
  unfolding of_uri
  of_uri-slashed w ws es (h, a) e =
      let split : boost.split is_slash (join b'/' w ws) ≡ w ∷ ws =
        boost.split-join is_slash b'/' w ws refl (IsWord-IsFree w h) (All-map IsWord-IsFree ws a) in
      let trimmed =
        boost.trim_if_lem is_slash (b'/' ∷ []) (join b'/' w ws) [] (refl, tt) tt
          (StartsOutside-join w ws h) (EndsOutside-join w ws h a) in
      ap (λ s. parse_trimmed (boost.trim_if is_slash s))
        (slashed-join w ws ∙ ap (λ x. b'/' ∷ x) (sym (append-nil (join b'/' w ws))))
      ∙ ap parse_trimmed trimmed
      ∙ parse_trimmed-join w ws es h (ap parse_cd_string split ∙ e)

  of_uri-root : of_uri (b'/' ∷ []) ≡ ok (record { elements = [] })
  unfolding of_uri parse_trimmed
  of_uri-root = ap parse_trimmed (boost.trim_if_lem is_slash (b'/' ∷ []) [] [] (refl, tt) tt tt tt)

  module _ ⦃uri : ComponentUri⦄ where
    to_uri-cons :
        (e : Block) (es : List Block)
        → to_uri (record { elements = e ∷ es }) ≡ print_elements true (e ∷ es)
    unfolding to_uri
    to_uri-cons e es = refl

    -- Both the text and the parse of a shape that has a block.
    of_uri-print :
        (s : Shape) (e : Block) (es : List Block) (w : Bytes) (ws : List Bytes)
        → IsPlain s
        → blocks s ≡ e ∷ es
        → words s ≡ w ∷ ws
        → of_uri (to_uri (record { elements = blocks s })) ≡ ok (record { elements = blocks s })
    of_uri-print s e es w ws p b v =
        let text : to_uri (record { elements = blocks s }) ≡ slashed (w ∷ ws) =
          ap (λ x. to_uri (record { elements = x })) b
          ∙ to_uri-cons e es
          ∙ ap (print_elements true) (sym b)
          ∙ print-blocks s p
          ∙ ap slashed v in
        ap of_uri text
        ∙ of_uri-slashed w ws (blocks s) (subst (All IsWord) v (words-IsWord s p))
            (ap parse_cd_string (sym v) ∙ parse_cd_string-words s p)

    -- A descriptor that a URI can denote, whose words need no escape, is printed as a URI that parses
    -- to this descriptor again.
    pub of_uri-to_uri :
        (s : Shape)
        → IsPlain s
        → of_uri (to_uri (record { elements = blocks s })) ≡ ok (record { elements = blocks s })
    unfolding to_uri
    of_uri-to_uri (plain []) p = of_uri-root
    of_uri-to_uri (plain (w ∷ ws)) p =
        of_uri-print (plain (w ∷ ws)) (component w) (map component ws) w ws p refl refl
    of_uri-to_uri (grouped [] opener options closer first after) p =
        of_uri-print (grouped [] opener options closer first after) _ _ _ _ p refl refl
    of_uri-to_uri (grouped (w ∷ before) opener options closer first after) p =
        of_uri-print (grouped (w ∷ before) opener options closer first after) _ _ _ _ p refl refl
