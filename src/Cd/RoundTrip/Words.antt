-- ===== src/Cd/RoundTrip/Words.antt =====
-- What `operator<<` prints for a descriptor of plain words: a slash in front of each decorated word.
use f_copss.Cd.Shape.{blocks, optional, asterisk, component}
use f_copss.Ndn.{Block}
use f_copss.Prelude.{
  append-nil, sym, ap, append_assoc, refl, ◌∙◌, ◌∷◌, map, true, false, ◌≡◌, ◌++◌, Bool,
}
use f_copss.Cd.Printer.{
  is_unreserved, IsPlainWord, print_elements, ComponentUri, optional_uri, put_bytes,
}
use f_copss.Cd.RoundTrip.{grouped, plain, words, IsPlain, [], All, Shape, Bytes, List, slashed}

slashed-append : (ws vs : List Bytes) → slashed (ws ++ vs) ≡ slashed ws ++ slashed vs
unfolding slashed
slashed-append [] vs = refl
slashed-append (w ∷ ws) vs =
    rw (slashed-append ws vs, append_assoc w (slashed ws) (slashed vs)) refl

put_bytes_plain : (w : Bytes) → All (λ x. is_unreserved x ≡ true) w → put_bytes w ≡ w
unfolding put_bytes
put_bytes_plain [] a = refl
put_bytes_plain (x ∷ w) (u, a) = rw (u, put_bytes_plain w a) refl

pub optional_uri_plain : (w : Bytes) → IsPlainWord w → optional_uri w ≡ w
unfolding optional_uri
optional_uri_plain w (a, n) = rw (n, put_bytes_plain w a) refl

module _ ⦃uri : ComponentUri⦄ where
  print_component :
      (first : Bool) (w : Bytes) (es : List Block)
      → IsPlainWord w
      → print_elements first (component w ∷ es) ≡ b'/' ∷ (w ++ print_elements first es)
  unfolding print_elements
  print_component first w es p = rw (uri.component_uri_plain w p) refl

  print_optional :
      (w : Bytes) (es : List Block)
      → IsPlainWord w
      → print_elements false (optional w ∷ es) ≡ b'/' ∷ (w ++ print_elements false es)
  unfolding print_elements
  print_optional w es p = rw (optional_uri_plain w p) refl

  print_opening :
      (w : Bytes) (es : List Block)
      → IsPlainWord w
      → print_elements true (optional w ∷ es) ≡ b'(' ∷ b'/' ∷ (w ++ print_elements false es)
  unfolding print_elements
  print_opening w es p = rw (optional_uri_plain w p) refl

  print_asterisk :
      (first : Bool) (es : List Block)
      → print_elements first (asterisk ∷ es) ≡ b')' ∷ print_elements first es
  unfolding print_elements
  print_asterisk first es = refl

  print_components :
      (first : Bool) (ws : List Bytes) (es : List Block)
      → All IsPlainWord ws
      → print_elements first (map component ws ++ es) ≡ slashed ws ++ print_elements first es
  unfolding slashed
  print_components first [] es a = refl
  print_components first (w ∷ ws) es (p, a) =
      print_component first w (map component ws ++ es) p
      ∙ rw (print_components first ws es a, append_assoc w (slashed ws) (print_elements first es))
          refl

  print_options :
      (ws : List Bytes) (es : List Block)
      → All IsPlainWord ws
      → print_elements false (map optional ws ++ es) ≡ slashed ws ++ print_elements false es
  unfolding slashed
  print_options [] es a = refl
  print_options (w ∷ ws) es (p, a) =
      print_optional w (map optional ws ++ es) p
      ∙ rw (print_options ws es a, append_assoc w (slashed ws) (print_elements false es)) refl

  print_end : (first : Bool) → print_elements first [] ≡ []
  unfolding print_elements
  print_end first = refl

  -- Components up to the end, the last option in front of them, and the group.
  print_after :
      (first : Bool) (ws : List Bytes)
      → All IsPlainWord ws
      → print_elements first (map component ws) ≡ slashed ws
  print_after first ws a =
      ap (print_elements first) (sym (append-nil (map component ws)))
      ∙ print_components first ws [] a
      ∙ ap (λ x. slashed ws ++ x) (print_end first)
      ∙ append-nil (slashed ws)

  print_closing :
      (closer : Bytes) (ws : List Bytes)
      → All IsPlainWord ws
      → (b'/' ∷ (closer ++ print_elements false (asterisk ∷ map component ws)))
        ≡ slashed ((closer ++ (b')' ∷ [])) ∷ ws)
  unfolding slashed
  print_closing closer ws a =
      ap (λ x. b'/' ∷ (closer ++ x))
        (print_asterisk false (map component ws) ∙ ap (λ x. b')' ∷ x) (print_after false ws a))
      ∙ ap (λ x. b'/' ∷ x) (sym (append_assoc closer (b')' ∷ []) (slashed ws)))

  print_group :
      (options : List Bytes) (closer : Bytes) (ws : List Bytes)
      → All IsPlainWord options
      → IsPlainWord closer
      → All IsPlainWord ws
      → print_elements true
          (map optional options ++ (optional closer ∷ asterisk ∷ map component ws))
        ≡ b'(' ∷ slashed (options ++ ((closer ++ (b')' ∷ [])) ∷ ws))
  unfolding slashed
  print_group [] closer ws a c b =
      print_opening closer (asterisk ∷ map component ws) c
      ∙ ap (λ x. b'(' ∷ x) (print_closing closer ws b)
  print_group (o ∷ options) closer ws (p, a) c b =
      let last = optional closer ∷ asterisk ∷ map component ws in
      print_opening o (map optional options ++ last) p
      ∙ ap (λ x. b'(' ∷ b'/' ∷ (o ++ x))
          (print_options options last a
            ∙ ap (λ x. slashed options ++ x)
                (print_optional closer (asterisk ∷ map component ws) c ∙ print_closing closer ws b)
            ∙ sym (slashed-append options ((closer ++ (b')' ∷ [])) ∷ ws)))

  pub print-blocks : (s : Shape) → IsPlain s → print_elements true (blocks s) ≡ slashed (words s)
  unfolding slashed
  print-blocks (plain ws) a = print_after true ws a
  print-blocks (grouped before opener options closer first after) (b, o, a, c, f, r) =
      let ws = first ∷ after in
      let group = map optional options ++ (optional closer ∷ asterisk ∷ map component ws) in
      let tail = options ++ ((closer ++ (b')' ∷ [])) ∷ ws) in
      print_components true before (component opener ∷ group) b
      ∙ ap (λ x. slashed before ++ x)
          (print_component true opener group o
            ∙ ap (λ x. b'/' ∷ (opener ++ x)) (print_group options closer ws a c (f, r))
            ∙ ap (λ x. b'/' ∷ x) (sym (append_assoc opener (b'(' ∷ []) (slashed tail))))
      ∙ sym (slashed-append before ((opener ++ (b'(' ∷ [])) ∷ tail))
