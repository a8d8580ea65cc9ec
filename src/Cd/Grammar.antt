-- ===== src/Cd/Grammar.antt =====
-- What the parser of src/lib/cd.cpp accepts: nothing but plain names and names with one group.
use f_copss.Cd.{Cd}
use f_copss.Ndn.Tlv.{cd}
use f_copss.Boost.{Boost}
use f_copss.Cd.Parser.{
  is_slash, parse_trimmed, State, not_opened, opened, closed, Event, hold, opens, closes,
  transition, get_event_from_string, parse_words, check_last, parse_cd_string, of_uri, back?,
}
use f_copss.Cd.Shape.{Shape, plain, grouped, blocks, component, optional, asterisk}
use f_copss.Ndn.{Ndn, Block}
use f_copss.Ndn.Tlv
use f_copss.Prelude.{
  arith, ap, some, ◌∙◌, subst, Result, inr, ◌⊎◌, inl, map, Bytes, List, refl, ◌≡◌, [], ◌∷◌, ◌++◌,
  ok, err, bind-eq-ok,
}
use mathlib.Core.List.{append_assoc, append-nil, map-append}

-- The blocks that may follow, from each state of the parser on.
abbrev Tail : Type 0
Tail = List Block

-- After the group: components.
abbrev IsClosedTail : Tail → Type 0
IsClosedTail t = (after : List Bytes) × (t ≡ map component after)

-- In the group: options, and then perhaps its end.
abbrev IsOpenedTail : Tail → Type 0
IsOpenedTail t =
    ((options : List Bytes) × (t ≡ map optional options))
    ⊎ ((options : List Bytes) × (closer : Bytes) × (after : List Bytes) × (t
          ≡ map optional options ++ (optional closer ∷ asterisk ∷ map component after)))

-- Before the group: components, and then perhaps its beginning.
abbrev IsTail : Tail → Type 0
IsTail t =
    ((before : List Bytes) × (t ≡ map component before))
    ⊎ ((before : List Bytes) × (opener : Bytes) × (rest : Tail) × IsOpenedTail rest
        × (t ≡ map component before ++ (component opener ∷ rest)))

abbrev Follows : State → Tail → Type 0
Follows not_opened t = IsTail t
Follows opened t = IsOpenedTail t
Follows closed t = IsClosedTail t

IsOpenedTail-cons : (w : Bytes) (t : Tail) → IsOpenedTail t → IsOpenedTail (optional w ∷ t)
IsOpenedTail-cons w t (inl (options, e)) = inl (w ∷ options, rw e refl)
IsOpenedTail-cons w t (inr (options, closer, after, e)) =
    inr (w ∷ options, closer, after, rw e refl)

IsTail-cons : (w : Bytes) (t : Tail) → IsTail t → IsTail (component w ∷ t)
IsTail-cons w t (inl (before, e)) = inl (w ∷ before, rw e refl)
IsTail-cons w t (inr (before, opener, rest, r, e)) = inr (w ∷ before, opener, rest, r, rw e refl)

-- What a call of `transition` owes to a tail of the state that it leads to.
abbrev Leads : State → Tail → Result (State × Tail) → Type 0
Leads state t (err _) = Unit
Leads state t (ok (next, pushed)) = Follows next t → Follows state (pushed ++ t)

module _ ⦃ndn : Ndn⦄ where
  transition-Leads :
      (state : State) (event : Event) (w : Bytes) (t : Tail)
      → Leads state t (transition state event w)
  unfolding transition
  transition-Leads not_opened opens w t = rw (ndn.component_lem w) (λ f. inr ([], w, t, f, refl))
  transition-Leads not_opened closes w t = tt
  transition-Leads not_opened hold w t = rw (ndn.component_lem w) (IsTail-cons w t)
  transition-Leads opened opens w t = tt
  transition-Leads opened closes w t =
      rw (ndn.make_string_block_lem Tlv.cd_optional w, ndn.empty_block_lem Tlv.cd_asterisk)
        (λ (after, e). inr ([], w, after, rw e refl))
  transition-Leads opened hold w t =
      rw (ndn.make_string_block_lem Tlv.cd_optional w) (IsOpenedTail-cons w t)
  transition-Leads closed opens w t = tt
  transition-Leads closed closes w t = tt
  transition-Leads closed hold w t = rw (ndn.component_lem w) (λ (after, e). (w ∷ after, rw e refl))

Follows-nil : (state : State) → Follows state []
Follows-nil not_opened = inl ([], refl)
Follows-nil opened = inl ([], refl)
Follows-nil closed = ([], refl)

module _ ⦃boost : Boost⦄ ⦃ndn : Ndn⦄ where
  -- The loop appends a tail of the state that it starts in.
  parse_words-Follows :
      (state : State) (words : List Bytes) (block : List Block) {out : List Block}
      → parse_words state words block ≡ ok out
      → (t : Tail) × (out ≡ block ++ t) × Follows state t
  unfolding parse_words
  parse_words-Follows state [] block e = ([], rw (append-nil block) cc, Follows-nil state)
  parse_words-Follows state (word ∷ words) block {out} e =
      let ((event, rest), got, e₁) = bind-eq-ok (get_event_from_string word) _ e in
      let ((next, pushed), step, e₂) = bind-eq-ok (transition state event rest) _ e₁ in
      let (t, eq, f) = parse_words-Follows next words (block ++ pushed) e₂ in
      (
        pushed ++ t,
        eq ∙ append_assoc block pushed t,
        subst (Leads state t) step (transition-Leads state event rest t) f,
      )

pub back?-append {ℓ} :
    {A : Type ℓ} (xs : List A) (y : A) (ys : List A) → back? (xs ++ (y ∷ ys)) ≡ back? (y ∷ ys)
back?-append [] y ys = refl
back?-append (x ∷ []) y ys = refl
back?-append (x ∷ x' ∷ xs) y ys = back?-append (x' ∷ xs) y ys

back?-options :
    (o : Bytes) (options : List Bytes)
    → (w : Bytes) × (back? (map optional (o ∷ options)) ≡ some (optional w))
back?-options o [] = (o, refl)
back?-options o (o' ∷ options) = back?-options o' options

pub back?-opened :
    (before : List Bytes) (opener : Bytes) (rest : Tail) {last : Block}
    → back? rest ≡ some last
    → back? (map component before ++ (component opener ∷ rest)) ≡ some last
back?-opened before opener [] b = cc
back?-opened before opener (r ∷ rest) b =
    back?-append (map component before) (component opener) (r ∷ rest) ∙ b

check_last-ok : (block : List Block) {out : List Block} → check_last block ≡ ok out → out ≡ block
unfolding check_last
check_last-ok block e = ground arith

-- What passes the check does not end in an option or in the end of a group.
check_last-Component :
    (block : List Block) (last : Block) {out : List Block}
    → back? block ≡ some last
    → check_last block ≡ ok out
    → last.type ≡ Tlv.cd_component
unfolding check_last
check_last-Component block last b e = ground arith

-- A tail of the first state that passes the check is one of the two shapes.
IsTail-Shape :
    (block : List Block) {out : List Block}
    → IsTail block
    → check_last block ≡ ok out
    → (shape : Shape) × (block ≡ blocks shape)
IsTail-Shape block (inl (before, e)) c = (plain before, e)
IsTail-Shape block (inr (before, opener, rest, inl ([], e'), e)) c =
    (plain (before ++ (opener ∷ [])), rw (e, e', map-append component before (opener ∷ [])) refl)
IsTail-Shape block (inr (before, opener, rest, inl (o ∷ options, e'), e)) c =
    let (w, l) = back?-options o options in
    let last = ap back? e ∙ back?-opened before opener rest (ap back? e' ∙ l) in
    let type = check_last-Component block (optional w) last c in absurd (omega arith)
IsTail-Shape block (inr (before, opener, rest, inr (options, closer, [], e'), e)) c =
    let l = ap back? e' ∙ back?-append (map optional options) (optional closer) (asterisk ∷ []) in
    let last = ap back? e ∙ back?-opened before opener rest l in
    let type = check_last-Component block asterisk last c in absurd (omega arith)
IsTail-Shape block (inr (before, opener, rest, inr (options, closer, first ∷ after, e'), e)) c = (
  grouped before opener options closer first after,
  e ∙ ap (λ r. map component before ++ (component opener ∷ r)) e',
)

module _ ⦃boost : Boost⦄ ⦃ndn : Ndn⦄ where
  parse_cd_string-Shape :
      (words : List Bytes) (out : List Block)
      → parse_cd_string words ≡ ok out
      → (shape : Shape) × (out ≡ blocks shape)
  unfolding parse_cd_string
  parse_cd_string-Shape words out e =
      let (block, parsed, checked) = bind-eq-ok (parse_words not_opened words []) check_last e in
      let (t, eq, f) = parse_words-Follows not_opened words [] parsed in
      let (shape, s) = IsTail-Shape t {out = out} f (rw eq at checked) in
      (shape, check_last-ok block checked ∙ eq ∙ s)

  -- What the constructor of `Cd` accepts has one of the two shapes: plain components, or components,
  -- a non-empty group of options and at least one component behind it.
  pub of_uri-Shape :
      (uri : Bytes) (cd : Cd) → of_uri uri ≡ ok cd → (shape : Shape) × (cd.elements ≡ blocks shape)
  unfolding of_uri parse_trimmed
  of_uri-Shape uri cd e =
      elim (boost.trim_if is_slash uri)
          as (λ s. parse_trimmed s ≡ ok cd → (shape : Shape) × (cd.elements ≡ blocks shape)) [
            | [] ↦ λ e. (plain [], cc)
            | c ∷ s ↦ λ e.
                let (block, parsed, made) =
                  bind-eq-ok (parse_cd_string (boost.split is_slash (c ∷ s))) _ e in
                let (shape, same) =
                  parse_cd_string-Shape (boost.split is_slash (c ∷ s)) block parsed in
                (shape, cc)
          ]
        e
