-- ===== src/Cd/RoundTrip/Blocks.antt =====
-- The words of a printed descriptor through `parseCdString` of src/lib/cd.cpp.
use f_copss.Cd.Shape.{optional, asterisk}
use f_copss.Ndn.Tlv
use f_copss.Cd.RoundTrip.Events.{get_event-closes, get_event-opens, get_event-hold}
use f_copss.Cd.RoundTrip.{IsPlainWord, grouped, All, words, [], IsPlain}
use f_copss.Prelude.{
  append_assoc, sym, ◌∙◌, ap, append-nil, map, ◌++◌, ◌∷◌, refl, some, ok, ◌≡◌, List, Bytes,
}
use f_copss.Cd.Shape.{blocks, component, plain, Shape}
use f_copss.Cd.Parser.{
  back?, closes, opens, hold, get_event_from_string, closed, opened, not_opened, Event, check_last,
  transition, State, parse_words,
}
use f_copss.Ndn.{Block, Ndn}
use f_copss.Boost.{Boost}

module _ ⦃boost : Boost⦄ ⦃ndn : Ndn⦄ where
  parse_words-step :
      (state next : State) (event : Event) (word rest : Bytes) (ws : List Bytes)
      (block pushed : List Block)
      → get_event_from_string word ≡ ok (event, rest)
      → transition state event rest ≡ ok (next, pushed)
      → parse_words state (word ∷ ws) block ≡ parse_words next ws (block ++ pushed)
  unfolding parse_words
  parse_words-step state next event word rest ws block pushed e t = rw (e, t) refl

  -- Words that change nothing in the state add one block each.
  parse_words-hold :
      (state : State) (f : Bytes → Block) (ws rest : List Bytes) (block : List Block)
      → ((w : Bytes) → transition state hold w ≡ ok (state, f w ∷ []))
      → All IsPlainWord ws
      → parse_words state (ws ++ rest) block ≡ parse_words state rest (block ++ map f ws)
  parse_words-hold state f [] rest block t a = rw (append-nil block) refl
  parse_words-hold state f (w ∷ ws) rest block t (p, a) =
      parse_words-step state state hold w w (ws ++ rest) block (f w ∷ []) (get_event-hold w p) (t w)
      ∙ parse_words-hold state f ws rest (block ++ (f w ∷ [])) t a
      ∙ ap (parse_words state rest) (append_assoc block (f w ∷ []) (map f ws))

  parse_words-end : (state : State) (block : List Block) → parse_words state [] block ≡ ok block
  unfolding parse_words
  parse_words-end state block = refl

  not_opened-hold : (w : Bytes) → transition not_opened hold w ≡ ok (not_opened, component w ∷ [])
  unfolding transition
  not_opened-hold w = rw (ndn.component_lem w) refl

  not_opened-opens : (w : Bytes) → transition not_opened opens w ≡ ok (opened, component w ∷ [])
  unfolding transition
  not_opened-opens w = rw (ndn.component_lem w) refl

  opened-hold : (w : Bytes) → transition opened hold w ≡ ok (opened, optional w ∷ [])
  unfolding transition
  opened-hold w = rw (ndn.make_string_block_lem Tlv.cd_optional w) refl

  opened-closes : (w : Bytes) → transition opened closes w ≡ ok (closed, optional w ∷ asterisk ∷ [])
  unfolding transition
  opened-closes w =
      rw (ndn.make_string_block_lem Tlv.cd_optional w, ndn.empty_block_lem Tlv.cd_asterisk) refl

  closed-hold : (w : Bytes) → transition closed hold w ≡ ok (closed, component w ∷ [])
  unfolding transition
  closed-hold w = rw (ndn.component_lem w) refl

  parse_words-All :
      (state : State) (f : Bytes → Block) (ws : List Bytes) (block : List Block)
      → ((w : Bytes) → transition state hold w ≡ ok (state, f w ∷ []))
      → All IsPlainWord ws
      → parse_words state ws block ≡ ok (block ++ map f ws)
  parse_words-All state f ws block t a =
      ap (λ x. parse_words state x block) (sym (append-nil ws))
      ∙ parse_words-hold state f ws [] block t a
      ∙ parse_words-end state (block ++ map f ws)

  pub parse_words-words :
      (s : Shape) → IsPlain s → parse_words not_opened (words s) [] ≡ ok (blocks s)
  parse_words-words (plain ws) a = parse_words-All not_opened component ws [] not_opened-hold a
  parse_words-words (grouped before opener options closer first after) (b, o, a, c, f, r) =
      let rest = first ∷ after in
      let closing = (closer ++ (b')' ∷ [])) ∷ rest in
      let block = map component before ++ (component opener ∷ []) in
      let block' = block ++ map optional options in
      parse_words-hold not_opened component before ((opener ++ (b'(' ∷ [])) ∷ (options ++ closing))
        [] not_opened-hold b
      ∙ parse_words-step not_opened opened opens (opener ++ (b'(' ∷ [])) opener (options ++ closing)
          (map component before) (component opener ∷ []) (get_event-opens opener o)
          (not_opened-opens opener)
      ∙ parse_words-hold opened optional options closing block opened-hold a
      ∙ parse_words-step opened closed closes (closer ++ (b')' ∷ [])) closer rest block'
          (optional closer ∷ asterisk ∷ []) (get_event-closes closer c) (opened-closes closer)
      ∙ parse_words-All closed component rest (block' ++ (optional closer ∷ asterisk ∷ []))
          closed-hold (f, r)
      ∙ ap ok (simp append_assoc)

  pub check_last-component :
      (block : List Block) (w : Bytes)
      → back? block ≡ some (component w)
      → check_last block ≡ ok block
  unfolding check_last
  check_last-component block w e = rw (e, check_last) refl
