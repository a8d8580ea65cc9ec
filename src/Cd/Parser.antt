-- ===== src/Cd/Parser.antt =====
-- src/lib/cd.cpp: the constructor of `Cd` from a URI, `parseCdString` and `getEventFromString`.
use f_copss.Boost.{Boost}
use f_copss.Cd.{Cd}
use f_copss.Ndn.{Block, Ndn}
use f_copss.Ndn.Tlv
use f_copss.Prelude.{
  ℕ, Bool, List, [], ◌∷◌, ◌++◌, Option, none, some, Bytes, ◌==◌, if◌then◌else◌, Result, ok, err,
  ◌>>=◌, open_in_component, close_in_component, many_opens, many_closes, empty_component,
  bad_last_component,
}

pub data State : Type 0 where
  not_opened opened closed : State

pub data Event : Type 0 where
  hold opens closes : Event

-- `back()` of a sequence that may be empty.
abbrev pub back? {ℓ} : {A : Type ℓ} → List A → Option A
back? [] = none
back? (x ∷ []) = some x
back? (x ∷ y ∷ xs) = back? (y ∷ xs)

-- `erase(end() - 1)`.
abbrev pub drop_back {ℓ} : {A : Type ℓ} → List A → List A
drop_back [] = []
drop_back (x ∷ []) = []
drop_back (x ∷ y ∷ xs) = x ∷ drop_back (y ∷ xs)

module _ ⦃boost : Boost⦄ where
  -- The event of a word that ends in `last`, and the word that is left of it.
  unfoldable pub event_at : ℕ → Bytes → Result (Event × Bytes)
  event_at last word =
      if last == b'('
      then (let rest = drop_back word in
          if boost.contains rest (b'(' ∷ []) then err many_opens else ok (opens, rest))
      else if last == b')'
      then (let rest = drop_back word in
          if boost.contains rest (b')' ∷ []) then err many_closes else ok (closes, rest))
      else if boost.contains word (b'(' ∷ [])
      then err open_in_component
      else if boost.contains word (b')' ∷ [])
      then err close_in_component
      else ok (hold, word)

  unfoldable pub get_event_from_string : Bytes → Result (Event × Bytes)
  unfolding event_at
  get_event_from_string word = elim (back? word) [
    | none ↦ err empty_component
    | some last ↦ event_at last word
  ]

module _ ⦃ndn : Ndn⦄ where
  -- `cd::Optional(const string&)` and `cd::Asterisk()`.
  abbrev pub optional : Bytes → Block
  optional word = ndn.make_string_block Tlv.cd_optional word

  abbrev pub asterisk : Block
  asterisk = ndn.empty_block Tlv.cd_asterisk

  -- One round of the switch: the blocks pushed and the next state.
  unfoldable pub transition : State → Event → Bytes → Result (State × List Block)
  transition not_opened opens word = ok (opened, ndn.component word ∷ [])
  transition not_opened closes word = err close_in_component
  transition not_opened hold word = ok (not_opened, ndn.component word ∷ [])
  transition opened opens word = err open_in_component
  transition opened closes word = ok (closed, optional word ∷ asterisk ∷ [])
  transition opened hold word = ok (opened, optional word ∷ [])
  transition closed opens word = err open_in_component
  transition closed closes word = err close_in_component
  transition closed hold word = ok (closed, ndn.component word ∷ [])

-- The check behind the loop.
unfoldable pub check_last : List Block → Result (List Block)
check_last block = elim (back? block) [
  | none ↦ ok block
  | some last ↦ if last.type == Tlv.cd_component then ok block else err bad_last_component
]

abbrev pub is_slash : ℕ → Bool
is_slash c = c == b'/'

module _ ⦃boost : Boost⦄ ⦃ndn : Ndn⦄ where
  unfoldable pub parse_words : State → List Bytes → List Block → Result (List Block)
  unfolding get_event_from_string transition
  parse_words state [] block = ok block
  parse_words state (word ∷ words) block = do
    (event, rest) ← get_event_from_string word
    (next, pushed) ← transition state event rest
    parse_words next words (block ++ pushed)

  unfoldable pub parse_cd_string : List Bytes → Result (List Block)
  unfolding parse_words check_last
  parse_cd_string words = do block ← parse_words not_opened words []; check_last block

  unfoldable pub parse_trimmed : Bytes → Result Cd
  unfolding parse_cd_string
  parse_trimmed [] = ok (record { elements = [] })
  parse_trimmed (c ∷ s) = do
    block ← parse_cd_string (boost.split is_slash (c ∷ s))
    ok (record { elements = block })

  unfoldable pub of_uri : Bytes → Result Cd
  unfolding parse_trimmed
  of_uri uri = parse_trimmed (boost.trim_if is_slash uri)
