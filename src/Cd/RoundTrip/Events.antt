-- ===== src/Cd/RoundTrip/Events.antt =====
-- The event of each word of a printed descriptor: `getEventFromString` of src/lib/cd.cpp.
use f_copss.Cd.Parser.{closes, opens, hold, get_event_from_string, event_at, drop_back, back?}
use f_copss.Cd.Printer.{IsPlainWord, got_non_dot, is_unreserved}
use f_copss.Boost.{Boost}
use f_copss.Prelude.{
  any, arith, refl, ◌∙◌, ap, false, [], ◌==◌, ok, some, ◌∷◌, true, ◌++◌, ◌≡◌, All, Bytes,
}
use Prim.Native.Nat.{ℕ}

-- An unreserved byte is no slash and no parenthesis.
pub unreserved_other :
    (x : ℕ)
    → is_unreserved x ≡ true
    → ((x == b'/') ≡ false) × ((x == b'(') ≡ false) × ((x == b')') ≡ false)
unreserved_other x u = ground arith

any_plain :
    (c : ℕ) (w : Bytes)
    → ((x : ℕ) → is_unreserved x ≡ true → (x == c) ≡ false)
    → All (λ x. is_unreserved x ≡ true) w
    → any (λ x. x == c) w ≡ false
any_plain c [] other a = refl
any_plain c (x ∷ w) other (u, a) = rw (other x u) (any_plain c w other a)

back?-snoc : (w : Bytes) (c : ℕ) → back? (w ++ (c ∷ [])) ≡ some c
back?-snoc [] c = refl
back?-snoc (x ∷ []) c = refl
back?-snoc (x ∷ y ∷ w) c = back?-snoc (y ∷ w) c

drop_back-snoc : (w : Bytes) (c : ℕ) → drop_back (w ++ (c ∷ [])) ≡ w
drop_back-snoc [] c = refl
drop_back-snoc (x ∷ []) c = refl
drop_back-snoc (x ∷ y ∷ w) c = ap (λ t. x ∷ t) (drop_back-snoc (y ∷ w) c)

back?_plain :
    (x : ℕ) (w : Bytes)
    → All (λ y. is_unreserved y ≡ true) (x ∷ w)
    → (last : ℕ) × (back? (x ∷ w) ≡ some last) × (is_unreserved last ≡ true)
back?_plain x [] a = (x, refl, a.0)
back?_plain x (y ∷ w) a = back?_plain y w a.1

module _ ⦃boost : Boost⦄ where
  contains_plain :
      (w : Bytes)
      → All (λ x. is_unreserved x ≡ true) w
      → (boost.contains w (b'(' ∷ []) ≡ false) × (boost.contains w (b')' ∷ []) ≡ false)
  contains_plain w a = (
    boost.contains_lem b'(' w ∙ any_plain b'(' w (λ x u. (unreserved_other x u).1) a,
    boost.contains_lem b')' w ∙ any_plain b')' w (λ x u. (unreserved_other x u).2) a,
  )

  event_at-hold :
      (last : ℕ) (w : Bytes)
      → is_unreserved last ≡ true
      → All (λ x. is_unreserved x ≡ true) w
      → event_at last w ≡ ok (hold, w)
  unfolding event_at
  event_at-hold last w u a =
      let (slash, open_paren, close_paren) = unreserved_other last u in
      let (no_open, no_close) = contains_plain w a in
      rw (open_paren, close_paren, no_open, no_close) refl

  get_event-back :
      (w : Bytes) (last : ℕ) → back? w ≡ some last → get_event_from_string w ≡ event_at last w
  unfolding get_event_from_string
  get_event-back w last e = rw (e, get_event_from_string) refl

  pub get_event-hold : (w : Bytes) → IsPlainWord w → get_event_from_string w ≡ ok (hold, w)
  unfolding got_non_dot
  get_event-hold [] (a, n) = absurd cc
  get_event-hold (x ∷ w) (a, n) =
      let (last, b, u) = back?_plain x w a in
      get_event-back (x ∷ w) last b ∙ event_at-hold last (x ∷ w) u a

  pub get_event-opens :
      (w : Bytes) → IsPlainWord w → get_event_from_string (w ++ (b'(' ∷ [])) ≡ ok (opens, w)
  unfolding event_at
  get_event-opens w (a, n) =
      get_event-back (w ++ (b'(' ∷ [])) b'(' (back?-snoc w b'(')
      ∙ rw (drop_back-snoc w b'(', (contains_plain w a).0) refl

  pub get_event-closes :
      (w : Bytes) → IsPlainWord w → get_event_from_string (w ++ (b')' ∷ [])) ≡ ok (closes, w)
  unfolding event_at
  get_event-closes w (a, n) =
      get_event-back (w ++ (b')' ∷ [])) b')' (back?-snoc w b')')
      ∙ rw (drop_back-snoc w b')', (contains_plain w a).1) refl
