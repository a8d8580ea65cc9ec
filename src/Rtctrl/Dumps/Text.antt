-- ===== src/Rtctrl/Dumps/Text.antt =====
-- Texts in a stream, and what the algorithms of Boost are documented to do with them.
use Prim.Native.Nat.{◌/◌}
use f_copss.Rtctrl.Dumps.{
  find, strip, onto_front, Asio, with_delimiter, is_feed, is_return, trim_line,
}
use f_copss.Rtctrl.Request.RoundTrip.{trim_return}
use f_copss.Router.CmdServer.Platform.{Host}
use f_copss.Boost.{StartsOutside, Boost, IsFree, EndsOutside}
use f_copss.Prelude.Decimal.{digits, decimal}
use f_copss.Prelude.{
  zero, ◌%◌, ◌+◌, inr, inl, ltb, Bool-cases, suc, append_assoc, sym, ◌||◌, ◌^◌, ◌&&◌, All, ◌≤◌,
  length, leb, ◌==◌, ◌≡◌, ◌<◌, Bool, Bytes, ℕ, [], ◌∷◌, some, none, refl, arith, ◌++◌, ap, ◌∙◌,
  true, false,
}

-- Digits and signs.
abbrev pub is_numeral : ℕ → Bool
is_numeral c = (leb 48 c && leb c 57) || c == b'+' || c == b'-'

abbrev pub IsNumeral : Bytes → Type 0
IsNumeral s = (0 < length s) × All (λ c. is_numeral c ≡ true) s

-- `lexical_cast` reads what a stream writes, and no text with another character than digits and signs.
pub record Numerals ⦃host : Host⦄ : Type 0 where
  pub lexical_cast-decimal :
      (limit n : ℕ) → n < limit → limit ≤ 2 ^ 64 → host.lexical_cast limit (decimal n) ≡ some n
  pub lexical_cast-IsNumeral :
      (limit n : ℕ) (s : Bytes) → host.lexical_cast limit s ≡ some n → IsNumeral s

-- `split` by a class with several characters.
pub record Splits ⦃boost : Boost⦄ : Type 0 where
  pub split-cons :
      (p : ℕ → Bool) (c : ℕ) (w rest : Bytes)
      → p c ≡ true
      → IsFree p w
      → boost.split p (w ++ (c ∷ rest)) ≡ w ∷ boost.split p rest

strip-append : (w s : Bytes) → strip w (w ++ s) ≡ some s
unfolding strip
strip-append [] s = refl
strip-append (c ∷ w) s = ground (arith, strip-append w s)

pub find-next :
    (w : Bytes) (c : ℕ) (s : Bytes)
    → strip w (c ∷ s) ≡ none
    → find w (c ∷ s) ≡ onto_front c (find w s)
unfolding find
find-next w c s e = rw (e, find) refl

pub find-other :
    (c d : ℕ) (w s : Bytes)
    → (c == d) ≡ false
    → find (c ∷ w) (d ∷ s) ≡ onto_front d (find (c ∷ w) s)
unfolding strip
find-other c d w s e = find-next (c ∷ w) d s (rw e refl)

pub find-here : (c : ℕ) (w s : Bytes) → find (c ∷ w) (c ∷ (w ++ s)) ≡ some ([], s)
unfolding find
find-here c w s = rw (strip-append (c ∷ w) s, find) refl

-- A text whose first character does not occur before it.
pub find-free :
    (c : ℕ) (before w behind : Bytes)
    → IsFree (λ d. d == c) before
    → find (c ∷ w) (before ++ (c ∷ (w ++ behind))) ≡ some (before, behind)
find-free c [] w behind f = find-here c w behind
find-free c (d ∷ before) w behind (other, f) =
    let differs : (c == d) ≡ false = ground arith in
    find-other c d w _ differs ∙ ap (onto_front d) (find-free c before w behind f)

pub read_until-free :
    ⦃asio : Asio⦄ (c : ℕ) (before w behind : Bytes)
    → IsFree (λ d. d == c) before
    → asio.read_until (c ∷ w) (before ++ (c ∷ (w ++ behind))) ≡ some (before ++ (c ∷ w), behind)
read_until-free ⦃asio⦄ c before w behind f =
    asio.read_until_lem (c ∷ w) (before ++ (c ∷ (w ++ behind)))
    ∙ ap (with_delimiter (c ∷ w)) (find-free c before w behind f)

pub IsFree-StartsOutside : (p : ℕ → Bool) (s : Bytes) → IsFree p s → StartsOutside p s
IsFree-StartsOutside p [] f = tt
IsFree-StartsOutside p (c ∷ s) f = f.0

pub IsFree-EndsOutside : (p : ℕ → Bool) (s : Bytes) → IsFree p s → EndsOutside p s
IsFree-EndsOutside p [] f = tt
IsFree-EndsOutside p (c ∷ []) f = f.0
IsFree-EndsOutside p (c ∷ d ∷ s) f = IsFree-EndsOutside p (d ∷ s) f.1

EndsOutside-last : (p : ℕ → Bool) (s : Bytes) (c : ℕ) → p c ≡ false → EndsOutside p (s ++ (c ∷ []))
EndsOutside-last p [] c e = e
EndsOutside-last p (d ∷ []) c e = e
EndsOutside-last p (d ∷ x ∷ s) c e = EndsOutside-last p (x ∷ s) c e

-- A line as `receiveBody` reads it, without its end.
pub trim_line-crlf :
    ⦃boost : Boost⦄ (line : Bytes)
    → IsFree is_return line
    → trim_line (line ++ (13 ∷ 10 ∷ [])) ≡ line
trim_line-crlf ⦃boost⦄ line f =
    let one =
      boost.trim_right_if_lem is_feed (line ++ (13 ∷ [])) (10 ∷ []) (refl, tt)
        (EndsOutside-last is_feed line 13 refl) in
    ap (boost.trim_right_if is_return)
      (ap (boost.trim_right_if is_feed) (sym (append_assoc line (13 ∷ []) (10 ∷ []))) ∙ one)
    ∙ trim_return line (IsFree-EndsOutside is_return line f)

-- A class that a numeral has no character of.
pub IsNumeral-IsFree :
    (p : ℕ → Bool) (s : Bytes)
    → ((c : ℕ) → is_numeral c ≡ true → p c ≡ false)
    → All (λ c. is_numeral c ≡ true) s
    → IsFree p s
IsNumeral-IsFree p [] f a = tt
IsNumeral-IsFree p (c ∷ s) f (d, a) = (f c d, IsNumeral-IsFree p s f a)

digits-IsNumeral :
    (rounds n : ℕ) (behind : Bytes)
    → All (λ c. is_numeral c ≡ true) behind
    → All (λ c. is_numeral c ≡ true) (digits rounds n behind)
digits-IsNumeral zero n behind a = a
digits-IsNumeral (suc rounds) n behind a = elim (Bool-cases (ltb n 10)) [
  | inl last ↦ rw last (ground arith, a)
  | inr more ↦
      let digit : is_numeral (48 + n % 10) ≡ true = ground arith in
      rw more (digits-IsNumeral rounds (n / 10) ((48 + n % 10) ∷ behind) (digit, a))
]

-- A number is written in digits alone.
pub decimal-IsNumeral : (n : ℕ) → All (λ c. is_numeral c ≡ true) (decimal n)
unfolding decimal
decimal-IsNumeral n = digits-IsNumeral 20 n [] tt
