-- ===== src/Tests/DumpWitnesses.antt =====
-- `rtctrl fibdump` on the network of README.md.
use f_copss.Prelude.Outcome.{value}
use f_copss.Cd.Printer.{to_uri}
use Prim.Native.Nat.{◌/◌}
use native.Mathlib.Nat.{pow-suc}
use f_copss.Rtctrl.Dumps.{Asio, find, with_delimiter, fib_dump}
use f_copss.Rtctrl.Dumps.Text.{Numerals, Splits, IsNumeral, is_numeral}
use f_copss.Rtctrl.Dumps.Used.{member, leads, IsDistinct}
use f_copss.Rtctrl.Dumps.Shown
use f_copss.Rtctrl.Dumps.Shown.{printed, IsShowable}
use f_copss.Rtctrl.Dumps.Answers.{answer_of}
use f_copss.Router.Dumps.{
  LocalTime, dump_fib, dump_faces, dump_table, hops_text, fib_hop_text, face_text,
}
use f_copss.Router.Fib
use f_copss.Router.CmdServer.Platform.{Host}
use f_copss.Boost.{IsFree}
use f_copss.Prelude.Decimal.{decimal, digits}
use f_copss.Prelude.Text.{codes}
use f_copss.Tests.Instances.{split_at, ndn_model, boost_model}
use f_copss.Tests.ControlWitnesses.{udp_ends, below, below_bound, decimal_from}
use f_copss.Tests.Witnesses.{uri_model}
use f_copss.Tests.Samples.{router}
use f_copss.Prelude.{
  ◌%◌, List, Bool, Option-cases, inr, ◌-◌, inl, ◌&&◌, ltb, leb, Bool-cases, ◌*◌, All, ◌≤◌, length,
  ◌^◌, ◌+◌, ◌≡◌, ◌<◌, Option, ℕ, Bytes, [], ◌∷◌, some, none, refl, arith, ◌++◌, ap, ◌∙◌, true, ok,
  zero, suc, sym,
}

-- A number has a digit.
abbrev read_number : Bytes → Option ℕ
read_number [] = none
read_number (c ∷ s) = decimal_from 0 (c ∷ s)

instance abbrev strict_host : Host
strict_host = record {
  lexical_cast = λ limit s. below limit (read_number s);
  lexical_cast_bound = λ limit s n e. below_bound limit (read_number s) n e;
  udp_connect = λ ip port. ok (udp_ends ip port);
}

decimal_from-digit :
    (n d : ℕ) (s : Bytes) → d < 10 → decimal_from n ((48 + d) ∷ s) ≡ decimal_from (10 * n + d) s
decimal_from-digit n d s l =
    let test : (leb 48 (48 + d) && leb (48 + d) 57) ≡ true = ground arith in
    let value : 48 + d - 48 ≡ d = omega arith in rw (test, value) refl

decimal_from-digits :
    (k n : ℕ) (behind : Bytes)
    → n < 10 ^ k
    → decimal_from 0 (digits k n behind) ≡ decimal_from n behind
decimal_from-digits zero n behind l = let e : n ≡ 0 = omega arith in rw e refl
decimal_from-digits (suc k) n behind l = elim (Bool-cases (ltb n 10)) [
  | inl last ↦
      let e : 10 * 0 + n ≡ n = omega arith in
      rw last (decimal_from-digit 0 n behind (ground arith) ∙ ap (λ m. decimal_from m behind) e)
  | inr more ↦
      let e : 10 * (n / 10) + n % 10 ≡ n = omega arith in
      rw more (
        decimal_from-digits k (n / 10) ((48 + n % 10) ∷ behind) (omega (arith, pow-suc 10 k))
        ∙ decimal_from-digit (n / 10) (n % 10) behind (omega arith)
        ∙ ap (λ m. decimal_from m behind) e)
]

digits-long : (k n : ℕ) (behind : Bytes) → 0 < length behind → 0 < length (digits k n behind)
digits-long zero n behind l = l
digits-long (suc k) n behind l = elim (Bool-cases (ltb n 10)) [
  | inl last ↦ rw last (omega arith)
  | inr more ↦ rw more (digits-long k (n / 10) ((48 + n % 10) ∷ behind) (omega arith))
]

read_number-long : (s : Bytes) → 0 < length s → read_number s ≡ decimal_from 0 s
read_number-long [] l = absurd (omega arith)
read_number-long (c ∷ s) l = refl

decimal-long : (n : ℕ) → 0 < length (decimal n)
unfolding decimal
decimal-long n = elim (Bool-cases (ltb n 10)) [
  | inl last ↦ rw last (omega arith)
  | inr more ↦ rw more (digits-long 19 (n / 10) ((48 + n % 10) ∷ []) (omega arith))
]

below-some : (limit n : ℕ) → n < limit → below limit (some n) ≡ some n
below-some limit n l = ground arith

read-decimal :
    (limit n : ℕ) → n < limit → limit ≤ 2 ^ 64 → below limit (read_number (decimal n)) ≡ some n
unfolding decimal
read-decimal limit n l b =
    ap (below limit)
      (read_number-long (decimal n) (decimal-long n) ∙ decimal_from-digits 20 n [] (omega arith))
    ∙ below-some limit n l

decimal_from-All :
    (m n : ℕ) (s : Bytes) → decimal_from m s ≡ some n → All (λ c. is_numeral c ≡ true) s
decimal_from-All m n [] e = tt
decimal_from-All m n (c ∷ s) e = elim (Bool-cases (leb 48 c && leb c 57)) [
  | inl digit ↦ (ground arith, decimal_from-All (10 * m + (c - 48)) n s (rw digit at e))
  | inr other ↦ absurd (let impossible = rw other at e in cc)
]

read-IsNumeral : (limit n : ℕ) (s : Bytes) → below limit (read_number s) ≡ some n → IsNumeral s
read-IsNumeral limit n [] e = cc
read-IsNumeral limit n (c ∷ s) e = elim (Option-cases (decimal_from 0 (c ∷ s))) [
  | inl f ↦ absurd (let impossible = sym (ap (below limit) f) ∙ e in cc)
  | inr (m, f) ↦ (omega arith, decimal_from-All 0 m (c ∷ s) f)
]

instance abbrev numerals_model : Numerals
numerals_model = record {
  lexical_cast-decimal = read-decimal;
  lexical_cast-IsNumeral = read-IsNumeral;
}

split-cons_model :
    (p : ℕ → Bool) (c : ℕ) (w rest : Bytes)
    → p c ≡ true
    → IsFree p w
    → split_at p (w ++ (c ∷ rest)) ≡ w ∷ split_at p rest
split-cons_model p c [] rest e f = rw e refl
split-cons_model p c (d ∷ w) rest e (other, f) = rw (other, split-cons_model p c w rest e f) refl

instance abbrev splits_model : Splits
splits_model = record { split-cons = split-cons_model }

instance abbrev asio_model : Asio
asio_model = record {
  read_until = λ w stream. with_delimiter w (find w stream);
  read_until_lem = λ w stream. refl;
}

instance abbrev time_model : LocalTime
time_model = record { local_time = decimal }

router-IsShowable : IsShowable router
unfolding to_uri dump_table fib_hop_text hops_text dump_faces face_text decimal
router-IsShowable = record {
  fib_entries = ground arith;
  fib_lines = ground arith;
  face_lines = ground arith;
  face_ids = omega arith;
  fib_count = omega arith;
  face_count = omega arith;
}

fib_dump-prints_example :
    (ids : List ℕ) × IsDistinct ids
    × ((id : ℕ) → member id ids ≡ leads Fib.hop_face id router.fib)
    × (fib_dump (answer_of router) (codes "rtctrl" ∷ codes "fibdump" ∷ [])
        ≡ value
            (ok (printed (codes "FIB-COUNT") (dump_fib router.fib) ids router.faces.face_table)))
fib_dump-prints_example =
    Shown.fib_dump-prints router (codes "rtctrl" ∷ codes "fibdump" ∷ []) refl router-IsShowable
