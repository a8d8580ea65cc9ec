-- ===== src/Prelude/Decimal.antt =====
-- The text of unsigned numbers.
use f_copss.Prelude.Tests.{ltb, if◌then◌else◌, Bytes}
use Prim.Native.Nat.{ℕ, zero, suc, ◌+◌, ◌/◌, ◌%◌}
use mathlib.Core.List.{[], ◌∷◌}

-- The digits of a number, behind the digits that are given.
abbrev pub digits : ℕ → ℕ → Bytes → Bytes
digits zero n behind = behind
digits (suc rounds) n behind =
    let rest = digits rounds (n / 10) ((48 + n % 10) ∷ behind) in
    if ltb n 10 then (48 + n) ∷ behind else rest

-- A `uint64_t` on a stream; it has twenty digits at most.
unfoldable pub decimal : ℕ → Bytes
decimal n = digits 20 n []
