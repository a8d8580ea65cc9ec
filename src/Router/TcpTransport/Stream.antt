-- ===== src/Router/TcpTransport/Stream.antt =====
-- How `fromBuffer` divides a stream of octets into blocks, and that it does so in one way only.
use mathlib.Core.List.{append_assoc, append-nil}
use f_copss.Ndn.Wire.{Wire}
use f_copss.Prelude.{
  length-append, subst, arith, drop, ◌<◌, ap, refl, ◌≤◌, ◌∙◌, inr, Option-cases, drop-append,
  length, inl, none, some, ◌⊎◌, sym, All, ◌∷◌, ◌≡◌, ℕ, [], Bytes, ◌++◌, List,
}

pub append_cancel {ℓ} : {A : Type ℓ} (w a b : List A) → w ++ a ≡ w ++ b → a ≡ b
append_cancel w a b e = sym (drop-append w a) ∙ ap (drop (length w)) e ∙ drop-append w b

-- Of two beginnings of one list, the second one is shorter or goes on from the first.
pub append-front {ℓ} :
    {A : Type ℓ} (w s a b : List A)
    → w ++ a ≡ s ++ b
    → (length s < length w) ⊎ ((m : List A) × (s ≡ w ++ m))
append-front [] s a b e = inr (s, refl)
append-front (x ∷ w) [] a b e = inl (omega arith)
append-front (x ∷ w) (y ∷ s) a b e = elim (append-front w s a b cc) [
  | inl shorter ↦ inl (omega arith)
  | inr (m, front) ↦ inr (m, cc)
]

-- The blocks, one behind the other.
abbrev pub concat : List Bytes → Bytes
concat [] = []
concat (w ∷ ws) = w ++ concat ws

module _ ⦃wire : Wire⦄ where
  -- No block can be read from it.
  abbrev pub IsStuck : Bytes → Type 0
  IsStuck s = (s ≡ []) ⊎ (wire.from_buffer s ≡ none)

  -- The stream is these blocks, each one read from where the one before it ends, and a rest that
  -- holds no whole block.
  abbrev pub IsSplit : Bytes → List Bytes → Bytes → Type 0
  IsSplit s [] rest = (s ≡ rest) × IsStuck rest
  IsSplit s (w ∷ ws) rest =
      (s' : Bytes) × (s ≡ w ++ s') × (wire.from_buffer (w ++ s') ≡ some w) × IsSplit s' ws rest

  -- A block that can be read by itself.
  abbrev pub IsWhole : Bytes → Type 0
  IsWhole w = wire.from_buffer w ≡ some w

  from_buffer-nil : wire.from_buffer [] ≡ none
  from_buffer-nil = elim (Option-cases (wire.from_buffer [])) [
    | inl e ↦ e
    | inr (w, e) ↦
        let (rest, f) = wire.from_buffer-front [] w e in
        let p = wire.from_buffer-positive [] w e in
        absurd (omega (arith, ap length f, length-append w rest))
  ]

  IsStuck-none : (s : Bytes) → IsStuck s → wire.from_buffer s ≡ none
  IsStuck-none s (inl e) = rw e from_buffer-nil
  IsStuck-none s (inr e) = e

  pub IsWhole-append : (w rest : Bytes) → IsWhole w → wire.from_buffer (w ++ rest) ≡ some w
  IsWhole-append w rest h = wire.from_buffer-local w [] rest (rw (append-nil w) h)

  -- There is one way to split a stream.
  pub IsSplit-unique :
      (s : Bytes) (ws vs : List Bytes) (r r' : Bytes)
      → IsSplit s ws r
      → IsSplit s vs r'
      → (ws ≡ vs) × (r ≡ r')
  IsSplit-unique s [] [] r r' (e, _) (e', _) = (refl, sym e ∙ e')
  IsSplit-unique s [] (v ∷ vs) r r' (e, stuck) (s', e', f, _) =
      let n = IsStuck-none r stuck in absurd cc
  IsSplit-unique s (w ∷ ws) [] r r' (s', e', f, _) (e, stuck) =
      let n = IsStuck-none r' stuck in absurd cc
  IsSplit-unique s (w ∷ ws) (v ∷ vs) r r' (s', e, f, i) (s'', e', f', i') =
      let same : w ≡ v = cc in
      let tail = append_cancel w s' s'' cc in
      let (us, rs) = IsSplit-unique s' ws vs r r' i (subst (λ x. IsSplit x vs r') (sym tail) i') in
      (cc, rs)

  -- What arrives later goes on from the rest.
  pub IsSplit-append :
      (s : Bytes) (ws : List Bytes) (rest t : Bytes) (vs : List Bytes) (rest' : Bytes)
      → IsSplit s ws rest
      → IsSplit (rest ++ t) vs rest'
      → IsSplit (s ++ t) (ws ++ vs) rest'
  IsSplit-append s [] rest t vs rest' (e, _) later = rw e later
  IsSplit-append s (w ∷ ws) rest t vs rest' (s', e, f, i) later = (
    s' ++ t,
    rw (e, append_assoc w s' t) refl,
    wire.from_buffer-local w s' (s' ++ t) f,
    IsSplit-append s' ws rest t vs rest' i later,
  )

  -- A stream of whole blocks is split into these blocks.
  pub IsSplit-concat : (ws : List Bytes) → All IsWhole ws → IsSplit (concat ws) ws []
  IsSplit-concat [] a = (refl, inl refl)
  IsSplit-concat (w ∷ ws) (h, a) =
      (concat ws, refl, IsWhole-append w (concat ws) h, IsSplit-concat ws a)

  -- The rest of the beginning of a stream of whole blocks is shorter than one of them.
  pub IsSplit-bound :
      (bound : ℕ) (s later : Bytes) (vs : List Bytes) (ws : List Bytes) (rest : Bytes)
      → All (λ w. IsWhole w × (length w ≤ bound)) ws
      → 0 < bound
      → s ++ later ≡ concat ws
      → IsSplit s vs rest
      → length rest < bound
  IsSplit-bound bound s later [] [] rest a p e (same, stuck) =
      omega (arith, ap length e, length-append s later, ap length same)
  IsSplit-bound bound s later [] (w ∷ ws) rest ((whole, l), a) p e (same, stuck) =
      elim (append-front w s (concat ws) later (sym e)) [
        | inl shorter ↦ omega (arith, ap length same)
        | inr (m, front) ↦
            let n = IsStuck-none rest stuck in let read = IsWhole-append w m whole in absurd cc
      ]
  IsSplit-bound bound s later (v ∷ vs) [] rest a p e (s', front, f, i) =
      let positive = wire.from_buffer-positive (v ++ s') v f in
      absurd
        (omega (arith, ap length e, length-append s later, ap length front, length-append v s'))
  IsSplit-bound bound s later (v ∷ vs) (w ∷ ws) rest ((whole, l), a) p e (s', front, f, i) =
      let read = wire.from_buffer-local v s' (s' ++ later) f in
      let read' = IsWhole-append w (concat ws) whole in
      let stream : v ++ (s' ++ later) ≡ w ++ concat ws =
        sym (append_assoc v s' later) ∙ ap (λ x. x ++ later) (sym front) ∙ e in
      let same : v ≡ w = cc in
      let tail = append_cancel v (s' ++ later) (concat ws) cc in
      IsSplit-bound bound s' later vs ws rest a p tail i
