-- ===== src/Client/TcpTransport/Loop.antt =====
-- The loop of `processMessage` in src/lib/tcp-transport.cpp, on the beginning of a stream of blocks.
use f_copss.Prelude.Outcome.{value}
use f_copss.Ndn.{Block}
use f_copss.Ndn.Encoding.{Encoding}
use f_copss.Router.TcpTransport.{max_packet_size}
use f_copss.Ndn.Wire.{Wire}
use f_copss.Client.TcpTransport.Reception.{
  process, Processed, pass_on, incomplete, complete, End, keep,
}
use f_copss.Prelude.{
  zero, drop-append, All, length-append, arith, append_assoc, ◌∙◌, sym, ap, refl, inr, ◌+◌, inl, ok,
  Option-cases, drop, suc, some, none, ◌≤◌, err, ◌<◌, [], length, ◌++◌, ◌∷◌, ℕ, ◌≡◌, Bytes, List,
}
use f_copss.Router.TcpTransport.Stream.{
  concat, IsWhole, append-front, append_cancel, IsWhole-append,
}
use f_copss.Client.TcpTransport.{Effect, read, raise}

-- How the loop ends in front of these octets.
abbrev pub end_of : Bytes → End
end_of [] = complete
end_of (b ∷ s) = incomplete

-- The octets are less than the first of the blocks.
abbrev pub IsShort : Bytes → List Bytes → Type 0
IsShort s [] = s ≡ []
IsShort s (w ∷ ws) = length s < length w

pub keep_lem :
    (front rest buffer : Bytes) (offset : ℕ)
    → buffer ≡ front ++ rest
    → offset ≡ length front
    → keep offset buffer rest ≡ rest
unfolding keep
keep_lem [] rest buffer offset e o = rw o e
keep_lem (b ∷ front) [] buffer offset e o = ground arith
keep_lem (b ∷ front) (r ∷ rest) buffer offset e o =
    let l = ap length e ∙ length-append (b ∷ front) (r ∷ rest) in ground arith

module _ ⦃wire : Wire⦄ ⦃encoding : Encoding⦄ (element : Bytes → Block) where
  -- The calls for one block that decodes.
  abbrev pub passed : Bytes → List Effect
  passed w = elim (pass_on element w) [ err error ↦ raise ∷ [] | ok effects ↦ effects ]

  abbrev pub all_passed : List Bytes → List Effect
  all_passed [] = []
  all_passed (w ∷ ws) = passed w ++ all_passed ws

  -- A block that can be read by itself, fits into the buffer and is passed on without an exception.
  abbrev pub IsSound : Bytes → Type 0
  IsSound w = IsWhole w × (length w ≤ max_packet_size) × (pass_on element w ≡ ok (passed w))

  -- The loop read the first blocks `us` of a stream of the blocks `ws`, of which `later` is still to
  -- arrive.
  abbrev pub IsProcessed : Bytes → Bytes → List Bytes → Processed → Type 0
  IsProcessed buffer later ws p =
      (us ws' : List Bytes) × (ws ≡ us ++ ws')
      × (p.effects ≡ all_passed us)
      × (p.offset ≡ length (concat us))
      × (buffer ≡ concat us ++ p.rest)
      × (p.rest ++ later ≡ concat ws')
      × IsShort p.rest ws'
      × (p.end ≡ end_of p.rest)

  process-stuck :
      (n b : ℕ) (s : Bytes)
      → wire.from_buffer (b ∷ s) ≡ none
      → process element (suc n) (b ∷ s)
        ≡ value (record { effects = []; offset = 0; end = incomplete; rest = b ∷ s })
  unfolding process
  process-stuck n b s e = rw (e, process) refl

  process-read :
      (n b : ℕ) (s w rest : Bytes) (effects : List Effect) (p : Processed)
      → wire.from_buffer (b ∷ s) ≡ some w
      → drop (length w) (b ∷ s) ≡ rest
      → pass_on element w ≡ ok effects
      → process element n rest ≡ value p
      → process element (suc n) (b ∷ s)
        ≡ value (record p { effects = effects ++ p.effects; offset = length w + p.offset })
  unfolding process
  process-read n b s w rest effects p e behind passes ran =
      let ran' = ap (process element n) behind ∙ ran in rw (e, passes, process, ran') refl

  -- A block cannot be read from less than its octets.
  from_buffer-short :
      (w b m later : Bytes)
      → IsWhole w
      → b ++ later ≡ w ++ m
      → length b < length w
      → wire.from_buffer b ≡ none
  from_buffer-short w b m later whole e short = elim (Option-cases (wire.from_buffer b)) [
    | inl none_read ↦ none_read
    | inr (v, read) ↦
        let (rest, front) = wire.from_buffer-front b v read in
        let read' = wire.from_buffer-local v rest (rest ++ later) (rw front at read) in
        let stream : v ++ (rest ++ later) ≡ w ++ m =
          sym (append_assoc v rest later) ∙ ap (λ x. x ++ later) (sym front) ∙ e in
        let same : v ≡ w = let whole' = IsWhole-append w m whole in cc in
        absurd (omega (arith, ap length front, length-append v rest, ap length same))
  ]

  -- As many rounds as there are octets are enough, and the blocks that are complete are passed on.
  pub process_lem :
      (n : ℕ) (buffer later : Bytes) (ws : List Bytes)
      → length buffer ≤ n
      → buffer ++ later ≡ concat ws
      → All IsSound ws
      → (p : Processed) × (process element n buffer ≡ value p) × IsProcessed buffer later ws p
  unfolding process
  process_lem n [] later [] l e a = (
    record { effects = []; offset = 0; end = complete; rest = [] },
    refl,
    ([], [], refl, refl, refl, refl, e, refl, refl),
  )
  process_lem n [] later (w ∷ ws) l e ((whole, fits, passes), a) = (
    record { effects = []; offset = 0; end = complete; rest = [] },
    refl,
    ([], w ∷ ws, refl, refl, refl, refl, e, wire.from_buffer-positive w w whole, refl),
  )
  process_lem zero (c ∷ s) later ws l e a = absurd (omega arith)
  process_lem (suc n) (c ∷ s) later [] l e a = absurd cc
  process_lem (suc n) (c ∷ s) later (w ∷ ws) l e ((whole, fits, passes), a) =
      elim (append-front w (c ∷ s) (concat ws) later (sym e)) [
        | inl short ↦ (
          record { effects = []; offset = 0; end = incomplete; rest = c ∷ s },
          process-stuck n c s (from_buffer-short w (c ∷ s) (concat ws) later whole e short),
          ([], w ∷ ws, refl, refl, refl, refl, e, short, refl),
        )
        | inr (m, front) ↦
            let positive = wire.from_buffer-positive w w whole in
            let behind =
              append_cancel w (m ++ later) (concat ws)
                (sym (append_assoc w m later) ∙ ap (λ x. x ++ later) (sym front) ∙ e) in
            let (p, ran, (us, ws', split, called, offset, parts, rest, short, ended)) =
              process_lem n m later ws (omega (arith, ap length front, length-append w m)) behind
                a in
            (
              record p { effects = passed w ++ p.effects; offset = length w + p.offset },
              process-read n c s w m (passed w) p
                  (ap wire.from_buffer front ∙ IsWhole-append w m whole)
                  (ap (drop (length w)) front ∙ drop-append w m) passes ran,
              (
                w ∷ us,
                ws',
                ap (λ x. w ∷ x) split,
                ap (λ x. passed w ++ x) called,
                omega (arith, length-append w (concat us)),
                front ∙ ap (λ x. w ++ x) parts ∙ sym (append_assoc w (concat us) p.rest),
                rest,
                short,
                ended,
              ),
            )
      ]
