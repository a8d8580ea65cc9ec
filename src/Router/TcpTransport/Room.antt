-- ===== src/Router/TcpTransport/Room.antt =====
-- `handleReceive` of src/router/tcp-transport.cpp never asks for octets that it has no room for: the
-- connection goes on with room in the buffer, or it ends because a block does not fit in.
use f_copss.Router.TcpTransport.Stream.{concat, IsSplit, IsStuck}
use f_copss.Router.TcpTransport.Drain.{
  handle_receive-drain, drain-IsDrained, IsSplit-length, settle_lem, IsDrained,
}
use f_copss.Prelude.{
  true, Bool, length-append, refl, if◌then◌else◌, ◌+◌, ==_lem, ◌++◌, inr, ◌∙◌, ◌==◌, sym, arith,
  map, ap, [], ◌∷◌, subst, ℕ, inl, ◌⊎◌, Option, Bool-cases, ◌≤◌, ◌<◌, length, false, ◌≡◌, List,
  Bytes,
}
use f_copss.Router.TcpTransport.{
  value, success, handle_receive, after_drain, receive, deliver, cancel, max_packet_size, Effect,
  Drained, Transport, settle,
}
use f_copss.Ndn.Wire.{Wire}

nothing :
    (has_face : Bool) (ws : List Bytes) (effects : List Effect)
    → ws ≡ []
    → (if has_face then map deliver ws else []) ++ effects ≡ effects
nothing true ws effects e = rw e refl
nothing false ws effects e = refl

module _ ⦃wire : Wire⦄ where
  settle-full :
      (buffer : Bytes) (d : Drained) (t : Transport)
      → d.ok ≡ false
      → d.offset ≡ 0
      → length buffer ≡ max_packet_size
      → settle buffer d t ≡ (record t { received = buffer }, cancel ∷ [])
  unfolding settle
  settle-full buffer d t bad unread full = ground arith

  -- The loop did not come to the end of a buffer from which it read nothing.
  not_ok :
      (buffer : Bytes) (d : Drained)
      → IsDrained buffer d
      → d.rest ≡ buffer
      → length buffer ≡ max_packet_size
      → d.ok ≡ false
  not_ok buffer d (split, offset, ok) same full = elim (Bool-cases d.ok) [
    | inl good ↦ let gone = ap length (sym same ∙ ok.0 good) in absurd (omega arith)
    | inr bad ↦ bad
  ]

  -- What the loop read, when the connection goes on with room in its buffer.
  abbrev pub GoesOn : Bytes → Drained → Transport → Type 0
  GoesOn buffer d t =
      (timeout : Option ℕ) × (settle buffer d t
        ≡ (record t { received = d.rest }, receive timeout ∷ []))
      × (length d.rest < max_packet_size)

  -- The buffer is full and holds no whole block.
  abbrev pub IsOverfull : Bytes → Drained → Transport → Type 0
  IsOverfull buffer d t =
      (settle buffer d t ≡ (record t { received = buffer }, cancel ∷ []))
      × (length buffer ≡ max_packet_size)
      × IsStuck buffer
      × (d.blocks ≡ [])

  settle-branches :
      (buffer : Bytes) (d : Drained) (t : Transport) (blocks : List Bytes)
      → d.blocks ≡ blocks
      → IsDrained buffer d
      → length buffer ≤ max_packet_size
      → GoesOn buffer d t ⊎ IsOverfull buffer d t
  settle-branches buffer d t [] e drained l =
      let unread = subst (λ ws. IsSplit buffer ws d.rest) e drained.0 in
      let short = ap length unread.0 in
      elim (Bool-cases (length buffer == max_packet_size)) [
        | inl at_end ↦
            let full = ==_lem (length buffer) max_packet_size at_end in
            inr (
              settle-full buffer d t (not_ok buffer d drained (sym unread.0) full)
                  (drained.1 ∙ ap (λ ws. length (concat ws)) e) full,
              full,
              subst IsStuck (sym unread.0) unread.1,
              e,
            )
        | inr before_end ↦
            let room : length buffer < max_packet_size = ground arith in
            let (timeout, settled) = settle_lem buffer d t drained (λ _. room) in
            inl (timeout, settled, omega arith)
      ]
  settle-branches buffer d t (w ∷ ws) e drained l =
      let (timeout, settled) = settle_lem buffer d t drained (λ none_read. absurd cc) in
      let read = subst (λ us. IsSplit buffer us d.rest) e drained.0 in
      let positive = wire.from_buffer-positive (w ++ read.0) w read.2 in
      let shorter = IsSplit-length buffer (w ∷ ws) d.rest read in
      inl (timeout, settled, omega (arith, length-append w (concat ws)))

  after_drain-settle :
      (buffer : Bytes) (d : Drained) (t t' : Transport) (effects : List Effect)
      → settle buffer d t ≡ (t', effects)
      → after_drain buffer d t ≡ (t', (if t.has_face then map deliver d.blocks else []) ++ effects)
  after_drain-settle buffer d t t' effects settled = rw settled refl

  -- What arrives is either divided into blocks for the face and a rest that leaves room, or it fills
  -- the buffer without a whole block at its front, and the connection is shut down.
  pub handle_receive-branches :
      (t : Transport) (chunk : Bytes)
      → length t.received + length chunk ≤ max_packet_size
      → ((ws : List Bytes) × (rest : Bytes) × (timeout : Option ℕ) × (handle_receive success chunk t
            ≡ value (
              record t { received = rest },
              (if t.has_face then map deliver ws else []) ++ (receive timeout ∷ []),
            ))
          × IsSplit (t.received ++ chunk) ws rest
          × (length rest < max_packet_size))
        ⊎ ((handle_receive success chunk t
              ≡ value (record t { received = t.received ++ chunk }, cancel ∷ []))
            × (length (t.received ++ chunk) ≡ max_packet_size)
            × IsStuck (t.received ++ chunk))
  handle_receive-branches t chunk fits =
      let buffer = t.received ++ chunk in
      let (d, ran, drained) = drain-IsDrained (length buffer) buffer (omega arith) in
      let received = handle_receive-drain t chunk d ran in
      elim (settle-branches buffer d t d.blocks refl drained
        (omega (arith, length-append t.received chunk))) [
          | inl (timeout, settled, room) ↦ inl (
            d.blocks,
            d.rest,
            timeout,
            received ∙ ap value (after_drain-settle buffer d t _ _ settled),
            drained.0,
            room,
          )
          | inr (settled, full, stuck, unread) ↦ inr (
            received
                ∙ ap value (
                    after_drain-settle buffer d t _ _ settled
                    ∙ ap (λ es. (record t { received = buffer }, es))
                        (nothing t.has_face d.blocks (cancel ∷ []) unread)),
            full,
            stuck,
          )
        ]
