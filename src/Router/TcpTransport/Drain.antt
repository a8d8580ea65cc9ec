-- ===== src/Router/TcpTransport/Drain.antt =====
-- The loop of `handleReceive` in src/router/tcp-transport.cpp, and what is done behind it.
use f_copss.Router.TcpTransport.Stream.{concat, IsSplit}
use f_copss.Ndn.Wire.{Wire}
use f_copss.Router.TcpTransport.{
  after_drain, success, handle_receive, read_one, max_packet_size, value, receive, Transport,
  Drained, settle, drain,
}
use f_copss.Prelude.{
  some, none, Bool, zero, drop-append, ◌∙◌, drop, inr, false, Option-cases, length-append, suc,
  Option, arith, inl, ◌↔◌, ◌+◌, refl, true, ◌<◌, ◌≤◌, ap, [], length, ℕ, ◌≡◌, ◌∷◌, ◌++◌, Bytes,
  List,
}

module _ ⦃wire : Wire⦄ where
  -- What the loop leaves behind: the blocks of the buffer and its rest, how long the blocks are, and
  -- whether it came to the end.
  abbrev pub IsDrained : Bytes → Drained → Type 0
  IsDrained s d =
      IsSplit s d.blocks d.rest
      × (d.offset ≡ length (concat d.blocks))
      × ((d.ok ≡ true) ↔ (d.rest ≡ []))

  drain-stuck :
      (n c : ℕ) (s : Bytes)
      → wire.from_buffer (c ∷ s) ≡ none
      → drain (suc n) (c ∷ s) ≡ value (record { blocks = []; offset = 0; ok = false; rest = c ∷ s })
  unfolding drain
  drain-stuck n c s e = rw (e, drain) refl

  drain-read :
      (n c : ℕ) (s w rest : Bytes) (d : Drained)
      → wire.from_buffer (c ∷ s) ≡ some w
      → drop (length w) (c ∷ s) ≡ rest
      → drain n rest ≡ value d
      → drain (suc n) (c ∷ s) ≡ value (read_one w d)
  unfolding drain
  drain-read n c s w rest d e behind ran =
      let ran' = ap (drain n) behind ∙ ran in rw (e, drain, ran') refl

  -- As many rounds as there are octets are enough for the loop.
  pub drain-IsDrained :
      (n : ℕ) (s : Bytes) → length s ≤ n → (d : Drained) × (drain n s ≡ value d) × IsDrained s d
  unfolding drain
  drain-IsDrained n [] l = (
    record { blocks = []; offset = 0; ok = true; rest = [] },
    refl,
    ((refl, inl refl), refl, ((λ _. refl), (λ _. refl))),
  )
  drain-IsDrained zero (c ∷ s) l = absurd (omega arith)
  drain-IsDrained (suc n) (c ∷ s) l = elim (Option-cases (wire.from_buffer (c ∷ s))) [
    | inl e ↦ (
      record { blocks = []; offset = 0; ok = false; rest = c ∷ s },
      drain-stuck n c s e,
      ((refl, inr e), refl, ((λ h. cc), (λ h. cc))),
    )
    | inr (w, e) ↦
        let (rest, front) = wire.from_buffer-front (c ∷ s) w e in
        let positive = wire.from_buffer-positive (c ∷ s) w e in
        let behind : drop (length w) (c ∷ s) ≡ rest =
          ap (drop (length w)) front ∙ drop-append w rest in
        let (d, ran, (split, offset, ok)) =
          drain-IsDrained n rest (omega (arith, ap length front, length-append w rest)) in
        (
          read_one w d,
          drain-read n c s w rest d e behind ran,
          (
            (rest, front, rw front at e, split),
            omega (arith, length-append w (concat d.blocks)),
            ok,
          ),
        )
  ]

  pub IsSplit-length :
      (s : Bytes) (ws : List Bytes) (rest : Bytes)
      → IsSplit s ws rest
      → length s ≡ length (concat ws) + length rest
  IsSplit-length s [] rest (e, _) = omega (arith, ap length e)
  IsSplit-length s (w ∷ ws) rest (s', e, f, i) = omega (
    arith,
    ap length e,
    length-append w s',
    length-append w (concat ws),
    IsSplit-length s' ws rest i,
  )

  settle-unread :
      (buffer : Bytes) (d : Drained) (t : Transport)
      → d.offset ≡ 0
      → length buffer < max_packet_size
      → settle buffer d t ≡ (record t { received = buffer }, receive t.receive_timeout ∷ [])
  unfolding settle
  settle-unread buffer d t none_read room = ground arith

  settle-read :
      (buffer : Bytes) (blocks : List Bytes) (offset : ℕ) (ok : Bool) (rest : Bytes) (t : Transport)
      → 0 < offset
      → length buffer ≡ offset + length rest
      → (timeout : Option ℕ) × (settle buffer
            (record { blocks = blocks; offset = offset; ok = ok; rest = rest })
            t
          ≡ (record t { received = rest }, receive timeout ∷ []))
  unfolding settle
  settle-read buffer blocks offset ok [] t read l = (none, ground arith)
  settle-read buffer blocks offset ok (c ∷ s) t read l = (t.receive_timeout, ground arith)

  settle_parts :
      (buffer : Bytes) (blocks : List Bytes) (offset : ℕ) (ok : Bool) (rest : Bytes) (t : Transport)
      → IsSplit buffer blocks rest
      → offset ≡ length (concat blocks)
      → (blocks ≡ [] → length buffer < max_packet_size)
      → (timeout : Option ℕ) × (settle buffer
            (record { blocks = blocks; offset = offset; ok = ok; rest = rest })
            t
          ≡ (record t { received = rest }, receive timeout ∷ []))
  settle_parts buffer [] offset ok rest t split o room = (
    t.receive_timeout,
    settle-unread buffer (record { blocks = []; offset = offset; ok = ok; rest = rest }) t o
          (room refl)
        ∙ rw split.0 refl,
  )
  settle_parts buffer (w ∷ ws) offset ok rest t split o room =
      let positive = wire.from_buffer-positive (w ++ split.0) w split.2 in
      settle-read buffer (w ∷ ws) offset ok rest t (omega (arith, length-append w (concat ws)))
        (omega (arith, IsSplit-length buffer (w ∷ ws) rest split))

  -- Unless the buffer is full of one unfinished block, its rest is kept and more is received.
  pub settle_lem :
      (buffer : Bytes) (d : Drained) (t : Transport)
      → IsDrained buffer d
      → (d.blocks ≡ [] → length buffer < max_packet_size)
      → (timeout : Option ℕ) × (settle buffer d t
          ≡ (record t { received = d.rest }, receive timeout ∷ []))
  settle_lem buffer d t (split, offset, ok) room =
      settle_parts buffer d.blocks d.offset d.ok d.rest t split offset room

  pub handle_receive-drain :
      (t : Transport) (chunk : Bytes) (d : Drained)
      → drain (length (t.received ++ chunk)) (t.received ++ chunk) ≡ value d
      → handle_receive success chunk t ≡ value (after_drain (t.received ++ chunk) d t)
  unfolding handle_receive
  handle_receive-drain t chunk d ran = rw ran refl
