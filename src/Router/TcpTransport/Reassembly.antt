-- ===== src/Router/TcpTransport/Reassembly.antt =====
-- The receiving side of src/router/tcp-transport.cpp: whatever the pieces in which a stream arrives,
-- the face is handed the blocks of the stream.
use mathlib.Core.List.{append_assoc, append-nil}
use f_copss.Router.TcpTransport.Drain.{handle_receive-drain, drain-IsDrained, settle_lem}
use f_copss.Prelude.Outcome.{◌>>=◌}
use f_copss.Router.TcpTransport.Stream.{
  IsSplit-concat, IsSplit-unique, IsSplit-append, IsSplit-bound, IsWhole, concat, IsSplit,
}
use f_copss.Ndn.Wire.{Wire}
use f_copss.Router.TcpTransport.{
  after_drain, success, Outcome, handle_receive, face_shutdown, close, write, max_packet_size,
  value, receive, Transport, deliver, Drained, cancel, settle, Effect,
}
use f_copss.Prelude.{
  All-map, sym, subst, ◌∙◌, Option, arith, inl, refl, true, ◌<◌, ◌≤◌, ap, [], length, ℕ, map, ◌≡◌,
  ◌∷◌, ◌++◌, All, Bytes, List,
}

-- What a face is handed.
abbrev pub deliveries : List Effect → List Bytes
deliveries [] = []
deliveries (deliver w ∷ es) = w ∷ deliveries es
deliveries (_ ∷ es) = deliveries es

-- The transport was not shut down.
abbrev pub IsKept : Effect → Type 0
IsKept cancel = ⊥
IsKept _ = Unit

deliveries-append : (es fs : List Effect) → deliveries (es ++ fs) ≡ deliveries es ++ deliveries fs
deliveries-append [] fs = refl
deliveries-append (deliver w ∷ es) fs = ap (λ x. w ∷ x) (deliveries-append es fs)
deliveries-append (receive t ∷ es) fs = deliveries-append es fs
deliveries-append (write w ∷ es) fs = deliveries-append es fs
deliveries-append (cancel ∷ es) fs = deliveries-append es fs
deliveries-append (close ∷ es) fs = deliveries-append es fs
deliveries-append (face_shutdown ∷ es) fs = deliveries-append es fs

deliveries-deliver : (ws : List Bytes) → deliveries (map deliver ws) ≡ ws
deliveries-deliver [] = refl
deliveries-deliver (w ∷ ws) = ap (λ x. w ∷ x) (deliveries-deliver ws)

All-append : (es fs : List Effect) → All IsKept es → All IsKept fs → All IsKept (es ++ fs)
All-append [] fs a b = b
All-append (e ∷ es) fs (k, a) b = (k, All-append es fs a b)

deliver-IsKept : (ws : List Bytes) → All IsKept (map deliver ws)
deliver-IsKept [] = tt
deliver-IsKept (w ∷ ws) = (tt, deliver-IsKept ws)

delivered_after :
    (us us' : List Bytes) (timeout : Option ℕ) (effects : List Effect)
    → deliveries effects ≡ us'
    → deliveries ((map deliver us ++ (receive timeout ∷ [])) ++ effects) ≡ us ++ us'
delivered_after us us' timeout effects e =
    rw
      (
        deliveries-append (map deliver us ++ (receive timeout ∷ [])) effects,
        deliveries-append (map deliver us) (receive timeout ∷ []),
        deliveries-deliver us,
        append-nil us,
        e,
      )
      refl

module _ ⦃wire : Wire⦄ where
  after_drain_lem :
      (buffer : Bytes) (d : Drained) (t t' : Transport) (effects : List Effect)
      → t.has_face ≡ true
      → settle buffer d t ≡ (t', effects)
      → after_drain buffer d t ≡ (t', map deliver d.blocks ++ effects)
  after_drain_lem buffer d t t' effects face settled = rw settled (rw face refl)

  -- One arrival, on a transport with a face.
  handle_receive-kept :
      (t : Transport) (chunk : Bytes)
      → t.has_face ≡ true
      → ((rest : Bytes) → IsSplit (t.received ++ chunk) [] rest → length rest < max_packet_size)
      → (ws : List Bytes) × (rest : Bytes) × (timeout : Option ℕ) × IsSplit
          (t.received ++ chunk)
          ws
          rest
        × (handle_receive success chunk t
            ≡ value (record t { received = rest }, map deliver ws ++ (receive timeout ∷ [])))
  handle_receive-kept t chunk face room =
      let buffer = t.received ++ chunk in
      let (d, ran, drained) = drain-IsDrained (length buffer) buffer (omega arith) in
      let small : d.blocks ≡ [] → length buffer < max_packet_size = λ e.
        let unread = subst (λ ws. IsSplit buffer ws d.rest) e drained.0 in
        omega (arith, ap length unread.0, room d.rest unread) in
      let (timeout, settled) = settle_lem buffer d t drained small in
      (
        d.blocks,
        d.rest,
        timeout,
        drained.0,
        handle_receive-drain t chunk d ran ∙ ap value (after_drain_lem buffer d t _ _ face settled),
      )

  -- The pieces of a stream, one after the other.
  unfoldable pub receive_all : List Bytes → Transport → Outcome (Transport × List Effect)
  receive_all [] t = value (t, [])
  receive_all (chunk ∷ chunks) t = do
    (t', effects) ← handle_receive success chunk t
    (t'', effects') ← receive_all chunks t'
    value (t'', effects ++ effects')

  receive_all-cons :
      (chunk : Bytes) (chunks : List Bytes) (t t' t'' : Transport) (es es' : List Effect)
      → handle_receive success chunk t ≡ value (t', es)
      → receive_all chunks t' ≡ value (t'', es')
      → receive_all (chunk ∷ chunks) t ≡ value (t'', es ++ es')
  unfolding receive_all
  receive_all-cons chunk chunks t t' t'' es es' e e' = rw (e, e') refl

  -- From any point of the stream on.
  receive_all-from :
      (chunks : List Bytes) (t : Transport) (h : Bytes) (vs ws : List Bytes)
      → t.has_face ≡ true
      → IsSplit h vs t.received
      → All (λ w. IsWhole w × (length w ≤ max_packet_size)) ws
      → h ++ concat chunks ≡ concat ws
      → (us : List Bytes) × (rest : Bytes) × (effects : List Effect) × (receive_all chunks t
          ≡ value (record t { received = rest }, effects))
        × IsSplit (h ++ concat chunks) (vs ++ us) rest
        × (deliveries effects ≡ us)
        × All IsKept effects
  unfolding receive_all
  receive_all-from [] t h vs ws face split whole stream =
      ([], t.received, [], refl, rw (append-nil h, append-nil vs) split, refl, tt)
  receive_all-from (chunk ∷ chunks) t h vs ws face split whole stream =
      let stream' = append_assoc h chunk (concat chunks) ∙ stream in
      let room : (rest : Bytes)
          → IsSplit (t.received ++ chunk) [] rest
          → length rest < max_packet_size =
        λ rest i.
          IsSplit-bound max_packet_size (h ++ chunk) (concat chunks) (vs ++ []) ws rest whole
            (omega arith) stream' (IsSplit-append h vs t.received chunk [] rest split i) in
      let (us, rest, timeout, i, ran) = handle_receive-kept t chunk face room in
      let (us', rest', effects, ran', split', delivered, kept) =
        receive_all-from chunks (record t { received = rest }) (h ++ chunk) (vs ++ us) ws face
          (IsSplit-append h vs t.received chunk us rest split i) whole stream' in
      (
        us ++ us',
        rest',
        (map deliver us ++ (receive timeout ∷ [])) ++ effects,
        receive_all-cons chunk chunks t _ _ _ _ ran ran',
        subst (λ s. IsSplit s (vs ++ (us ++ us')) rest') (append_assoc h chunk (concat chunks))
            (subst (λ x. IsSplit ((h ++ chunk) ++ concat chunks) x rest') (append_assoc vs us us')
              split'),
        delivered_after us us' timeout effects delivered,
        All-append (map deliver us ++ (receive timeout ∷ [])) effects
            (All-append (map deliver us) (receive timeout ∷ []) (deliver-IsKept us) (tt, tt)) kept,
      )

  -- A stream of blocks of at most 8192 octets reaches the face block by block and in order, in
  -- whatever pieces it arrives, and the transport stays up with an empty buffer.
  pub receive_all-concat :
      (t : Transport) (chunks ws : List Bytes)
      → t.has_face ≡ true
      → t.received ≡ []
      → All (λ w. IsWhole w × (length w ≤ max_packet_size)) ws
      → concat chunks ≡ concat ws
      → (effects : List Effect) × (receive_all chunks t ≡ value (t, effects))
        × (deliveries effects ≡ ws)
        × All IsKept effects
  receive_all-concat t chunks ws face empty whole stream =
      let (us, rest, effects, ran, split, delivered, kept) =
        receive_all-from chunks t [] [] ws face (sym empty, inl empty) whole stream in
      let alone = All-map (λ w x. x.0) ws whole in
      let (same, emptied) =
        IsSplit-unique (concat chunks) us ws rest [] split
          (subst (λ s. IsSplit s ws []) (sym stream) (IsSplit-concat ws alone)) in
      (
        effects,
        ran ∙ ap (λ r. value (record t { received = r }, effects)) (emptied ∙ sym empty),
        delivered ∙ same,
        kept,
      )
