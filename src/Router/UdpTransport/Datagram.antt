-- ===== src/Router/UdpTransport/Datagram.antt =====
-- What becomes of the datagrams that reach src/router/udp-transport.cpp.
use mathlib.Core.List.{append-nil}
use f_copss.Router.TcpTransport.{success, deliver, receive, cancel}
use f_copss.Router.UdpTransport.{handle_datagram, handle_block, Transport, handle_receive}
use f_copss.Prelude.{
  length-append, arith, sym, ◌++◌, ◌∙◌, false, ap, ℕ, refl, length, ltb, Bool-cases, Option-cases,
  inl, inr, ◌≢◌, ◌⊎◌, [], none, ◌∷◌, true, some, ◌≡◌, Bytes,
}
use f_copss.Ndn.Wire.{Wire}

module _ ⦃wire : Wire⦄ where
  abbrev pub IsDatagram : Bytes → Type 0
  IsDatagram s = wire.from_buffer s ≡ some s

  datagram-stuck :
      (c : ℕ) (s : Bytes) (t : Transport)
      → wire.from_buffer (c ∷ s) ≡ none
      → handle_datagram (c ∷ s) t ≡ cancel ∷ []
  datagram-stuck c s t e = rw (e, handle_datagram) refl

  datagram-read :
      (c : ℕ) (s w : Bytes) (t : Transport)
      → wire.from_buffer (c ∷ s) ≡ some w
      → handle_datagram (c ∷ s) t ≡ handle_block w (c ∷ s) t
  datagram-read c s w t e = rw (e, handle_datagram) refl

  exact_front : (s w rest : Bytes) → s ≡ w ++ rest → ltb (length w) (length s) ≡ false → w ≡ s
  exact_front s w [] e l = sym (e ∙ append-nil w)
  exact_front s w (x ∷ rest) e l =
      let longer = ap length e ∙ length-append w (x ∷ rest) in absurd (ground arith)

  not_itself :
      (s w : Bytes)
      → wire.from_buffer s ≡ some w
      → ltb (length w) (length s) ≡ true
      → ¬ IsDatagram s
  not_itself s w e l d = let same : w ≡ s = cc in let long = ap length same in ground arith

  handle_block-trailer :
      (w s : Bytes) (t : Transport)
      → ltb (length w) (length s) ≡ true
      → handle_block w s t ≡ cancel ∷ []
  handle_block-trailer w s t l = rw l refl

  handle_block-exact :
      (w s : Bytes) (t : Transport)
      → t.has_face ≡ true
      → ltb (length w) (length s) ≡ false
      → handle_block w s t ≡ deliver w ∷ receive none ∷ []
  handle_block-exact w s t face l = rw (l, face) refl

  -- A datagram that is exactly one block is handed to the face and the transport goes on; an empty one
  -- is passed over; any other one is not handed on and shuts the transport down.
  pub handle_receive_lem :
      (t : Transport) (s : Bytes)
      → t.has_face ≡ true
      → (IsDatagram s × ((handle_receive success s t).1 ≡ deliver s ∷ receive none ∷ []))
        ⊎ ((s ≡ []) × ((handle_receive success s t).1 ≡ receive none ∷ []))
        ⊎ ((¬ IsDatagram s) × (s ≢ []) × ((handle_receive success s t).1 ≡ cancel ∷ []))
  unfolding handle_receive
  handle_receive_lem t [] face = inr (inl (refl, refl))
  handle_receive_lem t (c ∷ s) face =
      let t' = record t { received = c ∷ s; receive_error = success } in
      elim (Option-cases (wire.from_buffer (c ∷ s))) [
        | inl e ↦ inr (inr ((λ d. cc), (λ d. cc), datagram-stuck c s t' e))
        | inr (w, e) ↦
            let (rest, front) = wire.from_buffer-front (c ∷ s) w e in
            elim (Bool-cases (ltb (length w) (length (c ∷ s)))) [
              | inl trailer ↦ inr (
                  inr (
                    (λ d. not_itself (c ∷ s) w e trailer d),
                    (λ d. cc),
                    datagram-read c s w t' e ∙ handle_block-trailer w (c ∷ s) t' trailer,
                  ))
              | inr exact ↦
                  let same = exact_front (c ∷ s) w rest front exact in
                  inl (
                    e ∙ ap some same,
                    datagram-read c s w t' e
                        ∙ handle_block-exact w (c ∷ s) t' face exact
                        ∙ ap (λ x. deliver x ∷ receive none ∷ []) same,
                  )
            ]
      ]
