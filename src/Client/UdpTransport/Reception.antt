-- ===== src/Client/UdpTransport/Reception.antt =====
-- When the client's UDP transport of src/lib/udp-transport.cpp goes on receiving, and where it sends.
use f_copss.Prelude.{
  ◌∙◌, arith, Result-cases, true, ◌==◌, Error, sym, subst, refl, ap, Option-cases, ◌⊎◌, inr, inl,
  ◌∷◌, Bool-cases, some, All, ◌≡◌,
}
use f_copss.Client.UdpTransport.{
  none, err, false, read, List, [], ok, Bytes, Client, Effect, Endpoint, receive_handler,
  receive_block, write, recv, async_receive_from, async_send_to, recv_bad_message, raise, close_and,
  close,
}
use f_copss.Ndn.{Block}
use f_copss.Ndn.Encoding.{Encoding}
use f_copss.Ndn.Tlv
use f_copss.Ndn.Wire.{Wire}
use f_copss.Packets.{decode_pub}
use f_copss.Router.Forwarder.{Packet, pub_from_rp}
use f_copss.Router.TcpTransport.{success}

-- Nothing is passed on, and no further datagram is asked for.
abbrev pub IsSilent : Effect → Type 0
IsSilent (recv packet) = ⊥
IsSilent async_receive_from = ⊥
IsSilent _ = Unit

module _ ⦃wire : Wire⦄ ⦃encoding : Encoding⦄ (element : Bytes → Block) where
  -- The datagram starts with a block that decodes to this publication.
  abbrev pub IsPublication : Bytes → Packet → Type 0
  IsPublication datagram packet =
      (w : Bytes) × (wire.from_buffer datagram ≡ some w)
      × ((element w).type ≡ Tlv.pub_from_rp)
      × (decode_pub Tlv.pub_from_rp pub_from_rp (element w) ≡ ok packet)

  -- What becomes of a datagram.
  abbrev pub IsHandled : Bytes → Endpoint → Client × List Effect → Type 0
  IsHandled datagram sender r =
      (((p : Packet) × IsPublication datagram p × (r.1 ≡ recv p ∷ async_receive_from ∷ []))
        ⊎ (((p : Packet) → ¬ IsPublication datagram p) × All IsSilent r.1))
      × (r.0.endpoint ≡ sender)

  close_and-IsSilent :
      (c : Client)
      → All IsSilent (close_and recv_bad_message c).1
        × ((close_and recv_bad_message c).0.endpoint ≡ c.endpoint)
  unfolding close
  close_and-IsSilent c = elim (Bool-cases c.is_open) [
    | inl opened ↦ rw opened ((tt, (tt, tt)), refl)
    | inr shut ↦ rw shut ((tt, tt), refl)
  ]

  handled_by :
      (datagram w : Bytes) (sender : Endpoint) (c : Client)
      → wire.from_buffer datagram ≡ some w
      → receive_handler element success datagram sender c
        ≡ receive_block (element w) (record c { endpoint = sender })
  unfolding receive_handler
  handled_by datagram w sender c e = rw (e, receive_handler) refl

  unread :
      (datagram : Bytes) (sender : Endpoint) (c : Client)
      → wire.from_buffer datagram ≡ none
      → receive_handler element success datagram sender c
        ≡ close_and recv_bad_message (record c { endpoint = sender })
  unfolding receive_handler
  unread datagram sender c e = rw (e, receive_handler) refl

  receive_block-passed :
      (block : Block) (packet : Packet) (c : Client)
      → (block.type == Tlv.pub_from_rp) ≡ true
      → decode_pub Tlv.pub_from_rp pub_from_rp block ≡ ok packet
      → receive_block block c ≡ (c, recv packet ∷ async_receive_from ∷ [])
  unfolding receive_block read
  receive_block-passed block packet c same decoded = rw (same, decoded) refl

  receive_block-raised :
      (block : Block) (error : Error) (c : Client)
      → (block.type == Tlv.pub_from_rp) ≡ true
      → decode_pub Tlv.pub_from_rp pub_from_rp block ≡ err error
      → receive_block block c ≡ (c, raise ∷ [])
  unfolding receive_block
  receive_block-raised block error c same failed = rw (same, failed) refl

  receive_block-other :
      (block : Block) (c : Client)
      → (block.type == Tlv.pub_from_rp) ≡ false
      → receive_block block c ≡ (c, [])
  unfolding receive_block
  receive_block-other block c other = rw other refl

  receive_block-IsHandled :
      (datagram w : Bytes) (c : Client)
      → wire.from_buffer datagram ≡ some w
      → IsHandled datagram c.endpoint (receive_block (element w) c)
  receive_block-IsHandled datagram w c e =
      let block = element w in
      elim (Bool-cases (block.type == Tlv.pub_from_rp)) [
        | inl same ↦ elim (Result-cases (decode_pub Tlv.pub_from_rp pub_from_rp block)) [
          | inl (error, failed) ↦
              subst (IsHandled datagram c.endpoint)
                (sym (receive_block-raised block error c same failed))
                (inr ((λ p (v, f, t, decoded). let v_w : v ≡ w = cc in cc), (tt, tt)), refl)
          | inr (packet, decoded) ↦
              subst (IsHandled datagram c.endpoint)
                (sym (receive_block-passed block packet c same decoded))
                (inl (packet, (w, e, ground arith, decoded), refl), refl)
        ]
        | inr other ↦
            subst (IsHandled datagram c.endpoint) (sym (receive_block-other block c other)) (
              inr (
                (λ p (v, f, t, decoded).
                    let v_w : v ≡ w = cc in
                    let t' = ap (λ x. (element x).type) (sym v_w) ∙ t in ground arith),
                tt,
              ),
              refl,
            )
      ]

  receive_handler-IsHandled :
      (datagram : Bytes) (sender : Endpoint) (c : Client)
      → IsHandled datagram sender (receive_handler element success datagram sender c)
  receive_handler-IsHandled datagram sender c = elim (Option-cases (wire.from_buffer datagram)) [
    | inl e ↦
        let (silent, kept) = close_and-IsSilent (record c { endpoint = sender }) in
        subst (IsHandled datagram sender) (sym (unread datagram sender c e))
          (inr ((λ p (w, f, _, _). cc), silent), kept)
    | inr (w, e) ↦
        subst (IsHandled datagram sender) (sym (handled_by datagram w sender c e))
          (receive_block-IsHandled datagram w (record c { endpoint = sender }) e)
  ]

  -- Each arrival either is a publication, which is passed on before the next datagram is asked for, or
  -- it is none, and then nothing is passed on and nothing is asked for any more. In each case the next
  -- packet is sent to whoever sent the datagram.
  pub receive_handler-branches :
      (datagram packet : Bytes) (sender : Endpoint) (c : Client)
      → (((p : Packet) × IsPublication datagram p
            × ((receive_handler element success datagram sender c).1
                ≡ recv p ∷ async_receive_from ∷ []))
          ⊎ (((p : Packet) → ¬ IsPublication datagram p)
              × All IsSilent (receive_handler element success datagram sender c).1))
        × ((write packet (receive_handler element success datagram sender c).0).1
            ≡ async_send_to packet sender ∷ [])
  unfolding write
  receive_handler-branches datagram packet sender c =
      let (handled, same) = receive_handler-IsHandled datagram sender c in
      (handled, ap (λ e. async_send_to packet e ∷ []) same)
