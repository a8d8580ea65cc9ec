-- ===== src/Client/UdpTransport.antt =====
-- src/lib/udp-transport.cpp: the client's UDP transport. A handler returns the new state and what it
-- asks of the socket and of the client's callback, in order.
pub mod Reception
use f_copss.Prelude.{ok, err, ◌==◌, false, [], ◌∷◌, ◌++◌, if◌then◌else◌, ℕ, List, Bool, Bytes}
use f_copss.Ndn.{Block}
use f_copss.Ndn.Encoding.{Encoding}
use f_copss.Ndn.Tlv
use f_copss.Prelude.{none, some, ok, err}
use f_copss.Ndn.Wire.{Wire}
use f_copss.Packets.{decode_pub}
use f_copss.Router.Forwarder.{Packet, pub_from_rp}
use f_copss.Router.TcpTransport.{Status, success, operation_aborted, failed}

-- An address and a port.
abbrev pub Endpoint : Type 0
Endpoint = Bytes × ℕ

-- The calls of the socket and of the client's callback, and an exception that leaves the handler.
pub data Effect : Type 0 where
  async_send_to : Bytes → Endpoint → Effect
  async_receive_from close_socket : Effect
  recv : Packet → Effect
  recv_aborted recv_error recv_bad_message : Effect
  raise : Effect

-- `endpoint` is where packets are sent, and where the socket puts the sender of a datagram.
pub record Client : Type 0 where
  pub is_open : Bool
  pub endpoint : Endpoint

unfoldable pub close : Client → Client × List Effect
close c = if c.is_open then (record c { is_open = false }, close_socket ∷ []) else (c, [])

-- A call of `close()`, and then something else.
abbrev pub close_and : Effect → Client → Client × List Effect
close_and effect c = let (c', effects) = close c in (c', effects ++ (effect ∷ []))

-- `asyncWrite`, on the wire of the packet, and the handler of `async_send_to`.
unfoldable pub write : Bytes → Client → Client × List Effect
write wire c = (c, async_send_to wire c.endpoint ∷ [])

unfoldable pub write_handler : Status → Client → Client × List Effect
unfolding close
write_handler success c = (c, [])
write_handler operation_aborted c = (c, [])
write_handler failed c = close_and raise c

-- `asyncRead`.
unfoldable pub read : Client → Client × List Effect
read c = (c, async_receive_from ∷ [])

module _ ⦃encoding : Encoding⦄ where
  -- A publication is passed on, and the next datagram is asked for; `PubFromRp(wire)` raises when it
  -- does not decode.
  unfoldable pub receive_block : Block → Client → Client × List Effect
  unfolding decode_pub read
  receive_block block c =
      if block.type == Tlv.pub_from_rp
      then elim (decode_pub Tlv.pub_from_rp pub_from_rp block) [
        | err error ↦ (c, raise ∷ [])
        | ok packet ↦ (let (c', effects) = read c in (c', recv packet ∷ effects))
      ]
      else (c, [])

-- `element` gives the block that stands in some octets.
module _ ⦃wire : Wire⦄ ⦃encoding : Encoding⦄ (element : Bytes → Block) where
  -- The handler of `async_receive_from`, with the datagram and its sender.
  unfoldable pub receive_handler : Status → Bytes → Endpoint → Client → Client × List Effect
  unfolding close receive_block
  receive_handler success datagram sender c =
      let c' = record c { endpoint = sender } in
      elim (wire.from_buffer datagram) [
        | none ↦ close_and recv_bad_message c'
        | some w ↦ receive_block (element w) c'
      ]
  receive_handler operation_aborted datagram sender c = (c, recv_aborted ∷ [])
  receive_handler failed datagram sender c = close_and recv_error c
