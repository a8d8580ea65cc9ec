-- ===== src/Router/UdpTransport.antt =====
-- src/router/udp-transport.cpp: a transport over a connected UDP socket. A datagram holds one block.
pub mod Datagram
use f_copss.Prelude.{◌++◌, some, length, none, ltb, ◌∷◌, if◌then◌else◌, [], Bool, List, Bytes}
use f_copss.Ndn.Wire.{Wire}
use f_copss.Router.TcpTransport.{
  failed, operation_aborted, deliver, success, face_shutdown, cancel, receive, close, write, Status,
  Effect,
}

-- `received` is the datagram, or what is kept of one, in `m_receiveBuffer`.
pub record Transport : Type 0 where
  pub received : Bytes
  pub receive_error : Status
  pub has_face : Bool

abbrev pub send : Bytes → Transport → Transport × List Effect
send packet t = (t, write packet ∷ [])

abbrev pub handle_send : Status → Transport → Transport × List Effect
handle_send success t = (t, [])
handle_send operation_aborted t = (t, cancel ∷ [])
handle_send failed t = (t, cancel ∷ [])

unfoldable pub handle_shutdown : Transport → Transport × List Effect
handle_shutdown t = (t, close ∷ (if t.has_face then face_shutdown ∷ [] else []))

module _ ⦃wire : Wire⦄ where
  -- The block of a datagram, with nothing behind it.
  abbrev pub handle_block : Bytes → Bytes → Transport → List Effect
  handle_block block received t =
      if ltb (length block) (length received)
      then cancel ∷ []
      else (if t.has_face then deliver block ∷ [] else []) ++ (receive none ∷ [])

  abbrev pub handle_datagram : Bytes → Transport → List Effect
  handle_datagram [] t = receive none ∷ []
  handle_datagram (c ∷ s) t = elim (wire.from_buffer (c ∷ s)) [
    | none ↦ cancel ∷ []
    | some block ↦ handle_block block (c ∷ s) t
  ]

  -- `handleReceive()`, which `start` calls as well.
  abbrev pub handle_received : Status → Transport → List Effect
  handle_received success t = handle_datagram t.received t
  handle_received operation_aborted t = []
  handle_received failed t = cancel ∷ []

  unfoldable pub start : Transport → Transport × List Effect
  start t = (t, handle_received t.receive_error t)

  -- `handleReceive(error, bytes_transferred)`.
  unfoldable pub handle_receive : Status → Bytes → Transport → Transport × List Effect
  handle_receive error transferred t =
      let t' = record t { received = transferred; receive_error = error } in
      (t', handle_received t'.receive_error t')
