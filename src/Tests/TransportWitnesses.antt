-- ===== src/Tests/TransportWitnesses.antt =====
-- Theorems about the transports at sample streams.
use f_copss.Prelude.Outcome.{value}
use f_copss.Prelude.{
  refl, ◌<◌, length, ◌++◌, ◌≢◌, map, arith, ◌⊎◌, ℕ, All, none, Option, true, some, ◌≡◌, ◌∷◌, List,
  Bytes, [], ◌∷◌,
}
use f_copss.Tests.WireInstance.{wire_model}
use f_copss.Router.TcpTransport.Reassembly
use f_copss.Router.TcpTransport.Room
use f_copss.Router.TcpTransport.Sending
use f_copss.Router.TcpTransport.Sending.{begin, after_send, after_write}
use f_copss.Router.TcpTransport.Stream.{IsSplit, IsStuck}
use f_copss.Router.TcpTransport.{
  Transport, Effect, send, handle_send, handle_receive, success, cancel, receive, deliver,
  max_packet_size,
}
use f_copss.Router.UdpTransport
use f_copss.Router.UdpTransport.Datagram

-- Two blocks of three and four octets.
abbrev first : Bytes
first = 65 ∷ 1 ∷ 5 ∷ []

abbrev second : Bytes
second = 66 ∷ 2 ∷ 6 ∷ 7 ∷ []

abbrev idle : Transport
idle = record { received = []; receive_timeout = some 60; send_queue = []; has_face = true }

abbrev connected : UdpTransport.Transport
connected = record { received = []; receive_error = success; has_face = true }

receive_all-concat_example :
    (effects : List Effect) × (Reassembly.receive_all
        ((65 ∷ 1 ∷ []) ∷ (5 ∷ 66 ∷ []) ∷ (2 ∷ 6 ∷ 7 ∷ []) ∷ [])
        idle
      ≡ value (idle, effects))
    × (Reassembly.deliveries effects ≡ first ∷ second ∷ [])
    × All Reassembly.IsKept effects
receive_all-concat_example =
    Reassembly.receive_all-concat idle ((65 ∷ 1 ∷ []) ∷ (5 ∷ 66 ∷ []) ∷ (2 ∷ 6 ∷ 7 ∷ []) ∷ [])
      (first ∷ second ∷ []) refl refl ((refl, omega arith), ((refl, omega arith), tt)) refl

handle_receive-branches_example :
    ((ws : List Bytes) × (rest : Bytes) × (timeout : Option ℕ) × (handle_receive success
          (65 ∷ 1 ∷ 5 ∷ 66 ∷ [])
          idle
        ≡ value (record idle { received = rest }, map deliver ws ++ (receive timeout ∷ [])))
      × IsSplit (65 ∷ 1 ∷ 5 ∷ 66 ∷ []) ws rest
      × (length rest < max_packet_size))
    ⊎ ((handle_receive success (65 ∷ 1 ∷ 5 ∷ 66 ∷ []) idle
          ≡ value (record idle { received = 65 ∷ 1 ∷ 5 ∷ 66 ∷ [] }, cancel ∷ []))
        × (4 ≡ max_packet_size)
        × IsStuck (65 ∷ 1 ∷ 5 ∷ 66 ∷ []))
handle_receive-branches_example =
    Room.handle_receive-branches idle (65 ∷ 1 ∷ 5 ∷ 66 ∷ []) (omega arith)

send_queue_lem_example :
    (first ∷ second ∷ []
      ≡ first ∷ (handle_send success (send second (send first idle).0).0).0.send_queue)
    × (first ∷ second ∷ [] ≡ first ∷ second ∷ [])
unfolding send handle_send
send_queue_lem_example = Sending.send_queue_lem (
    after_write (send second (send first idle).0).0 (first ∷ second ∷ []) (first ∷ []) [] first
      (second ∷ [])
      (after_send (send first idle).0 (first ∷ []) (first ∷ []) [] second
        (after_send idle [] [] [] first (begin idle refl)))
      refl)

handle_receive_lem_example :
    (Datagram.IsDatagram first
      × ((UdpTransport.handle_receive success first connected).1
          ≡ deliver first ∷ receive none ∷ []))
    ⊎ ((first ≡ []) × ((UdpTransport.handle_receive success first connected).1 ≡ receive none ∷ []))
    ⊎ ((¬ Datagram.IsDatagram first)
        × (first ≢ [])
        × ((UdpTransport.handle_receive success first connected).1 ≡ cancel ∷ []))
handle_receive_lem_example = Datagram.handle_receive_lem connected first refl
