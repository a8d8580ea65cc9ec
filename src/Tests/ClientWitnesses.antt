-- ===== src/Tests/ClientWitnesses.antt =====
-- Theorems about the client's transports at sample packets.
use f_copss.Prelude.{All, refl, ◌⊎◌, arith, [], ◌∷◌, ◌≡◌, List, true, Bytes}
use f_copss.Tests.WireInstance.{wire_model}
use f_copss.Tests.EncodingInstance.{encoding_model}
use f_copss.Client.TcpTransport.{
  recv_aborted, Client, Effect, init, connect, connected, cancel_timer, resolve_handler, raise,
}
use f_copss.Client.TcpTransport.Stream
use f_copss.Client.TcpTransport.Stream.{StreamEvent, arrived, timer_cancelled}
use f_copss.Client.TcpTransport.Connecting
use f_copss.Client.TcpTransport.Connecting.{async_write_call, async_read_call, close_call}
use f_copss.Client.TcpTransport.Queue
use f_copss.Client.TcpTransport.Reception.{pass_on}
use f_copss.Packets.{decode_cd}
use f_copss.Client.TcpTransport.Loop
use f_copss.Client.UdpTransport
use f_copss.Client.TcpTransport
use f_copss.Client.TcpTransport.{async_receive, async_write}
use f_copss.Client.Face
use f_copss.Client.Face.Tcp
use f_copss.Client.Face.Tcp.{tcp_transport}
use f_copss.Client.UdpTransport.Reception
use f_copss.Ndn.{Block}
use f_copss.Prelude.Outcome.{value}
use f_copss.Router.TcpTransport.{failed, success}
use f_copss.Router.Forwarder.{Packet}

-- A block of one octet of type and one of length.
abbrev sample_element : Bytes → Block
sample_element (type ∷ size ∷ v) = record { type = type; value = v }
sample_element _ = record { type = 0; value = [] }

-- A publication, and a block of another type.
abbrev publication : Bytes
publication = 67 ∷ 8 ∷ 70 ∷ 3 ∷ 8 ∷ 1 ∷ 65 ∷ 21 ∷ 1 ∷ 104 ∷ []

abbrev other_block : Bytes
other_block = 65 ∷ 1 ∷ 5 ∷ []

abbrev online : Client
online = record init { is_open = true; connection = connected }

abbrev two_pieces : List StreamEvent
two_pieces =
    arrived (67 ∷ 8 ∷ 70 ∷ 3 ∷ 8 ∷ [])
    ∷ arrived (1 ∷ 65 ∷ 21 ∷ 1 ∷ 104 ∷ 65 ∷ 1 ∷ 5 ∷ [])
    ∷ timer_cancelled
    ∷ []

run_events-callbacks_example :
    (effects : List Effect) × (Stream.run_events sample_element two_pieces online
      ≡ value (online, effects))
    × (Stream.publications effects
        ≡ Loop.all_passed sample_element (publication ∷ other_block ∷ []))
    × (Stream.notices effects ≡ recv_aborted ∷ [])
unfolding pass_on decode_cd
run_events-callbacks_example =
    Stream.run_events-callbacks sample_element online two_pieces (publication ∷ other_block ∷ [])
      refl refl refl refl ((refl, omega arith, refl), ((refl, omega arith, refl), tt)) refl

resolve_failure-IsStranded_example :
    ((resolve_handler failed (connect init).0).1 ≡ cancel_timer ∷ raise ∷ [])
    × Connecting.IsStranded
        (Connecting.run_calls
          (async_write_call other_block ∷ async_read_call ∷ close_call ∷ [])
          (resolve_handler failed (connect init).0).0).0
    × ((Connecting.run_calls
          (async_write_call other_block ∷ async_read_call ∷ close_call ∷ [])
          (resolve_handler failed (connect init).0).0).1
        ≡ [])
unfolding connect
resolve_failure-IsStranded_example =
    Connecting.resolve_failure-IsStranded (connect init).0
      (async_write_call other_block ∷ async_read_call ∷ close_call ∷ []) refl refl refl
      (tt, (tt, (tt, tt)))

deliver_all-IsDrained_example :
    Queue.IsDrained
      (publication ∷ other_block ∷ [])
      (Queue.deliver_all (publication ∷ other_block ∷ []) 2 init)
deliver_all-IsDrained_example =
    Queue.deliver_all-IsDrained (publication ∷ other_block ∷ []) init refl

abbrev datagram_client : UdpTransport.Client
datagram_client = record { is_open = true; endpoint = (127 ∷ 0 ∷ 0 ∷ 1 ∷ [], 9695) }

receive_handler-branches_example :
    (((p : Packet) × Reception.IsPublication sample_element other_block p
        × ((UdpTransport.receive_handler sample_element success other_block
              (10 ∷ [], 53)
              datagram_client).1
            ≡ UdpTransport.recv p ∷ UdpTransport.async_receive_from ∷ []))
      ⊎ (((p : Packet) → ¬ Reception.IsPublication sample_element other_block p)
          × All Reception.IsSilent
              (UdpTransport.receive_handler sample_element success other_block
                (10 ∷ [], 53)
                datagram_client).1))
    × ((UdpTransport.write publication
          (UdpTransport.receive_handler sample_element success other_block
            (10 ∷ [], 53)
            datagram_client).0).1
        ≡ UdpTransport.async_send_to publication (10 ∷ [], 53) ∷ [])
receive_handler-branches_example =
    Reception.receive_handler-branches sample_element other_block publication (10 ∷ [], 53)
      datagram_client

subscribe-renewals_example :
    (f : Face.Face Client) × (c : Client) × (Face.subscribe other_block (Tcp.setup_tcp 10).0
      ≡ (f, Face.register_callback ∷ Face.next_sub {E = Effect} f))
    × (Tcp.connected_client f.transport
        ≡ (c, cancel_timer ∷ async_receive ∷ async_write other_block ∷ []))
    × ((Tcp.renew 3 other_block
          (record f { transport = (TcpTransport.write_handler success c).0 })).1
        ≡ Tcp.renewals 3 10 other_block)
subscribe-renewals_example = Tcp.subscribe-renewals 10 3 other_block (omega arith)
