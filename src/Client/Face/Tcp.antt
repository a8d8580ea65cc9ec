-- ===== src/Client/Face/Tcp.antt =====
-- A subscription of src/lib/face.cpp over the TCP transport of src/lib/tcp-transport.cpp.
use f_copss.Prelude.{sym, drop, refl, ap, ◌∙◌, ◌≤◌, arith, zero, ◌++◌, suc, ◌∷◌, ◌≡◌, false}
use f_copss.Client.Face.{map, length, max_packet_size, [], success, ltb, true, Bytes, List, ℕ}
use f_copss.Client.Face
use f_copss.Client.TcpTransport
use f_copss.Client.TcpTransport.{
  resolve_handler, cancel_timer, async_receive, connected, async_write, connecting, connect_handler,
  Client, init,
}

-- The TCP transport, for a face.
instance abbrev pub tcp_transport : Face.Transport Client TcpTransport.Effect
tcp_transport = record {
  write = TcpTransport.write;
  read = TcpTransport.read;
  close = TcpTransport.close;
}

-- `setup` with the protocol `tcp`.
unfoldable pub setup_tcp : ℕ → Face.Face Client × List TcpTransport.Effect
unfolding TcpTransport.connect
setup_tcp interval =
    let (c, effects) = TcpTransport.connect init in
    (record { sub_send_interval = interval; is_subscribing = false; transport = c }, effects)

-- The transport of a new face that has been given one packet and asked to read.
abbrev waiting : Bytes → Client
waiting wire = record init {
  connection = connecting;
  is_timer_started = true;
  is_read_from_connect_handler = true;
  transmission_queue = wire ∷ [];
}

-- A transport that is connected and has nothing to send.
abbrev pub IsIdle : Client → Type 0
IsIdle c = (c.is_open ≡ true) × (c.connection ≡ connected) × (c.transmission_queue ≡ [])

subscribe-setup_tcp :
    (interval : ℕ) (wire : Bytes)
    → ltb max_packet_size (length wire) ≡ false
    → Face.subscribe {E = TcpTransport.Effect} wire (setup_tcp interval).0 ≡ (
      record { sub_send_interval = interval; is_subscribing = true; transport = waiting wire },
      Face.register_callback ∷ Face.next_sub {E = TcpTransport.Effect} (setup_tcp interval).0,
    )
unfolding setup_tcp Face.subscribe TcpTransport.read TcpTransport.write
subscribe-setup_tcp interval wire fits = rw fits refl

-- The name resolves, the socket connects, and the packet at the front is written.
abbrev pub connected_client : Client → Client × List TcpTransport.Effect
connected_client c = connect_handler success (resolve_handler success c).0

-- So many times the timer runs out, and the packet that is then sent is written.
unfoldable pub renew :
    ℕ → Bytes → Face.Face Client → Face.Face Client × List (Face.Effect TcpTransport.Effect)
unfolding Face.resend_timer_handler TcpTransport.write_handler
renew zero wire f = (f, [])
renew (suc n) wire f =
    let (f', sent) = Face.resend_timer_handler success wire f in
    let c = (TcpTransport.write_handler success f'.transport).0 in
    let (f'', later) = renew n wire (record f' { transport = c }) in (f'', sent ++ later)

-- One renewal.
abbrev pub renewal : ℕ → Bytes → List (Face.Effect TcpTransport.Effect)
renewal interval wire = Face.ask (async_write wire) ∷ Face.set_sub_timer interval ∷ []

abbrev pub renewals : ℕ → ℕ → Bytes → List (Face.Effect TcpTransport.Effect)
renewals zero interval wire = []
renewals (suc n) interval wire = renewal interval wire ++ renewals n interval wire

write-idle :
    (wire : Bytes) (c : Client)
    → IsIdle c
    → TcpTransport.write wire c
      ≡ (record c { transmission_queue = wire ∷ [] }, async_write wire ∷ [])
unfolding TcpTransport.write
write-idle wire c (opened, up, empty) = rw (opened, up, empty) refl

renew-step :
    (n : ℕ) (wire : Bytes) (f : Face.Face Client)
    → IsIdle f.transport
    → renew (suc n) wire f
      ≡ ((renew n wire f).0, renewal f.sub_send_interval wire ++ (renew n wire f).1)
unfolding renew TcpTransport.write_handler
renew-step n wire f idle =
    ap
      (λ (r : Client × List TcpTransport.Effect).
        let f' = record f {
          transport = record r.0 { transmission_queue = drop 1 r.0.transmission_queue };
        } in
        (
          (renew n wire f').0,
          (map Face.ask r.1 ++ (Face.set_sub_timer f.sub_send_interval ∷ []))
              ++ (renew n wire f').1,
        ))
      (write-idle wire f.transport idle)
    ∙ ap
        (λ q.
          let f' = record f { transport = record f.transport { transmission_queue = q } } in
          ((renew n wire f').0, renewal f.sub_send_interval wire ++ (renew n wire f').1))
        (sym idle.2)

renew-renewals :
    (n : ℕ) (wire : Bytes) (f : Face.Face Client)
    → IsIdle f.transport
    → renew n wire f ≡ (f, renewals n f.sub_send_interval wire)
unfolding renew
renew-renewals zero wire f idle = refl
renew-renewals (suc n) wire f idle =
    renew-step n wire f idle
    ∙ ap (λ r. (r.0, renewal f.sub_send_interval wire ++ r.1)) (renew-renewals n wire f idle)

-- A new face over TCP that subscribes with a `Sub` of at most 8192 octets registers the callback and
-- starts its timer. Once the name resolves and the socket connects, the transport receives and writes
-- the packet; and once this write is complete, each time that the timer runs out, the packet is written
-- again and the timer is set again.
pub subscribe-renewals :
    (interval n : ℕ) (wire : Bytes)
    → length wire ≤ max_packet_size
    → (f : Face.Face Client) × (c : Client) × (Face.subscribe wire (setup_tcp interval).0
        ≡ (f, Face.register_callback ∷ Face.next_sub {E = TcpTransport.Effect} f))
      × (connected_client f.transport ≡ (c, cancel_timer ∷ async_receive ∷ async_write wire ∷ []))
      × ((renew n wire (record f { transport = (TcpTransport.write_handler success c).0 })).1
          ≡ renewals n interval wire)
unfolding setup_tcp TcpTransport.write_handler TcpTransport.connect_handler
    TcpTransport.resolve_handler
subscribe-renewals interval n wire fits = (
  record { sub_send_interval = interval; is_subscribing = true; transport = waiting wire },
  (connected_client (waiting wire)).0,
  subscribe-setup_tcp interval wire (ground arith),
  refl,
  ap (λ r. r.1) (renew-renewals n wire _ (refl, refl, refl)),
)
