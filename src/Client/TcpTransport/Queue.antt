-- ===== src/Client/TcpTransport/Queue.antt =====
-- The packets that wait for the connection in src/lib/tcp-transport.cpp.
use f_copss.Prelude.{
  subst, ◌&&◌, append_assoc, append-nil, sym, length, ◌∙◌, ap, inr, inl, zero, Bool-cases, refl,
  ◌≡◌,
}
use Prim.Native.Nat.{suc, ℕ}
use f_copss.Client.TcpTransport.{
  async_connect, drop, true, is_connecting, not, Bool, false, ◌++◌, [], ◌∷◌, Bytes, List, Client,
  Effect, connecting, connected, is_connected, ensure_connected, write, and_then, resolve_handler,
  connect_handler, write_handler, send, async_write, arm_connect_timer, resolve, Connection,
}
use f_copss.Router.TcpTransport.{success}

-- The writes that are started.
abbrev started : Effect → List Bytes
started (async_write wire) = wire ∷ []
started _ = []

abbrev pub writes : List Effect → List Bytes
writes [] = []
writes (e ∷ es) = started e ++ writes es

abbrev pub write_all : List Bytes → Client → Client × List Effect
write_all [] c = (c, [])
write_all (wire ∷ wires) c = and_then (write wire c) (write_all wires)

-- So many writes complete.
abbrev pub complete_writes : ℕ → Client → Client × List Effect
complete_writes zero c = (c, [])
complete_writes (suc n) c = and_then (write_handler success c) (complete_writes n)

-- Packets are given to the transport, the name resolves, the socket connects, and writes complete.
unfoldable pub deliver_all : List Bytes → ℕ → Client → Client × List Effect
unfolding write resolve_handler connect_handler write_handler
deliver_all wires n c = and_then (write_all wires c) λ c'.
    and_then (resolve_handler success c')
      λ c''. and_then (connect_handler success c'') (complete_writes n)

writes-append : (es fs : List Effect) → writes (es ++ fs) ≡ writes es ++ writes fs
writes-append [] fs = refl
writes-append (e ∷ es) fs =
    ap (λ x. started e ++ x) (writes-append es fs)
    ∙ sym (append_assoc (started e) (writes es) (writes fs))

ensure_connected-waiting :
    (c : Client)
    → is_connected c.connection ≡ false
    → (state : Connection) × (timer : Bool) × (effects : List Effect) × (ensure_connected c
        ≡ (record c { connection = state; is_timer_started = timer }, effects))
      × (is_connected state ≡ false)
      × (writes effects ≡ [])
unfolding ensure_connected
ensure_connected-waiting c off =
    elim (Bool-cases (not c.is_open && not (is_connecting c.connection))) [
      | inl opens ↦ (connecting, true, arm_connect_timer ∷ resolve ∷ [], rw opens refl, refl, refl)
      | inr waits ↦ (c.connection, c.is_timer_started, [], rw waits refl, off, refl)
    ]

write-waiting :
    (wire : Bytes) (c : Client) (queue : List Bytes)
    → is_connected c.connection ≡ false
    → c.transmission_queue ≡ queue
    → ((write wire c).0.transmission_queue ≡ queue ++ (wire ∷ []))
      × (is_connected (write wire c).0.connection ≡ false)
      × (writes (write wire c).1 ≡ [])
unfolding write
write-waiting wire c queue off e =
    let (state, timer, effects, ensured, off', silent) =
      ensure_connected-waiting
        (record c { transmission_queue = c.transmission_queue ++ (wire ∷ []) }) off in
    let step : write wire c ≡ (
      record c {
        connection = state;
        is_timer_started = timer;
        transmission_queue = c.transmission_queue ++ (wire ∷ []);
      },
      effects ++ [],
    ) =
      rw (ensured, off') refl in
    subst
      (λ r.
        (r.0.transmission_queue ≡ queue ++ (wire ∷ []))
        × (is_connected r.0.connection ≡ false)
        × (writes r.1 ≡ []))
      (sym step) (ap (λ q. q ++ (wire ∷ [])) e, off', ap writes (append-nil effects) ∙ silent)

write_all-waiting :
    (wires : List Bytes) (c : Client) (queue : List Bytes)
    → is_connected c.connection ≡ false
    → c.transmission_queue ≡ queue
    → ((write_all wires c).0.transmission_queue ≡ queue ++ wires)
      × (writes (write_all wires c).1 ≡ [])
write_all-waiting [] c queue off e = (e ∙ sym (append-nil queue), refl)
write_all-waiting (wire ∷ wires) c queue off e =
    let (q, off', silent) = write-waiting wire c queue off e in
    let (q', silent') = write_all-waiting wires (write wire c).0 (queue ++ (wire ∷ [])) off' q in
    (
      q' ∙ append_assoc queue (wire ∷ []) wires,
      rw (writes-append (write wire c).1 (write_all wires (write wire c).0).1, silent, silent')
          refl,
    )

-- These writes were started, the queue is empty, and the connection is up.
abbrev pub IsDrained : List Bytes → Client × List Effect → Type 0
IsDrained wires r =
    (writes r.1 ≡ wires) × (r.0.transmission_queue ≡ []) × (r.0.connection ≡ connected)

write_handler_lem :
    (c : Client) (wire : Bytes) (queue : List Bytes)
    → c.transmission_queue ≡ wire ∷ queue
    → write_handler success c ≡ (record c { transmission_queue = queue }, send queue)
unfolding write_handler
write_handler_lem c wire queue e =
    ap (λ q. (record c { transmission_queue = drop 1 q }, send (drop 1 q))) e

-- The front is being written, and each completion starts the next one.
complete_writes-drain :
    (wire : Bytes) (wires : List Bytes) (c : Client)
    → c.transmission_queue ≡ wire ∷ wires
    → c.connection ≡ connected
    → IsDrained wires (complete_writes (length (wire ∷ wires)) c)
complete_writes-drain wire [] c e up =
    subst (λ r. IsDrained [] (and_then r (complete_writes 0))) (sym (write_handler_lem c wire [] e))
      (refl, refl, up)
complete_writes-drain wire (wire' ∷ wires) c e up =
    let (later, emptied, up') =
      complete_writes-drain wire' wires (record c { transmission_queue = wire' ∷ wires }) refl up in
    subst (λ r. IsDrained (wire' ∷ wires) (and_then r (complete_writes (length (wire' ∷ wires)))))
      (sym (write_handler_lem c wire (wire' ∷ wires) e)) (ap (λ ws. wire' ∷ ws) later, emptied, up')

connect_handler-writes :
    (c : Client) (queue : List Bytes)
    → c.transmission_queue ≡ queue
    → writes (connect_handler success c).1 ≡ writes (send queue)
unfolding connect_handler
connect_handler-writes c queue e = elim (Bool-cases c.is_read_from_connect_handler) [
  | inl reads ↦ rw reads (ap (λ q. writes (send q)) e)
  | inr waits ↦ rw waits (ap (λ q. writes (send q)) e)
]

connect_handler-state :
    (c : Client)
    → (connect_handler success c).0 ≡ record c { is_timer_started = false; connection = connected }
unfolding connect_handler
connect_handler-state c = refl

connect_handler-drain :
    (c : Client) (queue : List Bytes)
    → c.transmission_queue ≡ queue
    → IsDrained queue (and_then (connect_handler success c) (complete_writes (length queue)))
connect_handler-drain c [] e =
    let state = connect_handler-state c in
    (
      ap writes (append-nil (connect_handler success c).1) ∙ connect_handler-writes c [] e,
      ap (λ x. x.transmission_queue) state ∙ e,
      ap (λ x. x.connection) state,
    )
connect_handler-drain c (wire ∷ wires) e =
    let state = connect_handler-state c in
    let (later, emptied, up) =
      complete_writes-drain wire wires (connect_handler success c).0
        (ap (λ x. x.transmission_queue) state ∙ e) (ap (λ x. x.connection) state) in
    (
      writes-append (connect_handler success c).1
            (complete_writes (length (wire ∷ wires)) (connect_handler success c).0).1
          ∙ ap
              (λ ws.
                ws
                ++ writes (complete_writes (length (wire ∷ wires)) (connect_handler success c).0).1)
              (connect_handler-writes c (wire ∷ wires) e)
          ∙ ap (λ ws. wire ∷ ws) later,
      emptied,
      up,
    )

-- Packets that a client is given while it is not connected wait in its queue behind those that are
-- there. Once the name is resolved and the socket is connected, and as many writes complete as there
-- are packets, each of them was written once, in order, and the queue is empty.
pub deliver_all-IsDrained :
    (wires : List Bytes) (c : Client)
    → is_connected c.connection ≡ false
    → IsDrained
        (c.transmission_queue ++ wires)
        (deliver_all wires (length (c.transmission_queue ++ wires)) c)
unfolding deliver_all resolve_handler
deliver_all-IsDrained wires c off =
    let (queue, silent) = write_all-waiting wires c c.transmission_queue off refl in
    let ready = record (write_all wires c).0 { is_open = true } in
    let n = length (c.transmission_queue ++ wires) in
    let (later, emptied, up) = connect_handler-drain ready (c.transmission_queue ++ wires) queue in
    (
      writes-append (write_all wires c).1
            (async_connect ∷ (and_then (connect_handler success ready) (complete_writes n)).1)
          ∙ ap (λ ws. ws ++ writes (and_then (connect_handler success ready) (complete_writes n)).1)
              silent
          ∙ later,
      emptied,
      up,
    )
