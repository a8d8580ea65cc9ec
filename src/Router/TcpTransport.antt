-- ===== src/Router/TcpTransport.antt =====
-- src/router/tcp-transport.cpp: a transport over a TCP socket. A handler returns the new state and
-- what it asks of the socket and of the face, in order.

pub mod Stream
pub mod Drain
pub mod Reassembly
pub mod Room
pub mod Sending
use f_copss.Ndn.Wire.{Wire}
use f_copss.Prelude.Outcome.{Outcome, value, runs_on, ◌>>=◌}
use f_copss.Prelude.{
  ltb, zero, ◌==◌, ◌&&◌, some, ◌+◌, map, suc, length, not, false, if◌then◌else◌, true, [], drop,
  ◌++◌, ◌∷◌, Bool, none, Option, List, Bytes, ℕ,
}

-- `MAX_PACKET_SIZE` of include/fcopss/common.hpp.
abbrev pub max_packet_size : ℕ
max_packet_size = 8192

-- The error codes that the handlers tell apart.
pub data Status : Type 0 where
  success operation_aborted failed : Status

-- Calls of `face->onPacketReceived`, of the socket and its timer, and of `face->onTransportShutdown`.
-- `cancel` stands for the effects of `shutdown`: it ends what is pending and posts `handleShutdown`.
pub data Effect : Type 0 where
  deliver : Bytes → Effect
  receive : Option ℕ → Effect
  write : Bytes → Effect
  cancel close face_shutdown : Effect

-- `received` is the part of `m_receiveBuffer` that is in use; `has_face` is what `m_face.lock()` gives.
pub record Transport : Type 0 where
  pub received : Bytes
  pub receive_timeout : Option ℕ
  pub send_queue : List Bytes
  pub has_face : Bool

abbrev pub start : Transport → Transport × List Effect
start t = (t, receive none ∷ [])

abbrev pub is_empty {ℓ} : {A : Type ℓ} → List A → Bool
is_empty [] = true
is_empty (x ∷ xs) = false

-- `asyncSend`: the front of the queue.
abbrev pub async_send : List Bytes → List Effect
async_send [] = []
async_send (packet ∷ queue) = write packet ∷ []

unfoldable pub send : Bytes → Transport → Transport × List Effect
send packet t =
    let was_queue_empty = is_empty t.send_queue in
    let queue = t.send_queue ++ (packet ∷ []) in
    (record t { send_queue = queue }, if was_queue_empty then async_send queue else [])

unfoldable pub handle_send : Status → Transport → Transport × List Effect
handle_send success t =
    let queue = drop 1 t.send_queue in
    (record t { send_queue = queue }, if not (is_empty queue) then async_send queue else [])
handle_send operation_aborted t = (t, cancel ∷ [])
handle_send failed t = (t, cancel ∷ [])

unfoldable pub handle_shutdown : Transport → Transport × List Effect
handle_shutdown t =
    (record t { send_queue = [] }, close ∷ (if t.has_face then face_shutdown ∷ [] else []))

unfoldable pub handle_timeout : Status → Transport → Transport × List Effect
handle_timeout success t = (t, cancel ∷ [])
handle_timeout operation_aborted t = (t, [])
handle_timeout failed t = (t, [])

-- What the loop of `handleReceive` leaves in its variables, and the blocks that it read.
pub record Drained : Type 0 where
  pub blocks : List Bytes
  pub offset : ℕ
  pub ok : Bool
  pub rest : Bytes

abbrev pub read_one : Bytes → Drained → Drained
read_one w d = record d { blocks = w ∷ d.blocks; offset = length w + d.offset }

module _ ⦃wire : Wire⦄ where
  -- At most so many rounds of the loop, on the octets from the offset on.
  unfoldable pub drain : ℕ → Bytes → Outcome Drained
  drain n [] = value (record { blocks = []; offset = 0; ok = true; rest = [] })
  drain zero (c ∷ s) = runs_on
  drain (suc n) (c ∷ s) = elim (wire.from_buffer (c ∷ s)) [
    | none ↦ value (record { blocks = []; offset = 0; ok = false; rest = c ∷ s })
    | some w ↦ do d ← drain n (drop (length w) (c ∷ s)); value (read_one w d)
  ]

  -- Behind the loop: a full buffer without a block in it ends the connection; otherwise what was
  -- read is dropped, and what remains of a block must be followed up in time.
  unfoldable pub settle : Bytes → Drained → Transport → Transport × List Effect
  settle buffer d t =
      if not d.ok && length buffer == max_packet_size && d.offset == 0
      then (record t { received = buffer }, cancel ∷ [])
      else if ltb 0 d.offset
      then (if ltb d.offset (length buffer)
          then (record t { received = d.rest }, receive t.receive_timeout ∷ [])
          else (record t { received = [] }, receive none ∷ []))
      else (record t { received = buffer }, receive t.receive_timeout ∷ [])

  abbrev pub after_drain : Bytes → Drained → Transport → Transport × List Effect
  after_drain buffer d t =
      let (t', effects) = settle buffer d t in
      (t', (if t.has_face then map deliver d.blocks else []) ++ effects)

  unfoldable pub handle_receive : Status → Bytes → Transport → Outcome (Transport × List Effect)
  unfolding drain settle
  handle_receive success transferred t =
      let buffer = t.received ++ transferred in
      (do d ← drain (length buffer) buffer; value (after_drain buffer d t))
  handle_receive operation_aborted transferred t = value (t, [])
  handle_receive failed transferred t = value (t, cancel ∷ [])
