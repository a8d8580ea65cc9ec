-- ===== src/Client/Face.antt =====
-- src/lib/face.cpp: the client's face, over one of the two transports.
pub mod Tcp
use f_copss.Router.TcpTransport.{failed, operation_aborted, success, max_packet_size, Status}
use f_copss.Prelude.{
  length, true, [], ◌==◌, ltb, ◌∷◌, not, ◌++◌, if◌then◌else◌, map, Bool, List, Bytes,
}
use Prim.Native.Nat.{ℕ}

-- What a face asks of its transport: `asyncWrite` of a packet's wire, `asyncRead` and `close`. `T` is
-- the state of the transport, and `E` is what it asks in turn.
pub record Transport (T E : Type 0) : Type 0 where
  pub write : Bytes → T → T × List E
  pub read : T → T × List E
  pub close : T → T × List E

-- The calls of the timer, the callback that is registered, an exception that leaves the call, and what
-- the transport asks.
pub data Effect (E : Type 0) : Type 0 where
  cancel_timer : Effect E
  set_sub_timer : ℕ → Effect E
  register_callback : Effect E
  raise : Effect E
  ask : E → Effect E

pub record Face (T : Type 0) : Type 0 where
  pub sub_send_interval : ℕ
  pub is_subscribing : Bool
  pub transport : T

module _ {T E : Type 0} ⦃ops : Transport T E⦄ where
  -- A call of the transport.
  abbrev pub on_transport : (T → T × List E) → Face T → Face T × List (Effect E)
  on_transport call f =
      let (t, effects) = call f.transport in (record f { transport = t }, map ask effects)

  -- The timer of the next `Sub`.
  abbrev pub next_sub : Face T → List (Effect E)
  next_sub f = if not (f.sub_send_interval == 0) then set_sub_timer f.sub_send_interval ∷ [] else []

  abbrev pub start_subscribing : Face T → Face T × List (Effect E)
  start_subscribing f =
      if f.is_subscribing
      then (f, cancel_timer ∷ [])
      else (let (f', effects) = on_transport ops.read (record f { is_subscribing = true }) in
          (f', register_callback ∷ effects))

  unfoldable pub subscribe : Bytes → Face T → Face T × List (Effect E)
  subscribe wire f =
      let (f', started) = start_subscribing f in
      if ltb max_packet_size (length wire)
      then (f', started ++ (raise ∷ []))
      else (let (f'', written) = on_transport (ops.write wire) f' in
          (f'', started ++ (written ++ next_sub f'')))

  unfoldable pub publish : Bytes → Face T → Face T × List (Effect E)
  publish wire f =
      if ltb max_packet_size (length wire) then (f, raise ∷ []) else on_transport (ops.write wire) f

  unfoldable pub shutdown : Face T → Face T × List (Effect E)
  shutdown f =
      let (f', closed) = on_transport ops.close f in
      (f', (if f.is_subscribing then cancel_timer ∷ [] else []) ++ closed)

  -- The handler of the timer of the next `Sub`, with the wire of the packet.
  unfoldable pub resend_timer_handler : Status → Bytes → Face T → Face T × List (Effect E)
  unfolding shutdown
  resend_timer_handler success wire f =
      let (f', written) = on_transport (ops.write wire) f in
      (f', written ++ (set_sub_timer f.sub_send_interval ∷ []))
  resend_timer_handler operation_aborted wire f = (f, [])
  resend_timer_handler failed wire f = let (f', closed) = shutdown f in (f', closed ++ (raise ∷ []))
