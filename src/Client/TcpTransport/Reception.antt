-- ===== src/Client/TcpTransport/Reception.antt =====
-- The receiving side of src/lib/tcp-transport.cpp: `receive`, `processMessage`, and the timer that
-- waits for the rest of a block.
use f_copss.Client.TcpTransport.{
  Client, Effect, and_then, close, read, recv, recv_aborted, recv_error, recv_bad_message,
  recv_timed_out, raise, arm_receive_timer, cancel_timer,
}
use f_copss.Ndn.{Block}
use f_copss.Ndn.Encoding.{Encoding}
use f_copss.Ndn.Tlv
use f_copss.Ndn.Wire.{Wire}
use f_copss.Packets.{decode_pub}
use f_copss.Prelude.Outcome.{Outcome, value, runs_on, ◌>>=◌}
use f_copss.Prelude.{
  ltb, zero, ◌==◌, ◌&&◌, some, ◌+◌, suc, length, not, false, if◌then◌else◌, true, [], drop, ◌++◌,
  ◌∷◌, Bool, none, List, Bytes, ℕ, Result, ok, err,
}
use f_copss.Router.Forwarder.{pub_from_rp}
use f_copss.Router.TcpTransport.{Status, success, operation_aborted, failed, max_packet_size}

-- How the loop of `processMessage` ended: at the end of the buffer, at a block that is not
-- complete, or by an exception of the decoder.
pub data End : Type 0 where
  complete incomplete raised : End

-- The calls of the callback, `offset`, and the octets behind it.
pub record Processed : Type 0 where
  pub effects : List Effect
  pub offset : ℕ
  pub end : End
  pub rest : Bytes

-- The timer waits for the rest of a block, and stops when there is none.
unfoldable pub set_timer : End → Client → Client × List Effect
set_timer incomplete c =
    if not c.is_timer_started
    then (record c { is_timer_started = true }, arm_receive_timer ∷ [])
    else (c, [])
set_timer complete c =
    if c.is_timer_started
    then (record c { is_timer_started = false }, cancel_timer ∷ [])
    else (c, [])
set_timer raised c = (c, [])

abbrev pub is_complete : End → Bool
is_complete complete = true
is_complete _ = false

-- What is left in the buffer when `offset` octets were read.
unfoldable pub keep : ℕ → Bytes → Bytes → Bytes
keep offset buffer rest =
    if ltb 0 offset then (if not (offset == length buffer) then rest else []) else buffer

-- Behind `processMessage`: a full buffer without a block in it ends the connection; otherwise what
-- was read is dropped, and the next octets are asked for.
unfoldable pub after_process : Processed → Client → Client × List Effect
unfolding close keep read
after_process p c =
    if not (is_complete p.end) && (length c.received == max_packet_size && p.offset == 0)
    then and_then (close c) (λ c'. (c', recv_bad_message ∷ []))
    else read (record c { received = keep p.offset c.received p.rest })

abbrev pub continue_at : End → Processed → Client → Client × List Effect
continue_at raised p c = (c, [])
continue_at end p c = and_then (set_timer end c) (after_process p)

unfoldable pub received_block : Processed → Client → Client × List Effect
unfolding set_timer after_process
received_block p c =
    let continued = continue_at p.end p c in (continued.0, p.effects ++ continued.1)

-- `element` gives the block that stands in some octets.
module _ ⦃wire : Wire⦄ ⦃encoding : Encoding⦄ (element : Bytes → Block) where
  -- The call of the callback for one block; `PubFromRp(element)` raises when it does not decode.
  unfoldable pub pass_on : Bytes → Result (List Effect)
  unfolding decode_pub
  pass_on w =
      if (element w).type == Tlv.pub_from_rp
      then elim (decode_pub Tlv.pub_from_rp pub_from_rp (element w)) [
        | err error ↦ err error
        | ok packet ↦ ok (recv packet ∷ [])
      ]
      else ok []

  abbrev pub process_one :
      Bytes → Bytes → Result (List Effect) → Outcome Processed → Outcome Processed
  process_one w buffer (err error) later =
      value (record { effects = raise ∷ []; offset = 0; end = raised; rest = buffer })
  process_one w buffer (ok effects) later = do
    p ← later
    value (record p { effects = effects ++ p.effects; offset = length w + p.offset })

  -- At most so many rounds of the loop, on the octets from the offset on.
  unfoldable pub process : ℕ → Bytes → Outcome Processed
  unfolding pass_on
  process n [] = value (record { effects = []; offset = 0; end = complete; rest = [] })
  process zero (b ∷ s) = runs_on
  process (suc n) (b ∷ s) = elim (wire.from_buffer (b ∷ s)) [
    | none ↦ value (record { effects = []; offset = 0; end = incomplete; rest = b ∷ s })
    | some w ↦ process_one w (b ∷ s) (pass_on w) (process n (drop (length w) (b ∷ s)))
  ]

  -- The handler of `async_receive`.
  unfoldable pub receive_handler : Status → Bytes → Client → Outcome (Client × List Effect)
  unfolding process received_block close
  receive_handler success transferred c =
      let buffer = c.received ++ transferred in
      (do
        p ← process (length buffer) buffer
        value (received_block p (record c { received = buffer })))
  receive_handler operation_aborted transferred c = value (c, recv_aborted ∷ [])
  receive_handler failed transferred c = value (and_then (close c) λ c'. (c', recv_error ∷ []))

-- The handler of the timer that `processMessage` starts.
unfoldable pub receive_timeout_handler : Status → Client → Client × List Effect
unfolding close
receive_timeout_handler success c = (record c { is_timer_started = false }, recv_timed_out ∷ [])
receive_timeout_handler operation_aborted c = (c, recv_aborted ∷ [])
receive_timeout_handler failed c = and_then (close c) λ c'. (c', recv_error ∷ [])
