-- ===== src/Client/TcpTransport.antt =====
-- src/lib/tcp-transport.cpp: the client's TCP transport. A handler returns the new state and what it
-- asks of the socket, the timer and the client's callback, in order.

pub mod Reception
pub mod Loop
pub mod Reassembly
pub mod Stream
pub mod Connecting
pub mod Queue
use f_copss.Router.Forwarder.{Packet}
use f_copss.Prelude.{◌&&◌, not, drop, ◌∷◌, if◌then◌else◌, ◌++◌, true, [], List, false, Bool, Bytes}
use f_copss.Router.TcpTransport.{Status, success, operation_aborted, failed}

-- `m_isConnected`: -1, 0 and 1.
pub data Connection : Type 0 where
  not_connected connecting connected : Connection

-- The calls of the resolver, the socket and the one timer, of the client's callback with a packet or
-- with an error code, and an exception that leaves the handler.
pub data Effect : Type 0 where
  arm_connect_timer arm_receive_timer cancel_timer : Effect
  resolve async_connect close_socket async_receive : Effect
  async_write : Bytes → Effect
  recv : Packet → Effect
  recv_aborted recv_error recv_bad_message recv_timed_out : Effect
  raise : Effect

-- `received` is the part of `m_inputBuffer` that is in use.
pub record Client : Type 0 where
  pub is_open : Bool
  pub connection : Connection
  pub is_timer_started : Bool
  pub is_read_from_connect_handler : Bool
  pub received : Bytes
  pub transmission_queue : List Bytes

abbrev pub init : Client
init = record {
  is_open = false;
  connection = not_connected;
  is_timer_started = false;
  is_read_from_connect_handler = false;
  received = [];
  transmission_queue = [];
}

abbrev pub is_connecting : Connection → Bool
is_connecting connecting = true
is_connecting _ = false

abbrev pub is_connected : Connection → Bool
is_connected connected = true
is_connected _ = false

-- A call, and then another one on the state that it leaves.
abbrev pub and_then : Client × List Effect → (Client → Client × List Effect) → Client × List Effect
and_then (c, effects) next = let (c', effects') = next c in (c', effects ++ effects')

unfoldable pub connect : Client → Client × List Effect
connect c = (
  record c { is_timer_started = true; connection = connecting },
  arm_connect_timer ∷ resolve ∷ [],
)

unfoldable pub ensure_connected : Client → Client × List Effect
unfolding connect
ensure_connected c =
    if not c.is_open && not (is_connecting c.connection)
    then connect (record c { connection = not_connected })
    else (c, [])

abbrev pub stop_timer : Client → Client × List Effect
stop_timer c =
    if c.is_timer_started
    then (record c { is_timer_started = false }, cancel_timer ∷ [])
    else (c, [])

unfoldable pub close : Client → Client × List Effect
close c = and_then (stop_timer c) λ c'.
    if c'.is_open
    then (record c' { is_open = false; connection = not_connected }, close_socket ∷ [])
    else (c', [])

-- `close()` and then an exception.
abbrev pub close_and_raise : Client → Client × List Effect
close_and_raise c = and_then (close c) λ c'. (c', raise ∷ [])

-- `send`: the front of the queue.
abbrev pub send : List Bytes → List Effect
send [] = []
send (wire ∷ queue) = async_write wire ∷ []

abbrev pub is_single {ℓ} : {A : Type ℓ} → List A → Bool
is_single (x ∷ []) = true
is_single _ = false

-- `asyncWrite`, on the wire of the packet.
unfoldable pub write : Bytes → Client → Client × List Effect
unfolding ensure_connected
write wire c =
    and_then
      (ensure_connected (record c { transmission_queue = c.transmission_queue ++ (wire ∷ []) }))
      λ c'.
        if is_connected c'.connection && is_single c'.transmission_queue
        then (c', send c'.transmission_queue)
        else (c', [])

-- The handler of `async_write`.
unfoldable pub write_handler : Status → Client → Client × List Effect
unfolding close
write_handler success c =
    let queue = drop 1 c.transmission_queue in (record c { transmission_queue = queue }, send queue)
write_handler operation_aborted c = (c, [])
write_handler failed c = close_and_raise c

-- `asyncRead`.
unfoldable pub read : Client → Client × List Effect
unfolding ensure_connected
read c = and_then (ensure_connected c) λ c'.
    if is_connected c'.connection
    then (c', async_receive ∷ [])
    else (record c' { is_read_from_connect_handler = true }, [])

unfoldable pub connect_timeout_handler : Status → Client → Client × List Effect
unfolding close
connect_timeout_handler success c = close_and_raise c
connect_timeout_handler operation_aborted c = (c, [])
connect_timeout_handler failed c = close_and_raise c

-- `async_connect` opens the socket.
unfoldable pub resolve_handler : Status → Client → Client × List Effect
unfolding close
resolve_handler success c = (record c { is_open = true }, async_connect ∷ [])
resolve_handler operation_aborted c = (c, [])
resolve_handler failed c = close_and_raise c

unfoldable pub connect_handler : Status → Client → Client × List Effect
unfolding close
connect_handler success c = (
  record c { is_timer_started = false; connection = connected },
  (cancel_timer ∷ (if c.is_read_from_connect_handler then async_receive ∷ [] else []))
      ++ send c.transmission_queue,
)
connect_handler operation_aborted c = (c, [])
connect_handler failed c = close_and_raise c
