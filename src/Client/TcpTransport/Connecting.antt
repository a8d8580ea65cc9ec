-- ===== src/Client/TcpTransport/Connecting.antt =====
-- The connection of src/lib/tcp-transport.cpp: what can be asked of a client while no operation of
-- its socket is pending, and what becomes of the packets that wait for the connection.
use f_copss.Client.TcpTransport.{
  cancel_timer, true, [], false, ◌∷◌, Client, Effect, connecting, connect, write, read, close,
  connect_timeout_handler, and_then, resolve_handler, raise,
}
use f_copss.Router.TcpTransport.{operation_aborted, failed}
use f_copss.Prelude.{All, ap, sym, ◌++◌, subst, refl, ◌≡◌, List, Bytes}

-- What a program does with its transport, and the timer that was cancelled.
pub data Call : Type 0 where
  connect_call : Call
  async_write_call : Bytes → Call
  async_read_call : Call
  close_call : Call
  cancelled_timer : Call

unfoldable pub run_call : Call → Client → Client × List Effect
unfolding connect write read close connect_timeout_handler
run_call connect_call c = connect c
run_call (async_write_call wire) c = write wire c
run_call async_read_call c = read c
run_call close_call c = close c
run_call cancelled_timer c = connect_timeout_handler operation_aborted c

unfoldable pub run_calls : List Call → Client → Client × List Effect
unfolding run_call
run_calls [] c = (c, [])
run_calls (call ∷ calls) c = and_then (run_call call c) (run_calls calls)

-- The calls that are left to a program which never asks for a connection by itself: the transport
-- connects when it has to.
abbrev pub IsIndirect : Call → Type 0
IsIndirect connect_call = ⊥
IsIndirect _ = Unit

-- The state says that a connection is under way, but there is no socket to be connected.
abbrev pub IsStranded : Client → Type 0
IsStranded c = (c.is_open ≡ false) × (c.connection ≡ connecting) × (c.is_timer_started ≡ false)

write-stranded :
    (wire : Bytes) (c : Client)
    → IsStranded c
    → write wire c ≡ (record c { transmission_queue = c.transmission_queue ++ (wire ∷ []) }, [])
unfolding write
write-stranded wire c (shut, waiting, quiet) = rw (shut, waiting) refl

read-stranded :
    (c : Client) → IsStranded c → read c ≡ (record c { is_read_from_connect_handler = true }, [])
unfolding read
read-stranded c (shut, waiting, quiet) = rw (shut, waiting) refl

close-stranded : (c : Client) → IsStranded c → close c ≡ (c, [])
unfolding close
close-stranded c (shut, waiting, quiet) = rw (quiet, shut) refl

run_call-IsStranded :
    (call : Call) (c : Client)
    → IsIndirect call
    → IsStranded c
    → IsStranded (run_call call c).0 × ((run_call call c).1 ≡ [])
unfolding run_call
run_call-IsStranded connect_call c indirect s = absurd indirect
run_call-IsStranded (async_write_call wire) c indirect s =
    subst (λ r. IsStranded r.0 × (r.1 ≡ [])) (sym (write-stranded wire c s)) (s, refl)
run_call-IsStranded async_read_call c indirect s =
    subst (λ r. IsStranded r.0 × (r.1 ≡ [])) (sym (read-stranded c s)) (s, refl)
run_call-IsStranded close_call c indirect s =
    subst (λ r. IsStranded r.0 × (r.1 ≡ [])) (sym (close-stranded c s)) (s, refl)
run_call-IsStranded cancelled_timer c indirect s = (s, refl)

run_calls-IsStranded :
    (calls : List Call) (c : Client)
    → All IsIndirect calls
    → IsStranded c
    → IsStranded (run_calls calls c).0 × ((run_calls calls c).1 ≡ [])
unfolding run_calls
run_calls-IsStranded [] c indirect s = (s, refl)
run_calls-IsStranded (call ∷ calls) c (indirect, rest) s =
    let (s', nothing) = run_call-IsStranded call c indirect s in
    let (s'', nothing') = run_calls-IsStranded calls (run_call call c).0 rest s' in
    (s'', rw (nothing, nothing') refl)

resolve_failure :
    (c : Client)
    → c.is_open ≡ false
    → c.is_timer_started ≡ true
    → resolve_handler failed c ≡ (record c { is_timer_started = false }, cancel_timer ∷ raise ∷ [])
unfolding resolve_handler
resolve_failure c shut timer = rw (timer, shut) refl

-- When the name of the router does not resolve while a client connects, the client raises. From then
-- on, as long as its program calls only `asyncWrite`, `asyncRead` and `close`, it asks nothing more of
-- the resolver, of the socket or of its timer, and it stays in the state of being about to connect.
pub resolve_failure-IsStranded :
    (c : Client) (calls : List Call)
    → c.is_open ≡ false
    → c.connection ≡ connecting
    → c.is_timer_started ≡ true
    → All IsIndirect calls
    → ((resolve_handler failed c).1 ≡ cancel_timer ∷ raise ∷ [])
      × IsStranded (run_calls calls (resolve_handler failed c).0).0
      × ((run_calls calls (resolve_handler failed c).0).1 ≡ [])
resolve_failure-IsStranded c calls shut waiting timer indirect =
    let failure = resolve_failure c shut timer in
    let after =
      subst (λ r. IsStranded (run_calls calls r.0).0 × ((run_calls calls r.0).1 ≡ [])) (sym failure)
        (run_calls-IsStranded calls (record c { is_timer_started = false }) indirect
          (shut, waiting, refl)) in
    (ap (λ r. r.1) failure, after.0, after.1)
