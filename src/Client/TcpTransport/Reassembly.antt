-- ===== src/Client/TcpTransport/Reassembly.antt =====
-- The receiving side of src/lib/tcp-transport.cpp: whatever the pieces in which a stream arrives,
-- the callback is given the publications of its blocks.
use f_copss.Client.TcpTransport.Loop.{process_lem, end_of, IsShort}
use f_copss.Client.TcpTransport.Loop.{passed, all_passed, IsSound, keep_lem}
use f_copss.Prelude.Outcome.{◌>>=◌, Outcome, value}
use f_copss.Ndn.{Block}
use f_copss.Ndn.Encoding.{Encoding}
use f_copss.Router.TcpTransport.{max_packet_size}
use f_copss.Ndn.Wire.{Wire}
use f_copss.Client.TcpTransport.Reception.{
  receive_handler, continue_at, is_complete, received_block, after_process, set_timer, process,
  Processed,
}
use f_copss.Prelude.{
  subst, ◌==◌, ◌&&◌, Bool-cases, All, length-append, arith, append_assoc, append-nil, ◌∙◌, sym, ap,
  refl, inr, inl, ◌<◌, [], length, ◌++◌, ◌∷◌, ℕ, ◌≡◌, Bytes, List,
}
use f_copss.Router.TcpTransport.Stream.{concat}
use f_copss.Client.TcpTransport.{
  success, not, false, true, Bool, Client, Effect, and_then, read, recv, recv_aborted, recv_error,
  recv_bad_message, recv_timed_out, raise, arm_receive_timer, cancel_timer, async_receive,
  connected,
}

-- What the client's program sees.
abbrev pub seen : Effect → List Effect
seen (recv packet) = recv packet ∷ []
seen recv_aborted = recv_aborted ∷ []
seen recv_error = recv_error ∷ []
seen recv_bad_message = recv_bad_message ∷ []
seen recv_timed_out = recv_timed_out ∷ []
seen raise = raise ∷ []
seen _ = []

abbrev pub callbacks : List Effect → List Effect
callbacks [] = []
callbacks (e ∷ es) = seen e ++ callbacks es

pub callbacks-append : (es fs : List Effect) → callbacks (es ++ fs) ≡ callbacks es ++ callbacks fs
callbacks-append [] fs = refl
callbacks-append (e ∷ es) fs =
    ap (λ x. seen e ++ x) (callbacks-append es fs)
    ∙ sym (append_assoc (seen e) (callbacks es) (callbacks fs))

-- The timer waits.
abbrev pub waits : Bytes → Bool
waits [] = false
waits (b ∷ s) = true

set_timer_lem :
    (s : Bytes) (c : Client)
    → (effects : List Effect) × (set_timer (end_of s) c
        ≡ (record c { is_timer_started = waits s }, effects))
      × (callbacks effects ≡ [])
unfolding set_timer
set_timer_lem [] c = elim (Bool-cases c.is_timer_started) [
  | inl on ↦ (cancel_timer ∷ [], rw on refl, refl)
  | inr off ↦ ([], rw off refl, refl)
]
set_timer_lem (b ∷ s) c = elim (Bool-cases c.is_timer_started) [
  | inl on ↦ ([], rw on refl, refl)
  | inr off ↦ (arm_receive_timer ∷ [], rw off refl, refl)
]

read-connected :
    (c : Client) → c.is_open ≡ true → c.connection ≡ connected → read c ≡ (c, async_receive ∷ [])
unfolding read
read-connected c opened up = rw (opened, up) refl

not_full :
    (ended : Bool) (front rest buffer : Bytes) (offset : ℕ)
    → buffer ≡ front ++ rest
    → offset ≡ length front
    → length rest < max_packet_size
    → (ended && (length buffer == max_packet_size && offset == 0)) ≡ false
not_full ended [] rest buffer offset e o room = let l = ap length e in ground arith
not_full ended (b ∷ front) rest buffer offset e o room = ground arith

after_process_lem :
    (p : Processed) (front : Bytes) (c : Client)
    → c.is_open ≡ true
    → c.connection ≡ connected
    → c.received ≡ front ++ p.rest
    → p.offset ≡ length front
    → length p.rest < max_packet_size
    → after_process p c ≡ (record c { received = p.rest }, async_receive ∷ [])
unfolding after_process
after_process_lem p front c opened up parts offset room =
    let kept = keep_lem front p.rest c.received p.offset parts offset in
    rw (not_full (not (is_complete p.end)) front p.rest c.received p.offset parts offset room)
      (rw kept (read-connected (record c { received = p.rest }) opened up))

continue_at-end_of :
    (s : Bytes) (p : Processed) (c : Client)
    → continue_at (end_of s) p c ≡ and_then (set_timer (end_of s) c) (after_process p)
continue_at-end_of [] p c = refl
continue_at-end_of (b ∷ s) p c = refl

received_block_lem :
    (p : Processed) (front : Bytes) (c : Client)
    → c.is_open ≡ true
    → c.connection ≡ connected
    → c.received ≡ front ++ p.rest
    → p.offset ≡ length front
    → p.end ≡ end_of p.rest
    → length p.rest < max_packet_size
    → (effects : List Effect) × (received_block p c
        ≡ (record c { received = p.rest; is_timer_started = waits p.rest }, effects))
      × (callbacks effects ≡ callbacks p.effects)
unfolding received_block
received_block_lem p front c opened up parts offset ended room =
    let (timer, set, silent) = set_timer_lem p.rest c in
    let continued =
      after_process_lem p front (record c { is_timer_started = waits p.rest }) opened up parts
        offset room in
    let step : continue_at p.end p c ≡ (
      record c { received = p.rest; is_timer_started = waits p.rest },
      timer ++ (async_receive ∷ []),
    ) =
      ap (λ e. continue_at e p c) ended
      ∙ continue_at-end_of p.rest p c
      ∙ rw (set, continued) refl in
    (
      p.effects ++ (timer ++ (async_receive ∷ [])),
      rw step refl,
      rw
          (
            callbacks-append p.effects (timer ++ (async_receive ∷ [])),
            callbacks-append timer (async_receive ∷ []),
            silent,
            append-nil (callbacks p.effects),
          )
          refl,
    )

module _ ⦃wire : Wire⦄ ⦃encoding : Encoding⦄ (element : Bytes → Block) where
  -- The pieces of a stream, one after the other.
  unfoldable pub receive_all : List Bytes → Client → Outcome (Client × List Effect)
  receive_all [] c = value (c, [])
  receive_all (chunk ∷ chunks) c = do
    (c', effects) ← receive_handler element success chunk c
    (c'', effects') ← receive_all chunks c'
    value (c'', effects ++ effects')

  receive_all-cons :
      (chunk : Bytes) (chunks : List Bytes) (c c' c'' : Client) (es es' : List Effect)
      → receive_handler element success chunk c ≡ value (c', es)
      → receive_all chunks c' ≡ value (c'', es')
      → receive_all (chunk ∷ chunks) c ≡ value (c'', es ++ es')
  unfolding receive_all
  receive_all-cons chunk chunks c c' c'' es es' e e' = rw (e, e') refl

  receive_handler-process :
      (c : Client) (chunk : Bytes) (p : Processed)
      → process element (length (c.received ++ chunk)) (c.received ++ chunk) ≡ value p
      → receive_handler element success chunk c
        ≡ value (received_block p (record c { received = c.received ++ chunk }))
  unfolding receive_handler
  receive_handler-process c chunk p ran = rw ran refl

  IsShort-room :
      (s : Bytes) (ws : List Bytes)
      → IsShort s ws
      → All (IsSound element) ws
      → length s < max_packet_size
  IsShort-room s [] short a = omega (arith, ap length short)
  IsShort-room s (w ∷ ws) short ((whole, fits, passes), a) = omega arith

  IsShort-nil :
      (s : Bytes) (ws : List Bytes) → IsShort s ws → s ++ [] ≡ concat ws → (ws ≡ []) × (s ≡ [])
  IsShort-nil s [] short e = (refl, short)
  IsShort-nil s (w ∷ ws) short e =
      absurd (omega (arith, ap length e, length-append s [], length-append w (concat ws)))

  IsShort-start : (s : Bytes) (ws : List Bytes) → s ≡ [] → All (IsSound element) ws → IsShort s ws
  IsShort-start s [] empty a = empty
  IsShort-start s (w ∷ ws) empty ((whole, fits, passes), a) =
      let positive = wire.from_buffer-positive w w whole in omega (arith, ap length empty)

  all_passed-append :
      (us vs : List Bytes)
      → all_passed element (us ++ vs) ≡ all_passed element us ++ all_passed element vs
  all_passed-append [] vs = refl
  all_passed-append (u ∷ us) vs =
      ap (λ x. passed element u ++ x) (all_passed-append us vs)
      ∙ sym (append_assoc (passed element u) (all_passed element us) (all_passed element vs))

  seen_after :
      (us ws' ws : List Bytes) (es es' called : List Effect)
      → ws ≡ us ++ ws'
      → callbacks es ≡ callbacks called
      → called ≡ all_passed element us
      → callbacks es' ≡ callbacks (all_passed element ws')
      → callbacks (es ++ es') ≡ callbacks (all_passed element ws)
  seen_after us ws' ws es es' called split now passes later =
      rw
        (
          callbacks-append es es',
          now,
          passes,
          later,
          split,
          all_passed-append us ws',
          callbacks-append (all_passed element us) (all_passed element ws'),
        )
        refl

  All-behind {κ} : (P : Bytes → Type κ) (us vs : List Bytes) → All P (us ++ vs) → All P vs
  All-behind P [] vs a = a
  All-behind P (u ∷ us) vs (h, a) = All-behind P us vs a

  -- From any point of the stream on, with the blocks that are still to come.
  receive_all-from :
      (chunks : List Bytes) (c : Client) (ws : List Bytes)
      → c.is_open ≡ true
      → c.connection ≡ connected
      → c.is_timer_started ≡ waits c.received
      → IsShort c.received ws
      → All (IsSound element) ws
      → c.received ++ concat chunks ≡ concat ws
      → (effects : List Effect) × (receive_all chunks c
          ≡ value (record c { received = []; is_timer_started = false }, effects))
        × (callbacks effects ≡ callbacks (all_passed element ws))
  unfolding receive_all
  receive_all-from [] c ws opened up timer short a e =
      let (none_left, empty) = IsShort-nil c.received ws short e in
      (
        [],
        ap (λ r. value (record c { received = r }, [])) empty
            ∙ ap (λ b. value (record c { received = []; is_timer_started = b }, []))
                (timer ∙ ap waits empty),
        rw none_left refl,
      )
  receive_all-from (chunk ∷ chunks) c ws opened up timer short a e =
      let buffer = c.received ++ chunk in
      let (p, ran, (us, ws', split, called, offset, parts, rest, short', ended)) =
        process_lem element (length buffer) buffer (concat chunks) ws (omega arith)
          (append_assoc c.received chunk (concat chunks) ∙ e) a in
      let a' = All-behind (IsSound element) us ws' (subst (All (IsSound element)) split a) in
      let (es, handled, seen_now) =
        received_block_lem p (concat us) (record c { received = buffer }) opened up parts offset
          ended (IsShort-room p.rest ws' short' a') in
      let (es', ran', seen_later) =
        receive_all-from chunks (record c { received = p.rest; is_timer_started = waits p.rest })
          ws' opened up refl short' a' rest in
      (
        es ++ es',
        receive_all-cons chunk chunks c _ _ es es'
            (receive_handler-process c chunk p ran ∙ ap value handled) ran',
        seen_after us ws' ws es es' p.effects split seen_now called seen_later,
      )

  -- A stream of blocks, to a client that waits for the first one.
  pub receive_all-stream :
      (c : Client) (chunks ws : List Bytes)
      → c.is_open ≡ true
      → c.connection ≡ connected
      → c.is_timer_started ≡ false
      → c.received ≡ []
      → All (IsSound element) ws
      → concat chunks ≡ concat ws
      → (effects : List Effect) × (receive_all chunks c ≡ value (c, effects))
        × (callbacks effects ≡ callbacks (all_passed element ws))
  receive_all-stream c chunks ws opened up timer empty a e =
      let (effects, ran, seen_all) =
        receive_all-from chunks c ws opened up (timer ∙ sym (ap waits empty))
          (IsShort-start c.received ws empty a) a (ap (λ s. s ++ concat chunks) empty ∙ e) in
      (
        effects,
        ran
            ∙ ap (λ r. value (record c { received = r; is_timer_started = false }, effects))
                (sym empty)
            ∙ ap (λ b. value (record c { is_timer_started = b }, effects)) (sym timer),
        seen_all,
      )
