-- ===== src/Client/TcpTransport/Stream.antt =====
-- The receiving side of src/lib/tcp-transport.cpp with the handlers of the timers that it cancels: each
-- gives the callback an empty publication and the error `operation_canceled`, at any later time.
use f_copss.Ndn.{Block}
use f_copss.Client.TcpTransport.Reassembly.{
  receive_all-stream, callbacks-append, receive_all, callbacks, seen,
}
use f_copss.Ndn.Encoding.{Encoding}
use f_copss.Prelude.{
  ◌==◌, inr, inl, if◌then◌else◌, ok, subst, Bool-cases, refl, sym, ◌∙◌, ap, ◌≡◌, [],
}
use f_copss.Ndn.Wire.{Wire}
use f_copss.Ndn.Tlv
use f_copss.Prelude.{Result-cases, All}
use f_copss.Router.TcpTransport.Stream.{concat}
use f_copss.Router.Forwarder.{pub_from_rp}
use f_copss.Packets.{decode_pub}
use f_copss.Client.TcpTransport.Reception.{pass_on, receive_handler, receive_timeout_handler}
use f_copss.Client.TcpTransport.{
  connected, false, true, not, Bool, ◌++◌, ◌∷◌, List, Bytes, Client, Effect, recv, recv_aborted,
}
use f_copss.Client.TcpTransport.Loop.{IsSound, all_passed, passed}
use f_copss.Router.TcpTransport.{success, operation_aborted}
use f_copss.Prelude.Outcome.{runs_on, out_of_bounds, value, Outcome, ◌>>=◌}

-- Octets arrive, or the handler of a cancelled timer runs.
pub data StreamEvent : Type 0 where
  arrived : Bytes → StreamEvent
  timer_cancelled : StreamEvent

abbrev pub chunks : List StreamEvent → List Bytes
chunks [] = []
chunks (arrived chunk ∷ events) = chunk ∷ chunks events
chunks (timer_cancelled ∷ events) = chunks events

-- One report of a cancelled timer for each of its handlers.
abbrev pub reports : List StreamEvent → List Effect
reports [] = []
reports (arrived chunk ∷ events) = reports events
reports (timer_cancelled ∷ events) = recv_aborted ∷ reports events

abbrev is_publication : Effect → Bool
is_publication (recv packet) = true
is_publication _ = false

unfoldable pub kept : (Effect → Bool) → List Effect → List Effect
kept keeps [] = []
kept keeps (e ∷ es) = let rest = kept keeps es in if keeps e then e ∷ rest else rest

-- The calls of the callback with a publication, and the others and the exceptions.
abbrev pub publications : List Effect → List Effect
publications es = kept is_publication (callbacks es)

abbrev pub notices : List Effect → List Effect
notices es = kept (λ e. not (is_publication e)) (callbacks es)

kept-both :
    (keeps : Effect → Bool) (es fs : List Effect)
    → kept keeps (es ++ fs) ≡ kept keeps es ++ kept keeps fs
unfolding kept
kept-both keeps [] fs = refl
kept-both keeps (e ∷ es) fs = elim (Bool-cases (keeps e)) [
  | inl here ↦ rw (here, kept-both keeps es fs) refl
  | inr other ↦ rw (other, kept-both keeps es fs) refl
]

kept-append :
    (keeps : Effect → Bool) (es fs : List Effect)
    → kept keeps (callbacks (es ++ fs)) ≡ kept keeps (callbacks es) ++ kept keeps (callbacks fs)
kept-append keeps es fs =
    ap (kept keeps) (callbacks-append es fs) ∙ kept-both keeps (callbacks es) (callbacks fs)

nothing_before : (es fs : List Effect) → es ++ fs ≡ [] → (es ≡ []) × (fs ≡ [])
nothing_before [] fs e = (refl, e)
nothing_before (x ∷ es) fs e = absurd cc

value-injective {ℓ} : {A : Type ℓ} (a b : A) → value a ≡ value b → a ≡ b
value-injective a b e = cc

ok-injective {ℓ} : {A : Type ℓ} (a b : A) → ok a ≡ ok b → a ≡ b
ok-injective a b e = cc

bind-eq-value {ℓ κ} :
    {A : Type ℓ} {B : Type κ} (call : Outcome A) (next : A → Outcome B) {b : B}
    → (call >>= next) ≡ value b
    → (a : A) × (call ≡ value a) × (next a ≡ value b)
bind-eq-value (value result) next e = (result, refl, e)
bind-eq-value out_of_bounds next e = cc
bind-eq-value runs_on next e = cc

module _ ⦃wire : Wire⦄ ⦃encoding : Encoding⦄ (element : Bytes → Block) where
  unfoldable pub run_events : List StreamEvent → Client → Outcome (Client × List Effect)
  run_events [] c = value (c, [])
  run_events (arrived chunk ∷ events) c = do
    (c', effects) ← receive_handler element success chunk c
    (c'', effects') ← run_events events c'
    value (c'', effects ++ effects')
  run_events (timer_cancelled ∷ events) c =
      let (c', effects) = receive_timeout_handler operation_aborted c in
      (do (c'', effects') ← run_events events c'; value (c'', effects ++ effects'))

  run_events-arrived :
      (chunk : Bytes) (events : List StreamEvent) (c c' c'' : Client) (es es' : List Effect)
      → receive_handler element success chunk c ≡ value (c', es)
      → run_events events c' ≡ value (c'', es')
      → run_events (arrived chunk ∷ events) c ≡ value (c'', es ++ es')
  unfolding run_events
  run_events-arrived chunk events c c' c'' es es' e e' = rw (e, e') refl

  run_events-cancelled :
      (events : List StreamEvent) (c c' : Client) (es : List Effect)
      → run_events events c ≡ value (c', es)
      → run_events (timer_cancelled ∷ events) c ≡ value (c', recv_aborted ∷ es)
  unfolding run_events receive_timeout_handler
  run_events-cancelled events c c' es e = rw e refl

  receive_all-split :
      (chunk : Bytes) (rest : List Bytes) (c c'' : Client) (es : List Effect)
      → receive_all element (chunk ∷ rest) c ≡ value (c'', es)
      → (c' : Client) × (now later : List Effect) × (receive_handler element success chunk c
          ≡ value (c', now))
        × (receive_all element rest c' ≡ value (c'', later))
        × (now ++ later ≡ es)
  unfolding receive_all
  receive_all-split chunk rest c c'' es e =
      let ((c', now), handled, e₁) = bind-eq-value (receive_handler element success chunk c) _ e in
      let ((c₂, later), ran, e₂) = bind-eq-value (receive_all element rest c') _ e₁ in
      let same = value-injective (c₂, now ++ later) (c'', es) e₂ in
      (
        c',
        now,
        later,
        handled,
        subst (λ x. receive_all element rest c' ≡ value (x, later)) (ap (λ p. p.0) same) ran,
        ap (λ p. p.1) same,
      )

  -- The handlers of cancelled timers change nothing else.
  run_events-receive_all :
      (events : List StreamEvent) (c c' : Client) (es : List Effect)
      → receive_all element (chunks events) c ≡ value (c', es)
      → notices es ≡ []
      → (effects : List Effect) × (run_events events c ≡ value (c', effects))
        × (publications effects ≡ publications es)
        × (notices effects ≡ reports events)
  unfolding run_events receive_all kept
  run_events-receive_all [] c c' es e silent =
      let same = value-injective (c, []) (c', es) e in
      ([], ap (λ p. value (p.0, [])) same, ap (λ p. publications p.1) same, refl)
  run_events-receive_all (timer_cancelled ∷ events) c c' es e silent =
      let (effects, ran, passed, said) = run_events-receive_all events c c' es e silent in
      (
        recv_aborted ∷ effects,
        run_events-cancelled events c c' effects ran,
        passed,
        ap (λ x. recv_aborted ∷ x) said,
      )
  run_events-receive_all (arrived chunk ∷ events) c c' es e silent =
      let (c₁, now, later, handled, rest, parts) =
        receive_all-split chunk (chunks events) c c' es e in
      let quiet =
        nothing_before (notices now) (notices later)
          (sym (kept-append (λ e. not (is_publication e)) now later) ∙ ap notices parts ∙ silent) in
      let (effects, ran, passed, said) = run_events-receive_all events c₁ c' later rest quiet.1 in
      (
        now ++ effects,
        run_events-arrived chunk events c c₁ c' now effects handled ran,
        kept-append is_publication now effects
            ∙ ap (λ x. publications now ++ x) passed
            ∙ sym (kept-append is_publication now later)
            ∙ ap publications parts,
        kept-append (λ e. not (is_publication e)) now effects
            ∙ ap (λ x. x ++ notices effects) quiet.0
            ∙ said,
      )

  -- A block that decodes gives the callback publications alone.
  pass_on-publications :
      (w : Bytes) (es : List Effect)
      → pass_on element w ≡ ok es
      → (publications es ≡ es) × (notices es ≡ [])
  unfolding pass_on kept
  pass_on-publications w es e =
      let Goal : List Effect → Type 0 = λ es. (publications es ≡ es) × (notices es ≡ []) in
      elim (Bool-cases ((element w).type == Tlv.pub_from_rp)) [
        | inl published ↦ elim (Result-cases (decode_pub Tlv.pub_from_rp pub_from_rp (element w))) [
          | inl (error, d) ↦ let e₁ = rw (published, d) at e in absurd cc
          | inr (packet, d) ↦
              let e₁ = rw (published, d) at e in
              subst Goal (ok-injective (recv packet ∷ []) es e₁) (refl, refl)
        ]
        | inr other ↦ let e₁ = rw other at e in subst Goal (ok-injective [] es e₁) (refl, refl)
      ]

  all_passed-publications :
      (ws : List Bytes)
      → All (IsSound element) ws
      → (publications (all_passed element ws) ≡ all_passed element ws)
        × (notices (all_passed element ws) ≡ [])
  unfolding kept
  all_passed-publications [] a = (refl, refl)
  all_passed-publications (w ∷ ws) ((whole, fits, passes), a) =
      let (first, quiet) = pass_on-publications w (passed element w) passes in
      let (others, silent) = all_passed-publications ws a in
      (
        rw (kept-append is_publication (passed element w) (all_passed element ws), first, others)
            refl,
        rw
            (
              kept-append (λ e. not (is_publication e)) (passed element w) (all_passed element ws),
              quiet,
              silent,
            )
            refl,
      )

  -- A stream of blocks of at most 8192 octets, each of which is no publication or decodes, arrives in
  -- whatever pieces at an open and connected client with an empty buffer, whose timer never runs out.
  -- The handlers of the timers that it cancels run at any times between. Then the callback is given
  -- the publications in the order of the blocks; besides these it is given one error
  -- `operation_canceled` for each of those handlers, and no other error; and the client is as before.
  pub run_events-callbacks :
      (c : Client) (events : List StreamEvent) (ws : List Bytes)
      → c.is_open ≡ true
      → c.connection ≡ connected
      → c.is_timer_started ≡ false
      → c.received ≡ []
      → All (IsSound element) ws
      → concat (chunks events) ≡ concat ws
      → (effects : List Effect) × (run_events events c ≡ value (c, effects))
        × (publications effects ≡ all_passed element ws)
        × (notices effects ≡ reports events)
  run_events-callbacks c events ws opened up timer empty a e =
      let (es, ran, seen) =
        receive_all-stream element c (chunks events) ws opened up timer empty a e in
      let (same, silent) = all_passed-publications ws a in
      let (effects, ran', passed, said) =
        run_events-receive_all events c c es ran
          (ap (kept (λ e. not (is_publication e))) seen ∙ silent) in
      (effects, ran', passed ∙ ap (kept is_publication) seen ∙ same, said)
