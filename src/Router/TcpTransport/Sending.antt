-- ===== src/Router/TcpTransport/Sending.antt =====
-- The sending side of src/router/tcp-transport.cpp: one write at a time, in the order of the sends.
use mathlib.Core.List.{append_assoc, append-nil}
use f_copss.Router.TcpTransport.{success, write, Effect, handle_send, send, Transport}
use f_copss.Prelude.{sym, ◌∙◌, ap, refl, ◌++◌, [], ◌≡◌, ◌∷◌, Bytes, List}

-- The writes that are started.
abbrev pub writes : List Effect → List Bytes
writes [] = []
writes (write w ∷ es) = w ∷ writes es
writes (_ ∷ es) = writes es

-- The front of the queue, if there is one.
abbrev pub front : List Bytes → List Bytes
front [] = []
front (w ∷ queue) = w ∷ []

-- What can happen between a start with an empty queue and a shutdown: the packets sent, the writes
-- started and the writes completed so far. A write completes only when there is one.
pub data Sending : Transport → List Bytes → List Bytes → List Bytes → Type 0 where
  begin : (t : Transport) → t.send_queue ≡ [] → Sending t [] [] []
  after_send :
      (t : Transport) (sent written done : List Bytes) (packet : Bytes)
      → Sending t sent written done
      → Sending (send packet t).0 (sent ++ (packet ∷ [])) (written ++ writes (send packet t).1) done
  after_write :
      (t : Transport) (sent written done : List Bytes) (packet : Bytes) (queue : List Bytes)
      → Sending t sent written done
      → t.send_queue ≡ packet ∷ queue
      → Sending
          (handle_send success t).0
          sent
          (written ++ writes (handle_send success t).1)
          (done ++ (packet ∷ []))

send_lem :
    (t : Transport) (done : List Bytes) (packet : Bytes) (queue : List Bytes)
    → t.send_queue ≡ queue
    → ((send packet t).0.send_queue ≡ queue ++ (packet ∷ []))
      × ((done ++ front queue) ++ writes (send packet t).1 ≡ done ++ front (queue ++ (packet ∷ [])))
unfolding send
send_lem t done packet [] e = rw e (refl, rw (append-nil done) refl)
send_lem t done packet (p ∷ queue) e = rw e (refl, append-nil (done ++ (p ∷ [])))

handle_send_lem :
    (t : Transport) (done : List Bytes) (packet : Bytes) (queue : List Bytes)
    → t.send_queue ≡ packet ∷ queue
    → ((handle_send success t).0.send_queue ≡ queue)
      × ((done ++ (packet ∷ [])) ++ writes (handle_send success t).1
          ≡ (done ++ (packet ∷ [])) ++ front queue)
unfolding handle_send
handle_send_lem t done packet [] e = rw e (refl, refl)
handle_send_lem t done packet (p ∷ queue) e = rw e (refl, refl)

-- The packets sent are those whose write is complete and then those in the queue, and the writes
-- started are the complete ones and the one at the front of the queue.
pub send_queue_lem :
    {t : Transport} {sent written done : List Bytes}
    → Sending t sent written done
    → (sent ≡ done ++ t.send_queue) × (written ≡ done ++ front t.send_queue)
send_queue_lem (begin t e) = rw e (refl, refl)
send_queue_lem (after_send t sent written done packet s) =
    let (all, started) = send_queue_lem s in
    let (queued, more) = send_lem t done packet t.send_queue refl in
    (
      ap (λ x. x ++ (packet ∷ [])) all
          ∙ append_assoc done t.send_queue (packet ∷ [])
          ∙ sym (ap (λ q. done ++ q) queued),
      ap (λ x. x ++ writes (send packet t).1) started
          ∙ more
          ∙ sym (ap (λ q. done ++ front q) queued),
    )
send_queue_lem (after_write t sent written done packet queue s e) =
    let (all, started) = send_queue_lem s in
    let (queued, more) = handle_send_lem t done packet queue e in
    (
      all
          ∙ ap (λ q. done ++ q) e
          ∙ sym (append_assoc done (packet ∷ []) queue)
          ∙ sym (ap (λ q. (done ++ (packet ∷ [])) ++ q) queued),
      ap (λ x. x ++ writes (handle_send success t).1) (started ∙ ap (λ q. done ++ front q) e)
          ∙ more
          ∙ sym (ap (λ q. (done ++ (packet ∷ [])) ++ front q) queued),
    )
