-- ===== src/Rendezvous/Echo.antt =====
-- A publication on its way over the rendezvous point of src/rendezvous/forwarder.cpp and back through
-- the router of src/router/forwarder.cpp.
use f_copss.Ndn.Encoding.{Encoding}
use f_copss.Prelude.Outcome.{value}
use f_copss.Prelude.{arith, refl, append-nil, ap, List, [], ◌∷◌, some, ◌≡◌}
use f_copss.Router.FaceManager.{face_id, Face}
use f_copss.Ndn.{Ndn}
use f_copss.Rendezvous.{on_pub_to_rp_received, Bytes, Cd, FaceManager, ℕ}
use f_copss.Rendezvous
use f_copss.Router.Fib
use f_copss.Packets.Wire.{on_packet_received-encode}
use f_copss.Rendezvous.Network.{
  rp_receives, rp_receives_all, router_receives, router_receives_all, carried, publish_through,
}
use f_copss.Prelude.OrderedSet
use f_copss.Router.FaceManager
use f_copss.Router.St
use f_copss.Router.St.Faces.{IsMatchableTable}
use f_copss.Router.St.Subscribers.{IsSubscriber}
use f_copss.Router.Table.Invariant.{IsWellFormed}
use f_copss.Router.Forwarder.Delivery
use f_copss.Router.Forwarder.{
  pub_to_rp, send_to, Packet, Router, Send, pub_from_rp, on_pub_from_rp_received,
}

-- The face of an id has that id.
find-id :
    (id : ℕ) (faces : FaceManager) (face : Face)
    → FaceManager.find id faces ≡ some face
    → face.id ≡ id
unfolding FaceManager.find
find-id id faces face e = OrderedSet.find-key face_id id faces.face_table face e

answer :
    (id : ℕ) (cd : Cd) (content : Bytes) (faces : FaceManager) (face : Face)
    → FaceManager.find id faces ≡ some face
    → Rendezvous.on_pub_to_rp_received id cd content faces
      ≡ (faces, record { to = id; packet = pub_from_rp cd content } ∷ [])
unfolding Rendezvous.on_pub_to_rp_received
answer id cd content faces face e =
    rw (e, Rendezvous.on_pub_to_rp_received)
      (ap (λ n. (faces, record { to = n; packet = pub_from_rp cd content } ∷ []))
        (find-id id faces face e))

module _ ⦃encoding : Encoding⦄ where
  -- A packet that is sent crosses the connection as it is.
  carried-one :
      (to : ℕ) (packet : Packet)
      → carried to (record { to = to; packet = packet } ∷ []) ≡ packet ∷ []
  unfolding carried
  carried-one to packet = rw (on_packet_received-encode packet) (ground arith)

send_to-one :
    (faces : FaceManager) (packet : Packet) (id : ℕ) (face : Face)
    → FaceManager.find id faces ≡ some face
    → send_to faces packet (id ∷ []) ≡ record { to = id; packet = packet } ∷ []
unfolding send_to
send_to-one faces packet id face there = rw (there, send_to) (rw (find-id id faces face there) refl)

module _ ⦃ndn : Ndn⦄ where
  -- The router sends a publication on to the live face that its forwarding table gives.
  sent_up :
      (now publisher up : ℕ) (cd : Cd) (content : Bytes) (router : Router) (face : Face)
      → Fib.match cd router.fib ≡ value (up ∷ [])
      → FaceManager.find up router.faces ≡ some face
      → router_receives now publisher (pub_to_rp cd content) router
        ≡ value (router, record { to = up; packet = pub_to_rp cd content } ∷ [])
  unfolding router_receives on_pub_to_rp_received
  sent_up now publisher up cd content router face best there = rw best (
      ap (λ sends. value (router, sends))
        (send_to-one router.faces (pub_to_rp cd content) up face there))

  router_receives_all-one :
      (now face_id : ℕ) (cd : Cd) (content : Bytes) (router : Router) (sends : List Send)
      → on_pub_from_rp_received face_id cd content router ≡ value (router, sends)
      → router_receives_all now face_id (pub_from_rp cd content ∷ []) router ≡ value (router, sends)
  unfolding router_receives_all router_receives
  router_receives_all-one now face_id cd content router sends e = rw (e, append-nil sends) refl

rp_receives_all-one :
    (down : ℕ) (cd : Cd) (content : Bytes) (faces : FaceManager) (face : Face)
    → FaceManager.find down faces ≡ some face
    → rp_receives_all down (pub_to_rp cd content ∷ []) faces
      ≡ (faces, record { to = down; packet = pub_from_rp cd content } ∷ [])
unfolding rp_receives_all rp_receives
rp_receives_all-one down cd content faces face there =
    rw (answer down cd content faces face there) refl

module _ ⦃ndn : Ndn⦄ ⦃encoding : Encoding⦄ where
  publish_through-steps :
      (now publisher up down : ℕ) (cd : Cd) (content : Bytes) (router : Router)
      (faces : FaceManager) (sent answers : List Send) (upward downward : List Packet)
      (delivered : List Send)
      → router_receives now publisher (pub_to_rp cd content) router ≡ value (router, sent)
      → carried up sent ≡ upward
      → rp_receives_all down upward faces ≡ (faces, answers)
      → carried down answers ≡ downward
      → router_receives_all now up downward router ≡ value (router, delivered)
      → publish_through now publisher up down cd content router faces
        ≡ value ((router, faces), delivered)
  unfolding publish_through
  publish_through-steps now publisher up down cd content router faces sent answers upward downward
        delivered e₁ e₂ e₃ e₄ e₅ =
      rw e₁ (rw (e₂, e₃) (rw e₄ (rw e₅ refl)))

  -- A publication reaches a router whose forwarding table gives the live face `up` for its descriptor,
  -- and behind `up` is a rendezvous point, for which the router is the live face `down`. The
  -- publication goes up as a block, is answered by the rendezvous point and comes back as a block,
  -- and the router, whose subscription table is well formed and matchable, hands it once to each live
  -- matching subscriber and to nobody else. Neither program changes its state.
  pub publish_through-IsMulticast :
      (now publisher up down : ℕ) (cd : Cd) (content : Bytes) (router : Router)
      (faces : FaceManager) (face_up face_down : Face)
      → Fib.match cd router.fib ≡ value (up ∷ [])
      → FaceManager.find up router.faces ≡ some face_up
      → FaceManager.find down faces ≡ some face_down
      → IsWellFormed St.hop_face router.st.entries
      → IsMatchableTable router.st.entries
      → (sends : List Send) × (publish_through now publisher up down cd content router faces
          ≡ value ((router, faces), sends))
        × Delivery.IsMulticast router
            (pub_from_rp cd content)
            (IsSubscriber router.st.entries cd)
            sends
  publish_through-IsMulticast now publisher up down cd content router faces face_up face_down best
        there back w m =
      let (sends, handled, multicast) =
        Delivery.on_pub_from_rp_received-IsMulticast router up cd content w m in
      (
        sends,
        publish_through-steps now publisher up down cd content router faces _ _ _ _ sends
            (sent_up now publisher up cd content router face_up best there)
            (carried-one up (pub_to_rp cd content))
            (rp_receives_all-one down cd content faces face_down back)
            (carried-one down (pub_from_rp cd content))
            (router_receives_all-one now up cd content router sends handled),
        multicast,
      )
