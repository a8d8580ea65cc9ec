-- ===== src/Rendezvous/Network.antt =====
-- A router and the rendezvous point behind one of its faces: what reaches a face of either program is
-- given to the handler of its kind (src/router/face.cpp and src/rendezvous/face.cpp), and what is sent
-- crosses the connection as a block.
use f_copss.Prelude.{[], ◌==◌, if◌then◌else◌, ◌++◌}
use f_copss.Ndn.Encoding.{Encoding}
use f_copss.Ndn.{Ndn}
use f_copss.Rendezvous.{Bytes, ◌∷◌, Cd, List, ℕ}
use f_copss.Rendezvous
use f_copss.Prelude.{none, some}
use f_copss.Router.Forwarder
use f_copss.Router.Forwarder.{Router, Send, Packet, sub, pub_to_rp, pub_from_rp}
use f_copss.Packets.{wire_encode, on_packet_received}
use f_copss.Prelude.Outcome.{Outcome, value, ◌>>=◌}
use f_copss.Router.FaceManager.{FaceManager}

-- `Face::onPacketReceived` of the rendezvous point, on the packet that was decoded.
unfoldable pub rp_receives : ℕ → Packet → FaceManager → FaceManager × List Send
unfolding Rendezvous.on_sub_received Rendezvous.on_pub_to_rp_received
    Rendezvous.on_pub_from_rp_received
rp_receives face_id (sub cd) faces = Rendezvous.on_sub_received face_id cd faces
rp_receives face_id (pub_to_rp cd content) faces =
    Rendezvous.on_pub_to_rp_received face_id cd content faces
rp_receives face_id (pub_from_rp cd content) faces =
    Rendezvous.on_pub_from_rp_received face_id cd content faces

unfoldable pub rp_receives_all : ℕ → List Packet → FaceManager → FaceManager × List Send
unfolding rp_receives
rp_receives_all face_id [] faces = (faces, [])
rp_receives_all face_id (packet ∷ packets) faces =
    let (faces', sends) = rp_receives face_id packet faces in
    let (faces'', later) = rp_receives_all face_id packets faces' in (faces'', sends ++ later)

module _ ⦃ndn : Ndn⦄ where
  -- The same of the router.
  unfoldable pub router_receives : ℕ → ℕ → Packet → Router → Outcome (Router × List Send)
  unfolding Forwarder.on_sub_received Forwarder.on_pub_to_rp_received
      Forwarder.on_pub_from_rp_received
  router_receives now face_id (sub cd) router = Forwarder.on_sub_received now face_id cd router
  router_receives now face_id (pub_to_rp cd content) router =
      Forwarder.on_pub_to_rp_received face_id cd content router
  router_receives now face_id (pub_from_rp cd content) router =
      Forwarder.on_pub_from_rp_received face_id cd content router

  unfoldable pub router_receives_all : ℕ → ℕ → List Packet → Router → Outcome (Router × List Send)
  unfolding router_receives
  router_receives_all now face_id [] router = value (router, [])
  router_receives_all now face_id (packet ∷ packets) router = do
    (router', sends) ← router_receives now face_id packet router
    (router'', later) ← router_receives_all now face_id packets router'
    value (router'', sends ++ later)

module _ ⦃encoding : Encoding⦄ where
  -- The packets that cross the connection of one face: encoded on this side, decoded on the other.
  unfoldable pub carried : ℕ → List Send → List Packet
  unfolding wire_encode on_packet_received
  carried face_id [] = []
  carried face_id (send ∷ sends) =
      let rest = carried face_id sends in
      if send.to == face_id
      then elim (on_packet_received (wire_encode send.packet)) [
        | none ↦ rest
        | some packet ↦ packet ∷ rest
      ]
      else rest

module _ ⦃ndn : Ndn⦄ ⦃encoding : Encoding⦄ where
  -- A publication reaches the router over the face `publisher`; what the router sends over the face
  -- `up` reaches the rendezvous point over its face `down`, and what that answers over `down` reaches
  -- the router over `up`.
  unfoldable pub publish_through :
      ℕ
      → ℕ
      → ℕ
      → ℕ
      → Cd
      → Bytes
      → Router
      → FaceManager
      → Outcome ((Router × FaceManager) × List Send)
  unfolding router_receives rp_receives_all router_receives_all carried
  publish_through now publisher up down cd content router faces = do
    (router', sends) ← router_receives now publisher (pub_to_rp cd content) router
    let (faces', answers) = rp_receives_all down (carried up sends) faces in
        (do
          (router'', delivered) ← router_receives_all now up (carried down answers) router'
          value ((router'', faces'), delivered))
