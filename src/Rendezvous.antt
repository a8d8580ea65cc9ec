-- ===== src/Rendezvous.antt =====
-- src/rendezvous/forwarder.cpp: the handlers of the rendezvous point. Its table of faces has the same
-- code as the router's. A handler returns the new table and the packets that it hands to faces.
pub mod Network
pub mod Echo
use f_copss.Prelude.{◌∷◌, none, some, [], Bytes, List}
use f_copss.Cd.{Cd}
use Prim.Native.Nat.{ℕ}
use f_copss.Router.FaceManager
use f_copss.Router.FaceManager.{FaceManager}
use f_copss.Router.Forwarder.{Send, pub_from_rp}

unfoldable pub on_sub_received : ℕ → Cd → FaceManager → FaceManager × List Send
on_sub_received face_id cd faces = (faces, [])

unfoldable pub on_pub_to_rp_received : ℕ → Cd → Bytes → FaceManager → FaceManager × List Send
on_pub_to_rp_received face_id cd content faces =
    let pub_packet = pub_from_rp cd content in
    elim (FaceManager.find face_id faces) [
      | none ↦ (faces, [])
      | some face ↦ (faces, record { to = face.id; packet = pub_packet } ∷ [])
    ]

unfoldable pub on_pub_from_rp_received : ℕ → Cd → Bytes → FaceManager → FaceManager × List Send
on_pub_from_rp_received face_id cd content faces = (faces, [])

unfoldable pub on_face_shutdown : ℕ → FaceManager → FaceManager
on_face_shutdown face_id faces = FaceManager.remove face_id faces
