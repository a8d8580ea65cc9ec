-- ===== src/Router/Forwarder.antt =====
-- src/router/forwarder.cpp: the handlers of packets and of lost faces. A handler returns the new
-- state of the router and the packets that it hands to faces, in order.
pub mod Targets
pub mod Delivery
pub mod Shutdown
pub mod Subscription
use f_copss.Cd.{Cd}
use f_copss.Ndn.{Ndn}
use f_copss.Prelude.Outcome.{Outcome, value, ◌>>=◌}
use f_copss.Prelude.{ℕ, Bool, true, List, [], ◌∷◌, Option, none, some, Bytes, if◌then◌else◌}
use f_copss.Router.FaceManager
use f_copss.Router.FaceManager.{FaceManager, Face}
use f_copss.Router.Fib
use f_copss.Router.Fib.{Fib}
use f_copss.Router.St
use f_copss.Router.St.{St}

-- The content of a publication is the value of its `Content` block.
pub data Packet : Type 0 where
  sub : Cd → Packet
  pub_to_rp : Cd → Bytes → Packet
  pub_from_rp : Cd → Bytes → Packet

pub record Send : Type 0 where
  pub to : ℕ
  pub packet : Packet

pub record Router : Type 0 where
  pub fib : Fib
  pub st : St
  pub faces : FaceManager

-- The loop over the ids: `face->send` for each id that has a face.
unfoldable pub send_to : FaceManager → Packet → List ℕ → List Send
send_to faces packet [] = []
send_to faces packet (id ∷ ids) =
    let rest = send_to faces packet ids in
    elim (FaceManager.find id faces) [
      | none ↦ rest
      | some face ↦ record { to = face.id; packet = packet } ∷ rest
    ]

module _ ⦃ndn : Ndn⦄ where
  unfoldable pub on_sub_received : ℕ → ℕ → Cd → Router → Outcome (Router × List Send)
  unfolding send_to
  on_sub_received now face_id cd router =
      let (st, (do_forward, forwarded)) = St.add now cd face_id router.st in
      let router' = record router { st = st } in
      if do_forward
      then (do
        ids ← Fib.match forwarded router'.fib
        value (router', send_to router'.faces (sub forwarded) ids))
      else value (router', [])

  unfoldable pub on_pub_to_rp_received : ℕ → Cd → Bytes → Router → Outcome (Router × List Send)
  unfolding send_to
  on_pub_to_rp_received face_id cd content router = do
    ids ← Fib.match cd router.fib
    value (router, send_to router.faces (pub_to_rp cd content) ids)

  unfoldable pub on_pub_from_rp_received : ℕ → Cd → Bytes → Router → Outcome (Router × List Send)
  unfolding send_to
  on_pub_from_rp_received face_id cd content router = do
    ids ← St.match cd router.st
    value (router, send_to router.faces (pub_from_rp cd content) ids)

  unfoldable pub on_face_shutdown : ℕ → Router → Router
  on_face_shutdown face_id router = record {
    st = St.remove_face face_id router.st;
    fib = Fib.remove_face face_id router.fib;
    faces = FaceManager.remove face_id router.faces;
  }
