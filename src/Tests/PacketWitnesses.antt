-- ===== src/Tests/PacketWitnesses.antt =====
-- A publication that is encoded, given another descriptor and encoded again; and one that goes to the
-- rendezvous point and back.
use f_copss.Prelude.{List, ◌∷◌, refl, [], ◌≡◌, some}
use f_copss.Cd.{Cd}
use f_copss.Ndn.Tlv.{cd}
use f_copss.Ndn.Tlv
use f_copss.Cd.Equality.{is_prefix_of}
use f_copss.Tests.Instances.{ndn_model}
use f_copss.Prelude.Outcome.{value}
use f_copss.Prelude.{bytes_eq}
use f_copss.Prelude.OrderedSet
use f_copss.Router.FaceManager
use f_copss.Router.Fib
use f_copss.Rendezvous.Echo
use f_copss.Rendezvous.Network.{publish_through}
use f_copss.Router.Forwarder.Delivery
use f_copss.Router.Forwarder.{pub_from_rp, Send}
use f_copss.Router.St.Subscribers.{IsSubscriber}
use f_copss.Tests.Samples.{
  router, faces, rendezvous_face, subscriber_face, st-IsWellFormed, tennis-IsMatchable,
}
use f_copss.Prelude.Text.{codes}
use f_copss.Packets.Pub.{Pub, of_cd, set_cd, encoded, empty_content}
use f_copss.Packets.Pub.Coherent
use f_copss.Router.Forwarder.{pub_to_rp}
use f_copss.Tests.Samples.{match_point_cd}
use f_copss.Tests.EncodingInstance.{encoding_model}

abbrev first_cd : Cd
first_cd = record { elements = [] }

abbrev first_sent : Pub
first_sent = record {
  cd = first_cd;
  content = some empty_content;
  wire = some (encoded Tlv.pub_to_rp (of_cd first_cd));
}

abbrev changed : Pub
changed = set_cd match_point_cd first_sent

-- The router's face 101 leads to the rendezvous point, for which the router is the face 102.
goes_up : Fib.match match_point_cd router.fib ≡ value (101 ∷ [])
unfolding Fib.match bytes_eq is_prefix_of
goes_up = refl

publish_through-IsMulticast_example :
    (sends : List Send) × (publish_through 5 102 101 102 match_point_cd (codes "hi") router faces
      ≡ value ((router, faces), sends))
    × Delivery.IsMulticast router
        (pub_from_rp match_point_cd (codes "hi"))
        (IsSubscriber router.st.entries match_point_cd)
        sends
publish_through-IsMulticast_example =
    Echo.publish_through-IsMulticast 5 102 101 102 match_point_cd (codes "hi") router faces
      rendezvous_face subscriber_face goes_up (unfold FaceManager.find OrderedSet.find in refl)
      (unfold FaceManager.find OrderedSet.find in refl) st-IsWellFormed (tennis-IsMatchable, tt)
