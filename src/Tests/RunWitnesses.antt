-- ===== src/Tests/RunWitnesses.antt =====
-- A run of a router: a subscriber connects and subscribes.
use f_copss.Router.St.Subscribers.{IsSubscriber}
use f_copss.Router.Forwarder.Targets.{target}
use f_copss.Prelude.Outcome.{value}
use f_copss.Prelude.Text.{codes}
use f_copss.Prelude.{◌↔◌, ℕ, ◌≡◌, refl, arith, [], List, some}
use f_copss.Router.Forwarder.{pub_from_rp, Send, Router}
use f_copss.Router.FaceManager
use f_copss.Router.St
use f_copss.Prelude.OrderedSet
use f_copss.Router.Run.{IsExpectedRun, Reachable, started, after, connected, subscribed}
use f_copss.Router.Run.Reach
use f_copss.Router.Run.Sound.{IsSound}
use f_copss.Tests.Instances.{ndn_model, boost_model}
use f_copss.Tests.ControlWitnesses.{host_model}
use f_copss.Tests.Samples.{loopback, tennis_cd, tennis-IsMatchable, match_point_cd}
use f_copss.Router.Forwarder

abbrev new_router : Router
new_router = record {
  fib = [];
  st = record { entries = []; expire_time = some 30 };
  faces = FaceManager.init;
}

abbrev with_face : Router
with_face = record new_router {
  faces = (FaceManager.create_face (loopback 40000) new_router.faces).0;
}

abbrev with_subscriber : Router
with_subscriber = record with_face { st = (St.add 5 tennis_cd 101 with_face.st).0 }

two_steps : Reachable (some 30) with_subscriber
unfolding FaceManager.create_face FaceManager.find Forwarder.on_sub_received OrderedSet.find
    OrderedSet.insert OrderedSet.erase St.add f_copss.Router.Fib.match
two_steps =
    after with_face with_subscriber
      (after new_router with_face started (connected (loopback 40000) refl))
      (subscribed 5 101 tennis_cd [] refl)

two_steps-IsExpectedRun : IsExpectedRun (some 30) with_subscriber two_steps
unfolding two_steps IsExpectedRun FaceManager.create_face FaceManager.find OrderedSet.find
    OrderedSet.insert OrderedSet.erase
two_steps-IsExpectedRun = (
  (tt, omega arith),
  (((FaceManager.create_face (loopback 40000) FaceManager.init).1, refl), tennis-IsMatchable),
)

Reachable-IsSound_example : IsSound with_subscriber
Reachable-IsSound_example =
    Reach.Reachable-IsSound (some 30) with_subscriber two_steps two_steps-IsExpectedRun

Reachable-delivers_example :
    (sends : List Send) × (Forwarder.on_pub_from_rp_received 7 match_point_cd
        (codes "hi")
        with_subscriber
      ≡ value (with_subscriber, sends))
    × OrderedSet.IsAscending target sends
    × ((k : ℕ)
        → IsSubscriber with_subscriber.st.entries match_point_cd k ↔ (
            OrderedSet.find target k sends
            ≡ some (record { to = k; packet = pub_from_rp match_point_cd (codes "hi") })))
Reachable-delivers_example =
    Reach.Reachable-delivers (some 30) with_subscriber 7 match_point_cd (codes "hi") two_steps
      two_steps-IsExpectedRun
