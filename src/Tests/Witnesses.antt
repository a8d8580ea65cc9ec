-- ===== src/Tests/Witnesses.antt =====
-- Theorems at the sample network.
use f_copss.Cd.RoundTrip.Words.{optional_uri_plain}
use f_copss.Cd.Printer.{got_non_dot, optional_uri, to_uri, ComponentUri}
use f_copss.Cd.Parser.{of_uri}
use f_copss.Tests.Instances.{ndn_model, boost_model}
use f_copss.Cd.{Cd}
use f_copss.Router.Matching.Meaning.{words_of, accepts}
use f_copss.Prelude.Outcome.{value, out_of_bounds, runs_on}
use f_copss.Cd.Shape.{blocks, Shape, optional, component}
use f_copss.Router.Forwarder.Targets.{target}
use f_copss.Router.Forwarder.{
  pub_to_rp, pub_from_rp, on_sub_received, on_pub_to_rp_received, on_pub_from_rp_received, Send,
  on_face_shutdown, Router,
}
use f_copss.Router.Table.Update.{IsUpdate}
use f_copss.Router.Matching.{is_equal_value, match_loop, match_regex}
use f_copss.Prelude.{
  ok, false, ◌⊎◌, some, none, arith, true, ◌==◌, ℕ, ◌≡◌, bytes_eq, ◌&&◌, List, [], ◌∷◌, refl,
}
use f_copss.Prelude.OrderedSet
use f_copss.Router.FaceManager
use f_copss.Router.FaceManager.Ids
use f_copss.Prelude.Text.{codes}
use f_copss.Router.Fib
use f_copss.Router.Fib.Effects as FibEffects
use f_copss.Router.Fib.Best
use f_copss.Router.St
use f_copss.Router.St.Effects as StEffects
use f_copss.Router.St.Subscribers
use f_copss.Router.Forwarder.Delivery
use f_copss.Router.Forwarder.Subscription
use f_copss.Router.Forwarder.Shutdown
use f_copss.Router.Matching.Totality
use f_copss.Router.Matching.Meaning
use f_copss.Router.Matching.Parsed
use f_copss.Cd.RoundTrip.Parse
use f_copss.Cd.Equality
use f_copss.Tests.Samples.{
  subscriber_face, tennis, match_point_cd, other_point_cd, loopback, tennis_cd, sports_cd, fib, st,
  faces, router, quiet, fib-IsWellFormed, st-IsWellFormed, faces-IsWellFormed, tennis-IsMatchable,
}

-- The example of README.md, run.
tennis_match : match_regex tennis_cd match_point_cd ≡ value true
unfolding match_regex bytes_eq
tennis_match = refl

tennis_no_match : match_regex tennis_cd other_point_cd ≡ value false
unfolding match_regex bytes_eq
tennis_no_match = refl

match_regex-Returns_example : Totality.Returns (match_regex tennis_cd other_point_cd)
match_regex-Returns_example =
    Totality.match_regex-Returns tennis_cd other_point_cd tennis-IsMatchable

match_loop-runs_on_example :
    match_loop 1000 (record { type = 99; value = [] } ∷ []) (component (codes "1") ∷ []) ≡ runs_on
match_loop-runs_on_example =
    Totality.match_loop-runs_on 1000 (record { type = 99; value = [] }) (component (codes "1")) []
      [] (omega arith) (unfold is_equal_value in refl)

match_loop-out_of_bounds_example :
    match_loop 5 (optional (codes "2") ∷ []) (component (codes "1") ∷ []) ≡ out_of_bounds
match_loop-out_of_bounds_example =
    Totality.match_loop-out_of_bounds 4 (optional (codes "2")) (component (codes "1")) [] [] refl
      (unfold is_equal_value bytes_eq in refl) (λ h. h)

match_regex-accepts_example :
    match_regex tennis_cd match_point_cd ≡ value (accepts tennis (words_of match_point_cd.elements))
match_regex-accepts_example = Meaning.match_regex-accepts tennis match_point_cd.elements

match-IsBestRoute_example :
    ((Fib.match sports_cd fib ≡ value []) × Best.HasNoRoute fib sports_cd)
    ⊎ ((c : Cd) × (h : Fib.NextHop) × (Fib.match sports_cd fib ≡ value (h.face_id ∷ []))
        × Best.IsBestRoute fib sports_cd c h)
match-IsBestRoute_example = Best.match-IsBestRoute fib sports_cd fib-IsWellFormed

match-IsSubscribers_example : (ids : List ℕ) × Subscribers.IsSubscribers st match_point_cd ids
match-IsSubscribers_example =
    Subscribers.match-IsSubscribers st match_point_cd st-IsWellFormed (tennis-IsMatchable, tt)

add-IsUpdate_example : (St.add 50 sports_cd 102 st).1 ≡ (true, sports_cd)
add-IsUpdate_example = (StEffects.add-IsUpdate st st-IsWellFormed 50 sports_cd 102).0

remove-IsUpdate_example :
    IsUpdate St.hop_face st.entries
      (λ c k. Equality.equals tennis_cd c && 102 == k)
      none
      (St.remove_hop tennis_cd 102 st).entries
remove-IsUpdate_example = (StEffects.remove-IsUpdate st st-IsWellFormed tennis_cd 102).0

add-Updates_example :
    FibEffects.Updates fib
      (codes "/sports")
      (λ cd c k. Equality.equals cd c && 101 == k)
      (some (record { face_id = 101; cost = 3 }))
      (Fib.add (codes "/sports") 101 3 fib)
add-Updates_example = FibEffects.add-Updates fib fib-IsWellFormed (codes "/sports") 101 3

remove-Updates_example :
    FibEffects.Updates fib
      (codes "/")
      (λ cd c k. Equality.equals cd c && 101 == k)
      none
      (Fib.remove_hop (codes "/") 101 fib)
remove-Updates_example = (FibEffects.remove-Updates fib fib-IsWellFormed (codes "/") 101).0

create_face-IsFreshFace_example :
    Ids.IsFreshFace faces (loopback 50000) (FaceManager.create_face (loopback 50000) faces)
create_face-IsFreshFace_example =
    Ids.create_face-IsFreshFace (loopback 50000) faces faces-IsWellFormed (omega arith)

on_pub_from_rp_received-IsMulticast_example :
    (sends : List Send) × (on_pub_from_rp_received 101 match_point_cd (codes "hi") router
      ≡ value (router, sends))
    × Delivery.IsMulticast router
        (pub_from_rp match_point_cd (codes "hi"))
        (Subscribers.IsSubscriber st.entries match_point_cd)
        sends
on_pub_from_rp_received-IsMulticast_example =
    Delivery.on_pub_from_rp_received-IsMulticast router 101 match_point_cd (codes "hi")
      st-IsWellFormed (tennis-IsMatchable, tt)

on_pub_to_rp_received-IsUnicast_example :
    (sends : List Send) × (on_pub_to_rp_received 102 match_point_cd (codes "hi") router
      ≡ value (router, sends))
    × Delivery.IsUnicast router match_point_cd (pub_to_rp match_point_cd (codes "hi")) sends
on_pub_to_rp_received-IsUnicast_example =
    Delivery.on_pub_to_rp_received-IsUnicast router 102 match_point_cd (codes "hi") fib-IsWellFormed

subscribe-publish_example :
    (r' : Router) × (subs : List Send) × (sends : List Send) × (on_sub_received 50 102 tennis_cd
        quiet
      ≡ value (r', subs))
    × (on_pub_from_rp_received 101 match_point_cd (codes "hi") r' ≡ value (r', sends))
    × (OrderedSet.find target 102 sends
        ≡ some (record { to = 102; packet = pub_from_rp match_point_cd (codes "hi") }))
subscribe-publish_example =
    Subscription.subscribe-publish quiet 50 102 101 tennis_cd match_point_cd (codes "hi")
      subscriber_face fib-IsWellFormed tt tt tennis-IsMatchable tennis_match
      (unfold FaceManager.find OrderedSet.find in refl)

on_face_shutdown-IsForgotten_example : Shutdown.IsForgotten 102 (on_face_shutdown 102 router)
on_face_shutdown-IsForgotten_example =
    (Shutdown.on_face_shutdown-IsForgotten router 102 fib-IsWellFormed st-IsWellFormed
      faces-IsWellFormed).0

tennis_uri : of_uri (codes "/1(/2/3/0)/sports/tennis") ≡ ok tennis_cd
unfolding of_uri
tennis_uri = refl

match_regex-of_uri_example :
    (shape : Shape) × (tennis_cd.elements ≡ blocks shape)
    × ((input : Cd) → match_regex tennis_cd input ≡ value (accepts shape (words_of input.elements)))
match_regex-of_uri_example =
    Parsed.match_regex-of_uri (codes "/1(/2/3/0)/sports/tennis") tennis_cd tennis_uri

-- A component is printed as an option is.
instance abbrev pub uri_model : ComponentUri
uri_model = record { component_uri = optional_uri; component_uri_plain = optional_uri_plain }

of_uri-to_uri_example :
    of_uri (to_uri (record { elements = blocks tennis })) ≡ ok (record { elements = blocks tennis })
of_uri-to_uri_example = Parse.of_uri-to_uri tennis (unfold got_non_dot in ground arith)

tennis_text : to_uri tennis_cd ≡ codes "/1(/2/3/0)/sports/tennis"
unfolding to_uri
tennis_text = refl
