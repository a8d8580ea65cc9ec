-- ===== src/Router/Run/Reach.antt =====
-- Every router that a run can lead to is sound, and what that means for its subscribers.
use f_copss.Router.Run.Commands.{fib_del-IsSound, handle_connect-IsSound, fib_add-IsSound}
use f_copss.Router.St.Subscribers.{IsSubscriber}
use f_copss.Router.Forwarder.Targets.{target}
use f_copss.Router.Table.Lookup.{lookup}
use f_copss.Router.Run.{
  subscriptions_deleted, routes_deleted, route_connected, route_added, connected, shut_down,
  expired, distributed, published, started, after, Reachable, subscribed, Step, IsExpected,
  IsExpectedRun,
}
use f_copss.Router.Forwarder.Delivery.{
  on_sub_received-IsUnicast, on_pub_from_rp_received-IsMulticast, on_pub_to_rp_received-IsUnicast,
}
use f_copss.Router.CmdServer.Platform.{Host}
use f_copss.Boost.{Boost}
use f_copss.Prelude.Outcome.{value}
use f_copss.Cd.Equality.{equals}
use f_copss.Router.St.Faces.{IsMatchableTable}
use f_copss.Router.Matching.Totality.{IsMatchable}
use f_copss.Router.Run.Sound.{
  created-IsSound, IsLive-addition, IsLive-shutdown, unsubscribed-IsSound, IsSound,
}
use f_copss.Router.FaceManager.{Face}
use f_copss.Router.Table.{Table}
use f_copss.Router.Forwarder.{pub_from_rp, Send, Router}
use f_copss.Prelude.{
  ◌↔◌, subst, ◌∙◌, sym, ap, Option, Bytes, inr, inl, false, Bool-cases, true, [], some, ◌∷◌, ◌≡◌,
  Bool, List,
}
use Prim.Native.Nat.{ℕ}
use f_copss.Ndn.{Ndn}
use f_copss.Cd.{Cd}
use f_copss.Router.FaceManager
use f_copss.Router.FaceManager.Ids
use f_copss.Router.St
use f_copss.Router.Fib
use f_copss.Router.Table
use f_copss.Router.Forwarder
use f_copss.Prelude.OrderedSet
use f_copss.Router.Forwarder.Subscription.{add-IsMatchableTable}

value-injective {ℓ} : {A : Type ℓ} (a b : A) → value a ≡ value b → a ≡ b
value-injective a b e = cc

keep_if_used-IsMatchableTable :
    (cd : Cd) (hops : List St.NextHop) (t : Table St.NextHop)
    → IsMatchable cd.elements
    → IsMatchableTable t
    → IsMatchableTable (Table.keep_if_used cd hops t)
unfolding Table.keep_if_used
keep_if_used-IsMatchableTable cd [] t m ms = ms
keep_if_used-IsMatchableTable cd (h ∷ hops) t m ms = (m, ms)

module _ ⦃ndn : Ndn⦄ where
  remove_hop-IsMatchableTable :
      (cd : Cd) (id : ℕ) (t : Table St.NextHop)
      → IsMatchableTable t
      → IsMatchableTable (Table.remove_hop St.hop_face cd id t)
  unfolding Table.remove_hop
  remove_hop-IsMatchableTable cd id [] m = tt
  remove_hop-IsMatchableTable cd id (e ∷ t) m = elim (Bool-cases (equals e.cd cd)) [
    | inl same ↦
        rw (same, Table.remove_hop)
          (keep_if_used-IsMatchableTable e.cd (OrderedSet.erase St.hop_face id e.next_hops) t m.0
            m.1)
    | inr other ↦ rw (other, Table.remove_hop) (m.0, remove_hop-IsMatchableTable cd id t m.1)
  ]

  remove_face-IsMatchableTable :
      (id : ℕ) (t : Table St.NextHop)
      → IsMatchableTable t
      → IsMatchableTable (Table.remove_face St.hop_face id t)
  unfolding Table.remove_face
  remove_face-IsMatchableTable id [] m = tt
  remove_face-IsMatchableTable id (e ∷ t) m =
      keep_if_used-IsMatchableTable e.cd (OrderedSet.erase St.hop_face id e.next_hops) _ m.0
        (remove_face-IsMatchableTable id t m.1)

  subscribed-IsSound :
      (r : Router) (now id : ℕ) (cd : Cd) (face : Face)
      → FaceManager.find id r.faces ≡ some face
      → IsMatchable cd.elements
      → IsSound r
      → IsSound (record r { st = (St.add now cd id r.st).0 })
  unfolding St.add
  subscribed-IsSound r now id cd face there m s =
      let (_, _, u) = St.Effects.add-IsUpdate r.st s.subscriptions now cd id in
      record {
        routes = s.routes;
        subscriptions = u.well_formed;
        matchable = add-IsMatchableTable cd _ r.st.entries m s.matchable;
        faces = s.faces;
        routes_live = s.routes_live;
        subscriptions_live =
            IsLive-addition St.hop_face r.faces r.st.entries (St.add now cd id r.st).0.entries cd id
              _ face u there s.subscriptions_live;
      }

  expired-IsSound :
      (r : Router) (cd : Cd) (id : ℕ) (error : Bool)
      → IsSound r
      → IsSound (record r { st = St.on_expired cd id error r.st })
  unfolding St.on_expired St.remove_hop
  expired-IsSound r cd id true s = s
  expired-IsSound r cd id false s =
      unsubscribed-IsSound r (St.remove_hop cd id r.st) _
        (St.Effects.remove-IsUpdate r.st s.subscriptions cd id).0
        (remove_hop-IsMatchableTable cd id r.st.entries s.matchable) s

  shut_down-IsSound : (r : Router) (id : ℕ) → IsSound r → IsSound (Forwarder.on_face_shutdown id r)
  unfolding Forwarder.on_face_shutdown St.remove_face Fib.remove_face
  shut_down-IsSound r id s =
      let u = Table.Update.remove_face-IsUpdate Fib.hop_face r.fib s.routes id in
      let v = Table.Update.remove_face-IsUpdate St.hop_face r.st.entries s.subscriptions id in
      record {
        routes = u.well_formed;
        subscriptions = v.well_formed;
        matchable = remove_face-IsMatchableTable id r.st.entries s.matchable;
        faces = Ids.remove-IsWellFormed id r.faces s.faces;
        routes_live = IsLive-shutdown Fib.hop_face r.faces r.fib _ id s.faces u s.routes_live;
        subscriptions_live =
            IsLive-shutdown St.hop_face r.faces r.st.entries _ id s.faces v s.subscriptions_live;
      }

  cleared-IsSound : (r : Router) → IsSound r → IsSound (record r { st = St.clear r.st })
  unfolding St.clear
  cleared-IsSound r s =
      unsubscribed-IsSound r (St.clear r.st) _
        (St.Effects.remove-IsUpdate r.st s.subscriptions (record { elements = [] }) 0).3 tt s

  -- What a handler of publications returns is the router that it was given.
  published-same :
      (r r' : Router) (id : ℕ) (cd : Cd) (content : Bytes) (sends : List Send)
      → Forwarder.on_pub_to_rp_received id cd content r ≡ value (r', sends)
      → IsSound r
      → r ≡ r'
  published-same r r' id cd content sends e s =
      let (sends', known, _) = on_pub_to_rp_received-IsUnicast r id cd content s.routes in
      ap (λ x. x.0) (value-injective (r, sends') (r', sends) (sym known ∙ e))

  distributed-same :
      (r r' : Router) (id : ℕ) (cd : Cd) (content : Bytes) (sends : List Send)
      → Forwarder.on_pub_from_rp_received id cd content r ≡ value (r', sends)
      → IsSound r
      → r ≡ r'
  distributed-same r r' id cd content sends e s =
      let (sends', known, _) =
        on_pub_from_rp_received-IsMulticast r id cd content s.subscriptions s.matchable in
      ap (λ x. x.0) (value-injective (r, sends') (r', sends) (sym known ∙ e))

module _ ⦃boost : Boost⦄ ⦃ndn : Ndn⦄ ⦃host : Host⦄ where
  -- Each thing that can happen keeps the router sound.
  Step-IsSound : (r r' : Router) (step : Step r r') → IsExpected r r' step → IsSound r → IsSound r'
  Step-IsSound r r' (subscribed now id cd sends e) ((face, there), m) s =
      let (sends', known, _) = on_sub_received-IsUnicast r now id cd s.routes in
      let same =
        ap (λ x. x.0)
          (value-injective (record r { st = (St.add now cd id r.st).0 }, sends') (r', sends)
            (sym known ∙ e)) in
      subst IsSound same (subscribed-IsSound r now id cd face there m s)
  Step-IsSound r r' (published id cd content sends e) _ s =
      subst IsSound (published-same r r' id cd content sends e s) s
  Step-IsSound r r' (distributed id cd content sends e) _ s =
      subst IsSound (distributed-same r r' id cd content sends e s) s
  Step-IsSound r r' (expired cd id error e) _ s =
      subst IsSound (sym e) (expired-IsSound r cd id error s)
  Step-IsSound r r' (shut_down id e) _ s = subst IsSound (sym e) (shut_down-IsSound r id s)
  Step-IsSound r r' (connected endpoints e) l s =
      subst IsSound (sym e) (created-IsSound endpoints r l s)
  Step-IsSound r r' (route_added arg done e f) l s =
      subst IsSound (sym f) (fib_add-IsSound arg r done l e s)
  Step-IsSound r r' (route_connected name ip port cost endpoints done e f) l s =
      subst IsSound (sym f) (handle_connect-IsSound name ip port cost endpoints r done l e s)
  Step-IsSound r r' (routes_deleted arg e) _ s = subst IsSound (sym e) (fib_del-IsSound r arg s)
  Step-IsSound r r' (subscriptions_deleted e) _ s = subst IsSound (sym e) (cleared-IsSound r s)

  -- Take a run of packets, timers, connections, shutdowns and commands, in whatever order, in which each
  -- `Sub` came over a face that was there, for a descriptor with elements of the three known types and
  -- a component behind each option, and in which the 64-bit counter of faces was not used up. The
  -- tables of the router that it leads to are well formed, and each route and each subscription is for
  -- a face that is there.
  pub Reachable-IsSound :
      (expire_time : Option ℕ) (r : Router) (run : Reachable expire_time r)
      → IsExpectedRun expire_time r run
      → IsSound r
  unfolding lookup IsExpectedRun
  Reachable-IsSound expire_time _ started _ = record {
    routes = tt;
    subscriptions = tt;
    matchable = tt;
    faces = record { ascending = tt; below = tt };
    routes_live = λ c k h e. absurd cc;
    subscriptions_live = λ c k h e. absurd cc;
  }
  Reachable-IsSound expire_time _ (after r r' before step) (expected, now) =
      Step-IsSound r r' step now (Reachable-IsSound expire_time r before expected)

  -- In a router that such a run has led to, a publication from the rendezvous point is sent exactly once
  -- to every face with a subscription that matches it, and to no other; no such face is missing. Such
  -- a run is one in which each `Sub` came over a face that was there, for a descriptor with elements of
  -- the three known types and a component behind each option, and in which the 64-bit counter of faces
  -- was not used up.
  pub Reachable-delivers :
      (expire_time : Option ℕ) (r : Router) (id : ℕ) (cd : Cd) (content : Bytes)
      (run : Reachable expire_time r)
      → IsExpectedRun expire_time r run
      → (sends : List Send) × (Forwarder.on_pub_from_rp_received id cd content r ≡ value (r, sends))
        × OrderedSet.IsAscending target sends
        × ((k : ℕ)
            → IsSubscriber r.st.entries cd k ↔ (
                OrderedSet.find target k sends
                ≡ some (record { to = k; packet = pub_from_rp cd content })))
  Reachable-delivers expire_time r id cd content run expected =
      let s = Reachable-IsSound expire_time r run expected in
      let (sends, known, m) =
        on_pub_from_rp_received-IsMulticast r id cd content s.subscriptions s.matchable in
      (
        sends,
        known,
        m.ascending,
        λ k. (
          λ (c, h, e, match).
              let (face, there) = s.subscriptions_live c k h e in
              m.sent k face (c, h, e, match) there,
          λ e. (m.only k _ e).0,
        ),
      )
