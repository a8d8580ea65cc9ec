-- ===== src/Router/Forwarder/Subscription.antt =====
-- From a subscription to the delivery of a publication.
use f_copss.Router.Table.Lookup.{lookup}
use f_copss.Cd.Equality.{equals_iff, equals}
use f_copss.Prelude.{
  ◌∙◌, arith, ◌==◌, ◌&&◌, if◌then◌else◌, [], List, some, inr, true, inl, ◌≡◌, Bool-cases,
}
use f_copss.Router.Matching.{match_regex}
use f_copss.Router.Matching.Totality.{IsMatchable}
use f_copss.Router.St.Faces.{IsMatchableTable}
use f_copss.Router.Table.{Table}
use f_copss.Router.FaceManager.{Face}
use f_copss.Prelude.OrderedSet
use f_copss.Router.FaceManager
use f_copss.Router.St
use f_copss.Router.Fib
use f_copss.Router.Table
use f_copss.Router.Table.Invariant.{IsWellFormed}
use f_copss.Router.Forwarder.{
  value, ◌∷◌, Bytes, Cd, ℕ, Ndn, Router, Send, pub_from_rp, on_sub_received,
  on_pub_from_rp_received,
}
use f_copss.Router.Forwarder.Delivery.{
  on_pub_from_rp_received-IsMulticast, on_sub_received-IsUnicast,
}
use f_copss.Router.Forwarder.Targets.{target}

module _ ⦃ndn : Ndn⦄ where
  pub add-IsMatchableTable :
      (c : Cd) (h : St.NextHop) (t : Table St.NextHop)
      → IsMatchable c.elements
      → IsMatchableTable t
      → IsMatchableTable (Table.add St.hop_face c h t)
  unfolding Table.add
  add-IsMatchableTable c h [] m ms = (m, tt)
  add-IsMatchableTable c h (e ∷ t) m ms = elim (Bool-cases (equals e.cd c)) [
    | inl same ↦ rw (same, Table.add) (ms.0, ms.1)
    | inr other ↦ rw (other, Table.add) (ms.0, add-IsMatchableTable c h t m ms.1)
  ]

  -- Once a live face has subscribed to `c`, the next publication from the rendezvous point that
  -- `c` matches is delivered to it, and the publication does not change the table.
  pub subscribe-publish :
      (r : Router) (now k from : ℕ) (c cd : Cd) (content : Bytes) (face : Face)
      → IsWellFormed Fib.hop_face r.fib
      → IsWellFormed St.hop_face r.st.entries
      → IsMatchableTable r.st.entries
      → IsMatchable c.elements
      → match_regex c cd ≡ value true
      → FaceManager.find k r.faces ≡ some face
      → (r' : Router) × (subs : List Send) × (sends : List Send) × (on_sub_received now k c r
          ≡ value (r', subs))
        × (on_pub_from_rp_received from cd content r' ≡ value (r', sends))
        × (OrderedSet.find target k sends
            ≡ some (record { to = k; packet = pub_from_rp cd content }))
  subscribe-publish r now k from c cd content face wf ws ms m match live =
      let r' : Router = record r { st = (St.add now c k r.st).0 } in
      let (subs, subscribed, _) = on_sub_received-IsUnicast r now k c wf in
      let (_, _, update) = St.Effects.add-IsUpdate r.st ws now c k in
      let (sends, published, multicast) =
        on_pub_from_rp_received-IsMulticast r' from cd content update.well_formed
          (unfold St.add in add-IsMatchableTable c _ r.st.entries m ms) in
      (
        r',
        subs,
        sends,
        subscribed,
        published,
        multicast.sent k face (c, new, update.reads c k ∙ hit, match) live,
      )
    where
      new : St.NextHop
      new = record { face_id = k; expires_at = St.deadline r.st.expire_time now }

      hit :
          (if equals c c && k == k then some new else lookup St.hop_face c k r.st.entries)
          ≡ some new
      hit = ground (arith, equals_iff c c)
