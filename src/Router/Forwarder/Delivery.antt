-- ===== src/Router/Forwarder/Delivery.antt =====
-- To whom the handlers of packets send.
use f_copss.Prelude.OrderedSet.{find}
use f_copss.Router.St.Subscribers.{match-IsSubscribers, IsSubscriber}
use f_copss.Router.St.Faces.{IsMatchableTable}
use f_copss.Prelude.{inr, Option-cases, ◌∷◌, refl, inl, ◌⊎◌, some, none, [], ◌≡◌}
use f_copss.Router.FaceManager.{Face, FaceManager}
use f_copss.Prelude.OrderedSet
use f_copss.Router.FaceManager
use f_copss.Router.Fib
use f_copss.Router.St
use f_copss.Router.Fib.Best.{IsBestRoute, HasNoRoute, match-IsBestRoute}
use f_copss.Router.Table.Invariant.{IsWellFormed}
use f_copss.Router.Forwarder.{
  value, Bytes, List, Cd, ℕ, Ndn, Router, Send, Packet, sub, pub_to_rp, pub_from_rp,
  on_sub_received, on_pub_to_rp_received, on_pub_from_rp_received, send_to,
}
use f_copss.Router.Forwarder.Targets.{find-id, target, send_to-IsSentTo}

module _ ⦃ndn : Ndn⦄ where
  -- The packet goes once to each live face of the class, and to no other.
  pub record IsMulticast (r : Router) (packet : Packet) (Class : ℕ → Type 0) (sends : List Send)
      : Type 0 where
    pub ascending : OrderedSet.IsAscending target sends
    pub sent :
        (k : ℕ) (face : Face)
        → Class k
        → FaceManager.find k r.faces ≡ some face
        → OrderedSet.find target k sends ≡ some (record { to = k; packet = packet })
    pub only :
        (k : ℕ) (s : Send)
        → OrderedSet.find target k sends ≡ some s
        → Class k
          × (s ≡ record { to = k; packet = packet })
          × ((face : Face) × (FaceManager.find k r.faces ≡ some face))

  -- A publication that comes from the rendezvous point is sent on unchanged, once to each live face
  -- that has subscribed to a matching descriptor and to no other, and the router keeps its state.
  pub on_pub_from_rp_received-IsMulticast :
      (r : Router) (face_id : ℕ) (cd : Cd) (content : Bytes)
      → IsWellFormed St.hop_face r.st.entries
      → IsMatchableTable r.st.entries
      → (sends : List Send) × (on_pub_from_rp_received face_id cd content r ≡ value (r, sends))
        × IsMulticast r (pub_from_rp cd content) (IsSubscriber r.st.entries cd) sends
  unfolding on_pub_from_rp_received
  on_pub_from_rp_received-IsMulticast r face_id cd content w m =
      let (ids, found) = match-IsSubscribers r.st cd w m in
      let to = send_to-IsSentTo r.faces (pub_from_rp cd content) ids found.ascending in
      (
        send_to r.faces (pub_from_rp cd content) ids,
        rw (found.returns, on_pub_from_rp_received) refl,
        record {
          ascending = to.ascending;
          sent = λ k face s e. to.sent k face ((found.exactly k).1 s) e;
          only = λ k s e. let (h, eq, face) = to.only k s e in ((found.exactly k).0 h, eq, face);
        },
      )

  -- The packet goes to the face of the best route of `cd`, if it is alive, and to no other.
  abbrev pub IsUnicast : Router → Cd → Packet → List Send → Type 0
  IsUnicast r cd packet sends =
      (HasNoRoute r.fib cd × (sends ≡ []))
      ⊎ ((c : Cd) × (h : Fib.NextHop) × IsBestRoute r.fib cd c h
          × ((FaceManager.find h.face_id r.faces ≡ none) × (sends ≡ [])
              ⊎ ((face : Face) × (FaceManager.find h.face_id r.faces ≡ some face)
                  × (sends ≡ record { to = h.face_id; packet = packet } ∷ []))))

  send_to_one :
      (faces : FaceManager) (packet : Packet) (id : ℕ)
      → (FaceManager.find id faces ≡ none) × (send_to faces packet (id ∷ []) ≡ [])
        ⊎ ((face : Face) × (FaceManager.find id faces ≡ some face)
            × (send_to faces packet (id ∷ []) ≡ record { to = id; packet = packet } ∷ []))
  unfolding send_to
  send_to_one faces packet id = elim (Option-cases (FaceManager.find id faces)) [
    | inl missing ↦ inl (missing, rw (missing, send_to) refl)
    | inr (face, found) ↦
        inr (face, found, rw (found, send_to) (rw (find-id id faces face found) refl))
  ]

  module _ (r : Router) (cd : Cd) (packet : Packet) (w : IsWellFormed Fib.hop_face r.fib) where
    match-IsUnicast :
        (ids : List ℕ) × (Fib.match cd r.fib ≡ value ids)
        × IsUnicast r cd packet (send_to r.faces packet ids)
    unfolding send_to
    match-IsUnicast = elim (match-IsBestRoute r.fib cd w) [
      | inl (e, no_route) ↦ ([], e, inl (no_route, refl))
      | inr (c, h, e, best) ↦
          (h.face_id ∷ [], e, inr (c, h, best, send_to_one r.faces packet h.face_id))
    ]

  -- A publication on its way to the rendezvous point is sent on unchanged to the live face of the
  -- best route of its descriptor, at most once, and the router keeps its state.
  pub on_pub_to_rp_received-IsUnicast :
      (r : Router) (face_id : ℕ) (cd : Cd) (content : Bytes)
      → IsWellFormed Fib.hop_face r.fib
      → (sends : List Send) × (on_pub_to_rp_received face_id cd content r ≡ value (r, sends))
        × IsUnicast r cd (pub_to_rp cd content) sends
  unfolding on_pub_to_rp_received
  on_pub_to_rp_received-IsUnicast r face_id cd content w =
      let (ids, e, u) = match-IsUnicast r cd (pub_to_rp cd content) w in
      (_, rw (e, on_pub_to_rp_received) refl, u)

  -- A subscription is entered in the table for the face that it came from, and is sent on to the
  -- live face of the best route of its descriptor, at most once.
  pub on_sub_received-IsUnicast :
      (r : Router) (now face_id : ℕ) (cd : Cd)
      → IsWellFormed Fib.hop_face r.fib
      → (sends : List Send) × (on_sub_received now face_id cd r
          ≡ value (record r { st = (St.add now cd face_id r.st).0 }, sends))
        × IsUnicast r cd (sub cd) sends
  unfolding on_sub_received St.add
  on_sub_received-IsUnicast r now face_id cd w =
      let (ids, e, u) = match-IsUnicast r cd (sub cd) w in (_, rw (e, on_sub_received) refl, u)
