-- ===== src/Router/Forwarder/Targets.antt =====
-- To whom the loop over face ids sends.
use f_copss.Prelude.{
  ==_lem, ◌==◌, refl, Bool-cases, none, [], arith, inr, inl, Option-cases, ◌∷◌, some, ◌≡◌,
}
use f_copss.Router.FaceManager.{face_id, Face, FaceManager}
use f_copss.Prelude.OrderedSet
use f_copss.Router.FaceManager
use f_copss.Router.St.Faces.{Has}
use f_copss.Router.Forwarder.{List, ℕ, Send, Packet, send_to}

abbrev pub target : Send → ℕ
target s = s.to

-- Each id of the set that has a face is sent the packet once; nothing else is sent.
pub record IsSentTo (faces : FaceManager) (packet : Packet) (ids : List ℕ) (sends : List Send)
    : Type 0 where
  pub ascending : OrderedSet.IsAscending target sends
  pub sent :
      (k : ℕ) (face : Face)
      → Has k ids
      → FaceManager.find k faces ≡ some face
      → OrderedSet.find target k sends ≡ some (record { to = k; packet = packet })
  pub only :
      (k : ℕ) (s : Send)
      → OrderedSet.find target k sends ≡ some s
      → Has k ids
        × (s ≡ record { to = k; packet = packet })
        × ((face : Face) × (FaceManager.find k faces ≡ some face))

pub find-id :
    (k : ℕ) (faces : FaceManager) (face : Face) → FaceManager.find k faces ≡ some face → face.id ≡ k
unfolding FaceManager.find
find-id k faces face e = OrderedSet.find-key face_id k faces.face_table face e

module _ (faces : FaceManager) (packet : Packet) where
  send_to_missing :
      (id : ℕ) (ids : List ℕ)
      → FaceManager.find id faces ≡ none
      → send_to faces packet (id ∷ ids) ≡ send_to faces packet ids
  unfolding send_to
  send_to_missing id ids e = rw (e, send_to) refl

  send_to_found :
      (id : ℕ) (ids : List ℕ) (face : Face)
      → FaceManager.find id faces ≡ some face
      → send_to faces packet (id ∷ ids)
        ≡ record { to = id; packet = packet } ∷ send_to faces packet ids
  unfolding send_to
  send_to_found id ids face e = rw (e, send_to) (rw (find-id id faces face e) refl)

  send_to-Above :
      (j : ℕ) (ids : List ℕ)
      → OrderedSet.Above (λ id. id) j ids
      → OrderedSet.Above target j (send_to faces packet ids)
  send_to-Above j [] a = unfold send_to in tt
  send_to-Above j (id ∷ ids) a = elim (Option-cases (FaceManager.find id faces)) [
    | inl missing ↦ rw (send_to_missing id ids missing) (send_to-Above j ids a.1)
    | inr (face, found) ↦ rw (send_to_found id ids face found) (a.0, send_to-Above j ids a.1)
  ]

  send_to-IsAscending :
      (ids : List ℕ)
      → OrderedSet.IsAscending (λ id. id) ids
      → OrderedSet.IsAscending target (send_to faces packet ids)
  send_to-IsAscending [] a = unfold send_to in tt
  send_to-IsAscending (id ∷ ids) a = elim (Option-cases (FaceManager.find id faces)) [
    | inl missing ↦ rw (send_to_missing id ids missing) (send_to-IsAscending ids a.1)
    | inr (face, found) ↦
        rw (send_to_found id ids face found) (send_to-Above id ids a.0, send_to-IsAscending ids a.1)
  ]

  send_to-sent :
      (ids : List ℕ) (k : ℕ) (face : Face)
      → Has k ids
      → FaceManager.find k faces ≡ some face
      → OrderedSet.find target k (send_to faces packet ids)
        ≡ some (record { to = k; packet = packet })
  unfolding OrderedSet.find
  send_to-sent [] k face h e = cc
  send_to-sent (id ∷ ids) k face h e = elim (Option-cases (FaceManager.find id faces)) [
    | inl missing ↦ rw (send_to_missing id ids missing) (send_to-sent ids k face (ground arith) e)
    | inr (other, found) ↦
        rw (send_to_found id ids other found) (ground (arith, send_to-sent ids k face))
  ]

  abbrev IsTarget : List ℕ → ℕ → Send → Type 0
  IsTarget ids k s =
      Has k ids
      × (s ≡ record { to = k; packet = packet })
      × ((face : Face) × (FaceManager.find k faces ≡ some face))

  IsTarget-later : (id k : ℕ) (ids : List ℕ) (s : Send) → IsTarget ids k s → IsTarget (id ∷ ids) k s
  unfolding OrderedSet.find
  IsTarget-later id k ids s (h, e, f) = (ground arith, e, f)

  send_to-only :
      (ids : List ℕ) (k : ℕ) (s : Send)
      → OrderedSet.find target k (send_to faces packet ids) ≡ some s
      → IsTarget ids k s
  unfolding OrderedSet.find
  send_to-only [] k s e = absurd (unfold send_to in cc)
  send_to-only (id ∷ ids) k s e = elim (Option-cases (FaceManager.find id faces)) [
    | inl missing ↦
        IsTarget-later id k ids s (send_to-only ids k s (rw (send_to_missing id ids missing) at e))
    | inr (other, found) ↦
        let e' = rw (send_to_found id ids other found) at e in
        elim (Bool-cases (id == k)) [
          | inl same ↦ (ground arith, ground arith, (other, rw (← (==_lem id k same)) found))
          | inr differ ↦ IsTarget-later id k ids s (send_to-only ids k s (rw differ at e'))
        ]
  ]

  -- A face that is not in the table is sent nothing.
  pub send_to_dead :
      (ids : List ℕ) (k : ℕ)
      → FaceManager.find k faces ≡ none
      → OrderedSet.find target k (send_to faces packet ids) ≡ none
  unfolding OrderedSet.find
  send_to_dead [] k e = unfold send_to in refl
  send_to_dead (id ∷ ids) k e = elim (Option-cases (FaceManager.find id faces)) [
    | inl missing ↦ rw (send_to_missing id ids missing) (send_to_dead ids k e)
    | inr (other, found) ↦ rw (send_to_found id ids other found) (elim (Bool-cases (id == k)) [
      | inl same ↦ absurd (ground (arith, found, rw (← (==_lem id k same)) at e))
      | inr differ ↦ rw differ (send_to_dead ids k e)
    ])
  ]

  pub send_to-IsSentTo :
      (ids : List ℕ)
      → OrderedSet.IsAscending (λ id. id) ids
      → IsSentTo faces packet ids (send_to faces packet ids)
  send_to-IsSentTo ids a = record {
    ascending = send_to-IsAscending ids a;
    sent = send_to-sent ids;
    only = send_to-only ids;
  }
