-- ===== src/Router/Forwarder/Shutdown.antt =====
-- What is left of a face that has shut down.
use f_copss.Router.Table.Update.{IsUpdate}
use f_copss.Prelude.{
  refl, ◌∙◌, if◌then◌else◌, arith, Option, inr, inl, ◌⊎◌, false, none, List, ◌≡◌, ◌==◌,
}
use f_copss.Router.Table.Lookup.{lookup}
use f_copss.Prelude.OrderedSet
use f_copss.Router.FaceManager
use f_copss.Prelude.Outcome.{runs_on, out_of_bounds, Outcome, ◌>>=◌}
use f_copss.Router.FaceManager.Ids
use f_copss.Router.St
use f_copss.Router.Fib
use f_copss.Router.Table
use f_copss.Router.Table.Invariant.{IsWellFormed}
use f_copss.Router.Forwarder.{
  pub_from_rp, pub_to_rp, sub, value, Bytes, Cd, ℕ, Ndn, Router, Send, Packet, on_face_shutdown,
  on_sub_received, on_pub_to_rp_received, on_pub_from_rp_received, send_to,
}
use f_copss.Router.Forwarder.Targets.{target, send_to_dead}

module _ ⦃ndn : Ndn⦄ where
  -- Nothing in the router refers to the face.
  pub record IsForgotten (k : ℕ) (r : Router) : Type 0 where
    pub no_route : (c : Cd) → lookup Fib.hop_face c k r.fib ≡ none
    pub no_subscription : (c : Cd) → lookup St.hop_face c k r.st.entries ≡ none
    pub no_face : FaceManager.find k r.faces ≡ none

  -- When a face has shut down no table holds it any more, and for every other face the tables are
  -- as they were.
  pub on_face_shutdown-IsForgotten :
      (r : Router) (k : ℕ)
      → IsWellFormed Fib.hop_face r.fib
      → IsWellFormed St.hop_face r.st.entries
      → Ids.IsWellFormed r.faces
      → IsForgotten k (on_face_shutdown k r)
        × ((c : Cd) (j : ℕ)
            → (k == j) ≡ false
            → (lookup Fib.hop_face c j (on_face_shutdown k r).fib ≡ lookup Fib.hop_face c j r.fib)
              × (lookup St.hop_face c j (on_face_shutdown k r).st.entries
                  ≡ lookup St.hop_face c j r.st.entries)
              × (FaceManager.find j (on_face_shutdown k r).faces ≡ FaceManager.find j r.faces))
  unfolding on_face_shutdown
  on_face_shutdown-IsForgotten r k wf ws wm = (
    record {
      no_route = λ c. fib.reads c k ∙ gone _;
      no_subscription = λ c. st.reads c k ∙ gone _;
      no_face = Ids.find-remove k k r.faces wm ∙ gone _;
    },
    λ c j differ. (
      fib.reads c j ∙ rw differ refl,
      st.reads c j ∙ rw differ refl,
      Ids.find-remove k j r.faces wm ∙ rw differ refl,
    ),
  )
    where
      fib : IsUpdate Fib.hop_face r.fib (λ c j. k == j) none (Fib.remove_face k r.fib)
      fib = unfold Fib.remove_face in Table.Update.remove_face-IsUpdate Fib.hop_face r.fib wf k

      st : IsUpdate St.hop_face r.st.entries (λ c j. k == j) none (St.remove_face k r.st).entries
      st = unfold St.remove_face in Table.Update.remove_face-IsUpdate St.hop_face r.st.entries ws k

      gone : {A : Type 0} (x : Option A) → (if k == k then none else x) ≡ none
      gone x = ground arith

sent_by :
    (o : Outcome (List ℕ)) (q r' : Router) (packet : Packet) (sends : List Send)
    → ◌>>=◌ {B = Router × List Send} o (λ ids. value (q, send_to q.faces packet ids))
      ≡ value (r', sends)
    → (ids : List ℕ) × (send_to q.faces packet ids ≡ sends)
sent_by (value ids) q r' packet sends e = (ids, ground arith)
sent_by out_of_bounds q r' packet sends e = cc
sent_by runs_on q r' packet sends e = cc

module _ ⦃ndn : Ndn⦄ (r r' : Router) (k now from : ℕ) (cd : Cd) (content : Bytes)
    (sends : List Send) where
  -- Some handler of packets, started in `r`, ends in `r'` with these packets.
  abbrev pub Handles : Type 0
  Handles =
      (on_sub_received now from cd r ≡ value (r', sends))
      ⊎ (on_pub_to_rp_received from cd content r ≡ value (r', sends))
      ⊎ (on_pub_from_rp_received from cd content r ≡ value (r', sends))

  -- Whatever packet comes next, nothing is sent to a face that is not in the table of faces.
  pub no_send_to_dead :
      FaceManager.find k r.faces ≡ none → Handles → OrderedSet.find target k sends ≡ none
  unfolding on_sub_received on_pub_to_rp_received on_pub_from_rp_received St.add
  no_send_to_dead e (inl h) =
      let (ids, s) = sent_by (Fib.match cd r.fib) _ r' (sub cd) sends h in
      rw (← s) (send_to_dead r.faces (sub cd) ids k e)
  no_send_to_dead e (inr (inl h)) =
      let (ids, s) = sent_by (Fib.match cd r.fib) r r' (pub_to_rp cd content) sends h in
      rw (← s) (send_to_dead r.faces (pub_to_rp cd content) ids k e)
  no_send_to_dead e (inr (inr h)) =
      let (ids, s) = sent_by (St.match cd r.st) r r' (pub_from_rp cd content) sends h in
      rw (← s) (send_to_dead r.faces (pub_from_rp cd content) ids k e)
