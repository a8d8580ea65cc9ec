-- ===== src/Router/Run/Sound.antt =====
-- What holds of a router at all times: its tables are well formed and refer only to faces that are
-- there.
use f_copss.Router.St.Faces.{IsMatchableTable}
use f_copss.Cd.Equality.{equals}
use f_copss.Router.Table.Update.{IsUpdate}
use f_copss.Router.Table.Lookup.{lookup}
use f_copss.Router.FaceManager
use f_copss.Router.FaceManager.Ids
use f_copss.Router.St
use f_copss.Router.Fib
use f_copss.Router.Table.Invariant.{IsWellFormed}
use f_copss.Cd.{Cd}
use f_copss.Router.Table.{Table}
use f_copss.Router.St.{St}
use f_copss.Router.Fib.{Fib}
use f_copss.Router.FaceManager.{Face, FaceManager, Endpoints}
use f_copss.Router.Forwarder.{Router}
use f_copss.Ndn.{Ndn}
use f_copss.Prelude.{
  ap, inr, arith, inl, Bool-cases, refl, true, ◌==◌, ◌&&◌, ◌∙◌, false, sym, some, ◌^◌, ◌≡◌, ◌<◌,
  none, ◌+◌, if◌then◌else◌, ℕ, Option, Bool,
}

-- A hit reads `none`, and nothing else is read there.
reads_other :
    {H : Type 0} (b : Bool) (old : Option H) (h : H)
    → (if b then none else old) ≡ some h
    → (b ≡ false) × (old ≡ some h)
reads_other true old h e = absurd cc
reads_other false old h e = (refl, e)

module _ ⦃ndn : Ndn⦄ {H : Type 0} (hop_face : H → ℕ) where
  -- Every entry of the table is for a face that is there.
  abbrev pub IsLive : FaceManager → Table H → Type 0
  IsLive faces t =
      (c : Cd) (k : ℕ) (h : H)
      → lookup hop_face c k t ≡ some h
      → (face : Face) × (FaceManager.find k faces ≡ some face)

  pub IsLive-removal :
      (faces : FaceManager) (t t' : Table H) (hit : Cd → ℕ → Bool)
      → IsUpdate hop_face t hit none t'
      → IsLive faces t
      → IsLive faces t'
  IsLive-removal faces t t' hit u live c k h e =
      live c k h (reads_other (hit c k) (lookup hop_face c k t) h (sym (u.reads c k) ∙ e)).1

  -- An entry for a face that is there is added.
  pub IsLive-addition :
      (faces : FaceManager) (t t' : Table H) (cd : Cd) (id : ℕ) (new : H) (face : Face)
      → IsUpdate hop_face t (λ c k. equals cd c && id == k) (some new) t'
      → FaceManager.find id faces ≡ some face
      → IsLive faces t
      → IsLive faces t'
  IsLive-addition faces t t' cd id new face u there live c k h e =
      elim (Bool-cases (equals cd c && id == k)) [
        | inl hit ↦
            let same : id ≡ k = ground arith in
            (face, ap (λ x. FaceManager.find x faces) (sym same) ∙ there)
        | inr other ↦ let read = u.reads c k in live c k h (sym (rw other at read) ∙ e)
      ]

  -- The faces become more.
  pub IsLive-faces :
      (faces faces' : FaceManager) (t : Table H)
      → ((k : ℕ) (face : Face)
          → FaceManager.find k faces ≡ some face
          → (face' : Face) × (FaceManager.find k faces' ≡ some face'))
      → IsLive faces t
      → IsLive faces' t
  IsLive-faces faces faces' t more live c k h e =
      let (face, there) = live c k h e in more k face there

  -- A face goes, and no entry is for it.
  pub IsLive-shutdown :
      (faces : FaceManager) (t t' : Table H) (id : ℕ)
      → Ids.IsWellFormed faces
      → IsUpdate hop_face t (λ c k. id == k) none t'
      → IsLive faces t
      → IsLive (FaceManager.remove id faces) t'
  IsLive-shutdown faces t t' id w u live c k h e =
      let (other, before) =
        reads_other (id == k) (lookup hop_face c k t) h (sym (u.reads c k) ∙ e) in
      let (face, there) = live c k h before in (face, Ids.find-remove id k faces w ∙ rw other there)

module _ ⦃ndn : Ndn⦄ where
  pub record IsSound (r : Router) : Type 0 where
    pub routes : IsWellFormed Fib.hop_face r.fib
    pub subscriptions : IsWellFormed St.hop_face r.st.entries
    pub matchable : IsMatchableTable r.st.entries
    pub faces : Ids.IsWellFormed r.faces
    pub routes_live : IsLive Fib.hop_face r.faces r.fib
    pub subscriptions_live : IsLive St.hop_face r.faces r.st.entries

  pub created-IsSound :
      (endpoints : Endpoints) (r : Router)
      → r.faces.face_serial + 1 < 2 ^ 64
      → IsSound r
      → IsSound (record r { faces = (FaceManager.create_face endpoints r.faces).0 })
  created-IsSound endpoints r l s =
      let made = FaceManager.create_face endpoints r.faces in
      let fresh = Ids.create_face-IsFreshFace endpoints r.faces s.faces l in
      let more : (k : ℕ) (face : Face)
          → FaceManager.find k r.faces ≡ some face
          → (face' : Face) × (FaceManager.find k made.0 ≡ some face') =
        λ k face there. elim (Bool-cases (made.1.id == k)) [
          | inl new ↦ (made.1, fresh.finds k ∙ rw new refl)
          | inr old ↦ (face, fresh.finds k ∙ rw old there)
        ] in
      record {
        routes = s.routes;
        subscriptions = s.subscriptions;
        matchable = s.matchable;
        faces = fresh.well_formed;
        routes_live = IsLive-faces Fib.hop_face r.faces made.0 r.fib more s.routes_live;
        subscriptions_live =
            IsLive-faces St.hop_face r.faces made.0 r.st.entries more s.subscriptions_live;
      }

  -- Routes are taken away.
  pub pruned-IsSound :
      (r : Router) (fib : Fib) (hit : Cd → ℕ → Bool)
      → IsUpdate Fib.hop_face r.fib hit none fib
      → IsSound r
      → IsSound (record r { fib = fib })
  pruned-IsSound r fib hit u s = record {
    routes = u.well_formed;
    subscriptions = s.subscriptions;
    matchable = s.matchable;
    faces = s.faces;
    routes_live = IsLive-removal Fib.hop_face r.faces r.fib fib hit u s.routes_live;
    subscriptions_live = s.subscriptions_live;
  }

  -- Subscriptions are taken away.
  pub unsubscribed-IsSound :
      (r : Router) (st : St) (hit : Cd → ℕ → Bool)
      → IsUpdate St.hop_face r.st.entries hit none st.entries
      → IsMatchableTable st.entries
      → IsSound r
      → IsSound (record r { st = st })
  unsubscribed-IsSound r st hit u m s = record {
    routes = s.routes;
    subscriptions = u.well_formed;
    matchable = m;
    faces = s.faces;
    routes_live = s.routes_live;
    subscriptions_live =
        IsLive-removal St.hop_face r.faces r.st.entries st.entries hit u s.subscriptions_live;
  }
