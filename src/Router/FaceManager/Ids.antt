-- ===== src/Router/FaceManager/Ids.antt =====
-- Ids of faces are never given twice, as long as the 64-bit counter does not wrap.
use f_copss.Prelude.OrderedSet
use f_copss.Prelude.OrderedSet.{IsAscending}
use f_copss.Prelude.{
  refl, ℕ, ◌+◌, ◌≤◌, ◌<◌, ◌≡◌, ◌^◌, List, [], ◌∷◌, none, some, ◌==◌, if◌then◌else◌, arith,
}
use f_copss.Router.FaceManager.{
  next_serial, Face, Endpoints, FaceManager, create_face, remove, find, face_id,
}

-- No face has an id above the serial number.
abbrev pub IsBelow : ℕ → List Face → Type 0
IsBelow n [] = Unit
IsBelow n (face ∷ faces) = (face.id ≤ n) × IsBelow n faces

pub record IsWellFormed (manager : FaceManager) : Type 0 where
  pub ascending : IsAscending face_id manager.face_table
  pub below : IsBelow manager.face_serial manager.face_table

IsBelow-find :
    (n k : ℕ) (faces : List Face) → IsBelow n faces → n < k → OrderedSet.find face_id k faces ≡ none
unfolding OrderedSet.find
IsBelow-find n k [] b l = refl
IsBelow-find n k (face ∷ faces) b l = ground (arith, IsBelow-find n k faces)

IsBelow-mono : (m n : ℕ) (faces : List Face) → m ≤ n → IsBelow m faces → IsBelow n faces
IsBelow-mono m n [] l b = tt
IsBelow-mono m n (face ∷ faces) l b = (omega arith, IsBelow-mono m n faces l b.1)

IsBelow-insert :
    (n : ℕ) (face : Face) (faces : List Face)
    → face.id ≤ n
    → IsBelow n faces
    → IsBelow n (OrderedSet.insert face_id face faces)
unfolding OrderedSet.insert
IsBelow-insert n face [] l b = (l, tt)
IsBelow-insert n face (x ∷ faces) l b = ground (arith, IsBelow-insert n face faces)

IsBelow-erase :
    (n k : ℕ) (faces : List Face) → IsBelow n faces → IsBelow n (OrderedSet.erase face_id k faces)
unfolding OrderedSet.erase
IsBelow-erase n k [] b = tt
IsBelow-erase n k (x ∷ faces) b = ground (arith, IsBelow-erase n k faces)

-- What `createFace` does: the new face has an id that no face had, it is found under it, and every
-- other face is found as before.
pub record IsFreshFace (manager : FaceManager) (endpoints : Endpoints) (made : FaceManager × Face)
    : Type 0 where
  pub well_formed : IsWellFormed made.0
  pub serial : made.0.face_serial ≡ made.1.id
  pub unused : find made.1.id manager ≡ none
  pub keeps_endpoints : made.1.endpoints ≡ endpoints
  pub finds : (k : ℕ) → find k made.0 ≡ (if made.1.id == k then some made.1 else find k manager)

-- As long as the 64-bit serial number has not reached its last value, `createFace` makes a face
-- with a fresh id.
pub create_face-IsFreshFace :
    (endpoints : Endpoints) (manager : FaceManager)
    → IsWellFormed manager
    → manager.face_serial + 1 < 2 ^ 64
    → IsFreshFace manager endpoints (create_face endpoints manager)
unfolding create_face find
create_face-IsFreshFace endpoints manager w l = record {
  well_formed = record {
    ascending = OrderedSet.insert-IsAscending face_id face _ (
        OrderedSet.erase-IsAscending face_id (next_serial manager.face_serial) manager.face_table
          w.ascending);
    below = IsBelow-insert (next_serial manager.face_serial) face _ (omega arith) (
        IsBelow-erase (next_serial manager.face_serial) (next_serial manager.face_serial)
          manager.face_table
          (IsBelow-mono manager.face_serial (next_serial manager.face_serial) manager.face_table
            (omega arith) w.below));
  };
  serial = refl;
  unused = IsBelow-find manager.face_serial _ manager.face_table w.below (omega arith);
  keeps_endpoints = refl;
  finds = λ k. OrderedSet.find-insert-erase face_id face k manager.face_table w.ascending;
}
  where
    face : Face
    face = record { id = next_serial manager.face_serial; endpoints = endpoints }

pub remove-IsWellFormed :
    (id : ℕ) (manager : FaceManager) → IsWellFormed manager → IsWellFormed (remove id manager)
unfolding remove
remove-IsWellFormed id manager w = record {
  ascending = OrderedSet.erase-IsAscending face_id id manager.face_table w.ascending;
  below = IsBelow-erase manager.face_serial id manager.face_table w.below;
}

pub find-remove :
    (id k : ℕ) (manager : FaceManager)
    → IsWellFormed manager
    → find k (remove id manager) ≡ (if id == k then none else find k manager)
unfolding remove find
find-remove id k manager w = OrderedSet.find-erase face_id id k manager.face_table w.ascending
