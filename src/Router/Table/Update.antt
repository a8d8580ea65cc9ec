-- ===== src/Router/Table/Update.antt =====
-- The effect of an operation on a table, as a change of the map that the table stands for.
use f_copss.Prelude.{refl, if◌then◌else◌, [], ◌≡◌, true, some, Option, none, ◌==◌, ◌&&◌}
use f_copss.Cd.Equality.{equals}
use f_copss.Router.Table.Invariant.{
  IsWellFormed, add-IsWellFormed, remove_hop-IsWellFormed, remove_face-IsWellFormed,
  remove_cd-IsWellFormed,
}
use f_copss.Router.Table.Lookup.{
  lookup, lookup-add, lookup-remove_hop, lookup-remove_face, lookup-remove_cd,
}
use f_copss.Router.Table.{Bool, Cd, Table, ℕ, Ndn, add, remove_hop, remove_face, remove_cd}

module _ ⦃ndn : Ndn⦄ {H : Type 0} (face_id : H → ℕ) where
  -- The new table is well formed; at the places that are hit it holds `new`, and elsewhere it is as
  -- the old one.
  pub record IsUpdate (t : Table H) (hit : Cd → ℕ → Bool) (new : Option H) (t' : Table H)
      : Type 0 where
    pub well_formed : IsWellFormed face_id t'
    pub reads :
        (c : Cd) (k : ℕ) → lookup face_id c k t' ≡ (if hit c k then new else lookup face_id c k t)

  module _ (t : Table H) (w : IsWellFormed face_id t) where
    pub add-IsUpdate :
        (cd : Cd) (h : H)
        → IsUpdate t (λ c k. equals cd c && face_id h == k) (some h) (add face_id cd h t)
    add-IsUpdate cd h = record {
      well_formed = add-IsWellFormed face_id cd h t w;
      reads = λ c k. lookup-add face_id c cd k h t w;
    }

    pub remove_hop-IsUpdate :
        (cd : Cd) (id : ℕ)
        → IsUpdate t (λ c k. equals cd c && id == k) none (remove_hop face_id cd id t)
    remove_hop-IsUpdate cd id = record {
      well_formed = remove_hop-IsWellFormed face_id cd id t w;
      reads = λ c k. lookup-remove_hop face_id c cd k id t w;
    }

    pub remove_face-IsUpdate :
        (id : ℕ) → IsUpdate t (λ c k. id == k) none (remove_face face_id id t)
    remove_face-IsUpdate id = record {
      well_formed = remove_face-IsWellFormed face_id id t w;
      reads = λ c k. lookup-remove_face face_id c k id t w;
    }

    pub remove_cd-IsUpdate : (cd : Cd) → IsUpdate t (λ c k. equals cd c) none (remove_cd cd t)
    remove_cd-IsUpdate cd = record {
      well_formed = remove_cd-IsWellFormed face_id cd t w;
      reads = λ c k. lookup-remove_cd face_id c cd k t w;
    }

    pub clear-IsUpdate : IsUpdate t (λ c k. true) none []
    unfolding lookup
    clear-IsUpdate = record { well_formed = tt; reads = λ c k. refl }
