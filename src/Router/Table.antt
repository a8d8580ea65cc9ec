-- ===== src/Router/Table.antt =====
-- The list of entries that `Fib` and `StImpl` keep: each entry has a content descriptor and a
-- `std::set` of next hops ordered by face id. The two classes have the same code for it
-- (src/router/st-impl.cpp, src/router/fib.cpp), so it is modelled once, for any kind of next hop.
pub mod Invariant
pub mod Lookup
pub mod Members
pub mod Update
use f_copss.Cd.{Cd}
use f_copss.Cd.Equality.{equals}
use f_copss.Ndn.{Ndn}
use f_copss.Prelude.OrderedSet.{insert, erase, find}
use f_copss.Prelude.{ℕ, Bool, List, [], ◌∷◌, Option, if◌then◌else◌}

pub record Entry (H : Type 0) : Type 0 where
  pub cd : Cd
  pub next_hops : List H

abbrev pub Table : Type 0 → Type 0
Table H = List (Entry H)

module _ {H : Type 0} where
  -- The entry is erased if it has lost its last next hop.
  unfoldable pub keep_if_used : Cd → List H → Table H → Table H
  keep_if_used cd [] entries = entries
  keep_if_used cd (h ∷ hops) entries = record { cd = cd; next_hops = h ∷ hops } ∷ entries

module _ ⦃ndn : Ndn⦄ {H : Type 0} (face_id : H → ℕ) where
  unfoldable pub add : Cd → H → Table H → Table H
  add cd hop [] = record { cd = cd; next_hops = insert face_id hop [] } ∷ []
  add cd hop (e ∷ entries) =
      if equals e.cd cd
      then record e { next_hops = insert face_id hop (erase face_id (face_id hop) e.next_hops) }
        ∷ entries
      else e ∷ add cd hop entries

  unfoldable pub remove_hop : Cd → ℕ → Table H → Table H
  unfolding keep_if_used
  remove_hop cd id [] = []
  remove_hop cd id (e ∷ entries) =
      if equals e.cd cd
      then keep_if_used e.cd (erase face_id id e.next_hops) entries
      else e ∷ remove_hop cd id entries

  unfoldable pub remove_face : ℕ → Table H → Table H
  unfolding keep_if_used
  remove_face id [] = []
  remove_face id (e ∷ entries) =
      keep_if_used e.cd (erase face_id id e.next_hops) (remove_face id entries)

module _ ⦃ndn : Ndn⦄ {H : Type 0} where
  unfoldable pub remove_cd : Cd → Table H → Table H
  remove_cd cd [] = []
  remove_cd cd (e ∷ entries) = if equals e.cd cd then entries else e ∷ remove_cd cd entries

  -- The next hops of a descriptor.
  unfoldable pub hops_of : Cd → Table H → List H
  hops_of cd [] = []
  hops_of cd (e ∷ entries) = if equals e.cd cd then e.next_hops else hops_of cd entries
