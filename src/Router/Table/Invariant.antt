-- ===== src/Router/Table/Invariant.antt =====
-- What every operation on a table keeps: no two entries have one descriptor, and the next hops of
-- an entry are a set that is not empty.
use f_copss.Cd.{Cd}
use f_copss.Cd.Equality.{equals, equals_iff}
use f_copss.Ndn.{Ndn}
use f_copss.Prelude.OrderedSet.{insert, erase, IsAscending, insert-IsAscending, erase-IsAscending}
use f_copss.Prelude.{ℕ, false, List, [], ◌∷◌, ◌≡◌, arith}
use f_copss.Router.Table.{Table, keep_if_used, add, remove_hop, remove_face, remove_cd}

abbrev pub IsUsed : {H : Type 0} → List H → Type 0
IsUsed [] = ⊥
IsUsed (h ∷ hops) = Unit

module _ ⦃ndn : Ndn⦄ {H : Type 0} where
  -- No entry has the descriptor.
  abbrev pub IsFresh : Cd → Table H → Type 0
  IsFresh cd [] = Unit
  IsFresh cd (e ∷ entries) = (equals e.cd cd ≡ false) × IsFresh cd entries

module _ ⦃ndn : Ndn⦄ {H : Type 0} (face_id : H → ℕ) where
  abbrev pub IsWellFormed : Table H → Type 0
  IsWellFormed [] = Unit
  IsWellFormed (e ∷ entries) =
      IsUsed e.next_hops
      × IsAscending face_id e.next_hops
      × IsFresh e.cd entries
      × IsWellFormed entries

  insert-IsUsed : (h : H) (hops : List H) → IsUsed (insert face_id h hops)
  unfolding insert
  insert-IsUsed h [] = tt
  insert-IsUsed h (x ∷ hops) = ground arith

  add-IsFresh :
      (c cd : Cd) (h : H) (t : Table H)
      → equals cd c ≡ false
      → IsFresh c t
      → IsFresh c (add face_id cd h t)
  unfolding add
  add-IsFresh c cd h [] n f = (n, tt)
  add-IsFresh c cd h (e ∷ t) n f = ground (arith, add-IsFresh c cd h t)

  pub add-IsWellFormed :
      (cd : Cd) (h : H) (t : Table H) → IsWellFormed t → IsWellFormed (add face_id cd h t)
  unfolding add
  add-IsWellFormed cd h [] w = (insert-IsUsed h [], insert-IsAscending face_id h [] tt, tt, tt)
  add-IsWellFormed cd h (e ∷ t) w = ground (
    arith,
    insert-IsUsed h (erase face_id (face_id h) e.next_hops),
    insert-IsAscending face_id h (erase face_id (face_id h) e.next_hops),
    erase-IsAscending face_id (face_id h) e.next_hops,
    equals_iff e.cd cd,
    equals_iff cd e.cd,
    add-IsFresh e.cd cd h t,
    add-IsWellFormed cd h t,
  )

  keep_if_used-IsFresh :
      (c cd : Cd) (hops : List H) (t : Table H)
      → equals cd c ≡ false
      → IsFresh c t
      → IsFresh c (keep_if_used cd hops t)
  unfolding keep_if_used
  keep_if_used-IsFresh c cd [] t n f = f
  keep_if_used-IsFresh c cd (h ∷ hops) t n f = (n, f)

  keep_if_used-IsWellFormed :
      (cd : Cd) (hops : List H) (t : Table H)
      → IsAscending face_id hops
      → IsFresh cd t
      → IsWellFormed t
      → IsWellFormed (keep_if_used cd hops t)
  unfolding keep_if_used
  keep_if_used-IsWellFormed cd [] t a f w = w
  keep_if_used-IsWellFormed cd (h ∷ hops) t a f w = (tt, a, f, w)

  remove_hop-IsFresh :
      (c cd : Cd) (id : ℕ) (t : Table H) → IsFresh c t → IsFresh c (remove_hop face_id cd id t)
  unfolding remove_hop
  remove_hop-IsFresh c cd id [] f = tt
  remove_hop-IsFresh c cd id (e ∷ t) f = ground (
    arith,
    keep_if_used-IsFresh c e.cd (erase face_id id e.next_hops) t,
    remove_hop-IsFresh c cd id t,
  )

  pub remove_hop-IsWellFormed :
      (cd : Cd) (id : ℕ) (t : Table H) → IsWellFormed t → IsWellFormed (remove_hop face_id cd id t)
  unfolding remove_hop
  remove_hop-IsWellFormed cd id [] w = tt
  remove_hop-IsWellFormed cd id (e ∷ t) w = ground (
    arith,
    erase-IsAscending face_id id e.next_hops,
    keep_if_used-IsWellFormed e.cd (erase face_id id e.next_hops) t,
    remove_hop-IsFresh e.cd cd id t,
    remove_hop-IsWellFormed cd id t,
  )

  pub remove_face-IsFresh :
      (c : Cd) (id : ℕ) (t : Table H) → IsFresh c t → IsFresh c (remove_face face_id id t)
  unfolding remove_face
  remove_face-IsFresh c id [] f = tt
  remove_face-IsFresh c id (e ∷ t) f =
      keep_if_used-IsFresh c e.cd (erase face_id id e.next_hops) _ f.0
        (remove_face-IsFresh c id t f.1)

  pub remove_face-IsWellFormed :
      (id : ℕ) (t : Table H) → IsWellFormed t → IsWellFormed (remove_face face_id id t)
  unfolding remove_face
  remove_face-IsWellFormed id [] w = tt
  remove_face-IsWellFormed id (e ∷ t) w =
      keep_if_used-IsWellFormed e.cd (erase face_id id e.next_hops) _
        (erase-IsAscending face_id id e.next_hops w.1) (remove_face-IsFresh e.cd id t w.2)
        (remove_face-IsWellFormed id t w.3)

  remove_cd-IsFresh : (c cd : Cd) (t : Table H) → IsFresh c t → IsFresh c (remove_cd cd t)
  unfolding remove_cd
  remove_cd-IsFresh c cd [] f = tt
  remove_cd-IsFresh c cd (e ∷ t) f = ground (arith, remove_cd-IsFresh c cd t)

  pub remove_cd-IsWellFormed :
      (cd : Cd) (t : Table H) → IsWellFormed t → IsWellFormed (remove_cd cd t)
  unfolding remove_cd
  remove_cd-IsWellFormed cd [] w = tt
  remove_cd-IsWellFormed cd (e ∷ t) w =
      ground (arith, remove_cd-IsFresh e.cd cd t, remove_cd-IsWellFormed cd t)
