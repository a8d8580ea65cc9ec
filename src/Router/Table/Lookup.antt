-- ===== src/Router/Table/Lookup.antt =====
-- A table read as a finite map from descriptors and faces to next hops, and what each operation
-- does to that map.
use f_copss.Cd.{Cd}
use f_copss.Cd.Equality.{equals, equals_iff}
use f_copss.Ndn.{Ndn}
use f_copss.Prelude.OrderedSet.{insert, erase, find, find-insert-erase, find-erase}
use f_copss.Prelude.{
  ℕ, List, [], ◌∷◌, ◌≡◌, refl, arith, if◌then◌else◌, Option, none, some, ◌&&◌, ◌==◌,
}
use f_copss.Router.Table.Invariant.{remove_face-IsFresh, IsFresh, IsWellFormed}
use f_copss.Router.Table.{Table, keep_if_used, add, remove_hop, remove_face, remove_cd, hops_of}

module _ ⦃ndn : Ndn⦄ {H : Type 0} (face_id : H → ℕ) where
  unfoldable pub lookup : Cd → ℕ → Table H → Option H
  unfolding hops_of find
  lookup cd id t = find face_id id (hops_of cd t)

  pub lookup-add :
      (c cd : Cd) (k : ℕ) (h : H) (t : Table H)
      → IsWellFormed face_id t
      → lookup c k (add face_id cd h t)
        ≡ (if equals cd c && face_id h == k then some h else lookup c k t)
  unfolding lookup add find insert
  lookup-add c cd k h [] w = ground arith
  lookup-add c cd k h (e ∷ t) w = ground (
    arith,
    equals_iff e.cd cd,
    equals_iff e.cd c,
    equals_iff cd c,
    find-insert-erase face_id h k e.next_hops,
    lookup-add c cd k h t,
  )

  IsFresh-hops_of : (c : Cd) (t : Table H) → IsFresh c t → hops_of c t ≡ []
  unfolding hops_of
  IsFresh-hops_of c [] f = refl
  IsFresh-hops_of c (e ∷ t) f = ground (arith, IsFresh-hops_of c t)

  hops_of-keep_if_used :
      (c cd : Cd) (hops : List H) (t : Table H)
      → IsFresh cd t
      → hops_of c (keep_if_used cd hops t) ≡ (if equals cd c then hops else hops_of c t)
  unfolding hops_of keep_if_used
  hops_of-keep_if_used c cd [] t f = ground (arith, equals_iff cd c, IsFresh-hops_of c t)
  hops_of-keep_if_used c cd (h ∷ hops) t f = refl

  pub lookup-remove_hop :
      (c cd : Cd) (k id : ℕ) (t : Table H)
      → IsWellFormed face_id t
      → lookup c k (remove_hop face_id cd id t)
        ≡ (if equals cd c && id == k then none else lookup c k t)
  unfolding lookup remove_hop
  lookup-remove_hop c cd k id [] w = ground arith
  lookup-remove_hop c cd k id (e ∷ t) w = ground (
    arith,
    equals_iff e.cd cd,
    equals_iff e.cd c,
    equals_iff cd c,
    hops_of-keep_if_used c e.cd (erase face_id id e.next_hops) t,
    find-erase face_id id k e.next_hops,
    lookup-remove_hop c cd k id t,
  )

  pub lookup-remove_face :
      (c : Cd) (k id : ℕ) (t : Table H)
      → IsWellFormed face_id t
      → lookup c k (remove_face face_id id t) ≡ (if id == k then none else lookup c k t)
  unfolding lookup remove_face
  lookup-remove_face c k id [] w = ground arith
  lookup-remove_face c k id (e ∷ t) w = ground (
    arith,
    hops_of-keep_if_used c e.cd (erase face_id id e.next_hops) (remove_face face_id id t),
    remove_face-IsFresh face_id e.cd id t,
    find-erase face_id id k e.next_hops,
    lookup-remove_face c k id t,
  )

  pub lookup-remove_cd :
      (c cd : Cd) (k : ℕ) (t : Table H)
      → IsWellFormed face_id t
      → lookup c k (remove_cd cd t) ≡ (if equals cd c then none else lookup c k t)
  unfolding lookup remove_cd
  lookup-remove_cd c cd k [] w = ground arith
  lookup-remove_cd c cd k (e ∷ t) w = ground (
    arith,
    equals_iff e.cd cd,
    equals_iff e.cd c,
    equals_iff cd c,
    IsFresh-hops_of c t,
    lookup-remove_cd c cd k t,
  )
