-- ===== src/Router/Table/Members.antt =====
-- Entries of a table, and the map that the table stands for.
use f_copss.Cd.Equality.{equals, equals_iff}
use f_copss.Cd.{Cd}
use f_copss.Ndn.{Ndn}
use f_copss.Prelude.OrderedSet.{IsAscending, find}
use f_copss.Prelude.{refl, ℕ, [], ◌∷◌, ◌≡◌, ◌⊎◌, inl, inr, arith, false, some, Bool-cases}
use f_copss.Router.Table.Invariant.{IsUsed, IsFresh, IsWellFormed}
use f_copss.Router.Table.Lookup.{lookup}
use f_copss.Router.Table.{Entry, Table, hops_of}

abbrev pub Among : {H : Type 0} → Entry H → Table H → Type 0
Among e [] = ⊥
Among e (x ∷ t) = (x ≡ e) ⊎ Among e t

module _ ⦃ndn : Ndn⦄ {H : Type 0} where
  Among-IsFresh :
      (c : Cd) (e : Entry H) (t : Table H) → IsFresh c t → Among e t → equals e.cd c ≡ false
  Among-IsFresh c e [] f m = absurd m
  Among-IsFresh c e (x ∷ t) f (inl same) = rw (← same) f.0
  Among-IsFresh c e (x ∷ t) f (inr later) = Among-IsFresh c e t f.1 later

module _ ⦃ndn : Ndn⦄ {H : Type 0} (face_id : H → ℕ) where
  -- The entries are found under their descriptors.
  pub Among-hops_of :
      (e : Entry H) (t : Table H)
      → IsWellFormed face_id t
      → Among e t
      → (hops_of e.cd t ≡ e.next_hops) × IsUsed e.next_hops × IsAscending face_id e.next_hops
  unfolding hops_of
  Among-hops_of e [] w m = absurd m
  Among-hops_of e (x ∷ t) w (inl same) =
      rw (← same) (ground (arith, equals_iff x.cd x.cd), w.0, w.1)
  Among-hops_of e (x ∷ t) w (inr later) =
      let (h, u, a) = Among-hops_of e t w.3 later in
      let other = Among-IsFresh x.cd e t w.2 later in
      (ground (arith, other, equals_iff x.cd e.cd, equals_iff e.cd x.cd), u, a)

  -- What is found under a descriptor stands in an entry.
  pub lookup-Among :
      (c : Cd) (k : ℕ) (h : H) (t : Table H)
      → lookup face_id c k t ≡ some h
      → (e : Entry H) × Among e t × (e.cd ≡ c) × (find face_id k e.next_hops ≡ some h)
  unfolding lookup
  lookup-Among c k h [] q = cc
  lookup-Among c k h (x ∷ t) q = elim (Bool-cases (equals x.cd c)) [
    | inl same ↦ (x, inl refl, (equals_iff x.cd c).0 same, ground arith)
    | inr other ↦ let (e, m, d, f) = lookup-Among c k h t (ground arith) in (e, inr m, d, f)
  ]
