-- ===== src/Router/St/Faces.antt =====
-- The set of faces that `StImpl::match` returns.
use f_copss.Cd.{Cd}
use f_copss.Prelude.OrderedSet.{find, insert, IsAscending, insert-IsAscending}
use f_copss.Prelude.{◌↔◌, refl, ℕ, List, [], ◌∷◌, ◌≡◌, ◌⊎◌, arith, false, true, some}
use f_copss.Router.Matching.Totality.{IsMatchable, Returns, match_regex-Returns}
use f_copss.Prelude.Outcome.{value}
use f_copss.Router.Matching.{match_regex}
use f_copss.Router.St.{NextHop, insert_faces, match_entries}
use f_copss.Router.Table.{Entry, Table}

-- The id is in the set.
abbrev pub Has : ℕ → List ℕ → Type 0
Has k ids = find (λ id. id) k ids ≡ some k

abbrev pub IsFaceOf : ℕ → List NextHop → Type 0
IsFaceOf k [] = ⊥
IsFaceOf k (h ∷ hops) = (h.face_id ≡ k) ⊎ IsFaceOf k hops

Has-insert : (j k : ℕ) (ids : List ℕ) → Has k (insert (λ id. id) j ids) ↔ ((j ≡ k) ⊎ Has k ids)
unfolding find insert
Has-insert j k [] = ground arith
Has-insert j k (x ∷ ids) = ground (arith, Has-insert j k ids)

Has-insert_faces :
    (k : ℕ) (hops : List NextHop) (ids : List ℕ)
    → Has k (insert_faces hops ids) ↔ (IsFaceOf k hops ⊎ Has k ids)
unfolding insert_faces
Has-insert_faces k [] ids = ground arith
Has-insert_faces k (h ∷ hops) ids =
    ground
      (arith, Has-insert_faces k hops (insert (λ id. id) h.face_id ids), Has-insert h.face_id k ids)

insert_faces-IsAscending :
    (hops : List NextHop) (ids : List ℕ)
    → IsAscending (λ id. id) ids
    → IsAscending (λ id. id) (insert_faces hops ids)
unfolding insert_faces
insert_faces-IsAscending [] ids a = a
insert_faces-IsAscending (h ∷ hops) ids a =
    insert_faces-IsAscending hops _ (insert-IsAscending (λ id. id) h.face_id ids a)

-- Some entry matches the descriptor and has the face.
abbrev pub Reaches : Cd → ℕ → Table NextHop → Type 0
Reaches cd k [] = ⊥
Reaches cd k (e ∷ t) =
    ((match_regex e.cd cd ≡ value true) × IsFaceOf k e.next_hops) ⊎ Reaches cd k t

abbrev pub IsMatchableTable : Table NextHop → Type 0
IsMatchableTable [] = Unit
IsMatchableTable (e ∷ t) = IsMatchable e.cd.elements × IsMatchableTable t

-- The loop collects the faces of the matching entries, on top of what it has.
pub record Collects (cd : Cd) (t : Table NextHop) (ids result : List ℕ) : Type 0 where
  pub returns : match_entries cd t ids ≡ value result
  pub ascending : IsAscending (λ id. id) ids → IsAscending (λ id. id) result
  pub exactly : (k : ℕ) → Has k result ↔ (Reaches cd k t ⊎ Has k ids)

module _ (cd : Cd) (e : Entry NextHop) (t : Table NextHop) (ids result : List ℕ) where
  Collects-true :
      match_regex e.cd cd ≡ value true
      → Collects cd t (insert_faces e.next_hops ids) result
      → Collects cd (e ∷ t) ids result
  unfolding match_entries
  Collects-true r c = record {
    returns = rw r c.returns;
    ascending = λ a. c.ascending (insert_faces-IsAscending e.next_hops ids a);
    exactly = λ k. ground (arith, r, c.exactly k, Has-insert_faces k e.next_hops ids);
  }

  Collects-false :
      match_regex e.cd cd ≡ value false → Collects cd t ids result → Collects cd (e ∷ t) ids result
  unfolding match_entries
  Collects-false r c = record {
    returns = rw r c.returns;
    ascending = c.ascending;
    exactly = λ k. ground (arith, r, c.exactly k);
  }

pub match_entries-Collects :
    (cd : Cd) (t : Table NextHop) (ids : List ℕ)
    → IsMatchableTable t
    → (result : List ℕ) × Collects cd t ids result
unfolding match_entries
match_entries-Collects cd [] ids m =
    (ids, record { returns = refl; ascending = λ a. a; exactly = λ k. ground arith })
match_entries-Collects cd (e ∷ t) ids m =
    choose (match_regex-Returns e.cd cd m.0)
      (match_entries-Collects cd t (insert_faces e.next_hops ids) m.1)
      (match_entries-Collects cd t ids m.1)
  where
    choose :
        Returns (match_regex e.cd cd)
        → (result : List ℕ) × Collects cd t (insert_faces e.next_hops ids) result
        → (result : List ℕ) × Collects cd t ids result
        → (result : List ℕ) × Collects cd (e ∷ t) ids result
    choose (true, r) (result, c) other = (result, Collects-true cd e t ids result r c)
    choose (false, r) other (result, c) = (result, Collects-false cd e t ids result r c)
