-- ===== src/Router/Fib/Route.antt =====
-- The route that `match` chooses, against the table as a map.
use f_copss.Cd.Equality.{size, is_prefix_of, equals_iff}
use f_copss.Cd.{Cd}
use f_copss.Ndn.{Ndn}
use f_copss.Prelude.OrderedSet.{find, find-Above, Above, IsAscending}
use f_copss.Prelude.{
  Bool-cases, ◌<◌, ℕ, true, false, ◌&&◌, List, [], ◌∷◌, Option, none, some, ltb, if◌then◌else◌,
  arith, ◌≡◌, ◌≤◌, ◌⊎◌, inl, inr,
}
use f_copss.Router.Fib.{NextHop, hop_face, Fib, longest_from, cheapest_from}
use f_copss.Router.Table.Members.{Among}
use f_copss.Router.Table.Lookup.{lookup}
use f_copss.Router.Table.{Entry}

-- The cheapest of the next hops, and of the cheapest the one with the least face id.
pub record IsCheapest (h : NextHop) (hops : List NextHop) : Type 0 where
  pub in_set : find hop_face h.face_id hops ≡ some h
  pub least : (k : ℕ) (x : NextHop) → find hop_face k hops ≡ some x → h.cost ≤ x.cost
  pub first :
      (k : ℕ) (x : NextHop)
      → find hop_face k hops ≡ some x
      → x.cost ≡ h.cost
      → h.face_id ≤ x.face_id

module _ (best h : NextHop) (hops : List NextHop) (r : NextHop)
    (a : Above hop_face best.face_id (h ∷ hops)) (s : IsAscending hop_face (h ∷ hops)) where
  IsCheapest-take : h.cost < best.cost → IsCheapest r (h ∷ hops) → IsCheapest r (best ∷ h ∷ hops)
  unfolding find
  IsCheapest-take l c = record {
    in_set = ground (arith, c.in_set, find-Above hop_face best.face_id r.face_id (h ∷ hops) r a);
    least = λ k x e. ground (arith, c.least k x, c.least h.face_id h);
    first = λ k x e q. ground (arith, c.first k x, c.least h.face_id h);
  }

  IsCheapest-keep : best.cost ≤ h.cost → IsCheapest r (best ∷ hops) → IsCheapest r (best ∷ h ∷ hops)
  unfolding find
  IsCheapest-keep l c = record {
    in_set = ground (arith, c.in_set, find-Above hop_face h.face_id r.face_id hops r s.0);
    least = λ k x e. ground (arith, c.least k x, c.least best.face_id best);
    first = λ k x e q.
        ground (arith, c.first k x, c.least best.face_id best, c.first best.face_id best);
  }

pub cheapest_from-IsCheapest :
    (best : NextHop) (hops : List NextHop)
    → Above hop_face best.face_id hops
    → IsAscending hop_face hops
    → IsCheapest (cheapest_from best hops) (best ∷ hops)
unfolding cheapest_from find
cheapest_from-IsCheapest best [] a s = record {
  in_set = ground arith;
  least = λ k x e. ground arith;
  first = λ k x e q. ground arith;
}
cheapest_from-IsCheapest best (h ∷ hops) a s = elim (Bool-cases (ltb h.cost best.cost)) [
  | inl less ↦
      rw less
        (IsCheapest-take best h hops _ a s (ground arith) (cheapest_from-IsCheapest h hops s.0 s.1))
  | inr more ↦ rw more (
      IsCheapest-keep best h hops _ a s (ground arith) (cheapest_from-IsCheapest best hops a.1 s.1))
]

module _ ⦃ndn : Ndn⦄ (cd : Cd) where
  -- No prefix of `cd` in the table is longer than so many elements.
  abbrev pub IsBound : ℕ → Fib → Type 0
  IsBound n [] = Unit
  IsBound n (x ∷ fib) = (is_prefix_of x.cd cd ≡ true → size x.cd ≤ n) × IsBound n fib

  abbrev pub HasNoPrefix : Fib → Type 0
  HasNoPrefix [] = Unit
  HasNoPrefix (x ∷ fib) = (is_prefix_of x.cd cd ≡ false) × HasNoPrefix fib

  pub longest_from-none :
      (fib : Fib) (best : Option (Entry NextHop))
      → longest_from best cd fib ≡ none
      → (best ≡ none) × HasNoPrefix fib
  unfolding longest_from
  longest_from-none [] best e = (e, tt)
  longest_from-none (x ∷ fib) none e =
      ground (arith, longest_from-none fib (if is_prefix_of x.cd cd && true then some x else none))
  longest_from-none (x ∷ fib) (some b) e = ground (
    arith,
    longest_from-none fib
        (if is_prefix_of x.cd cd && ltb (size b.cd) (size x.cd) then some x else some b),
  )

  longest_from-some :
      (fib : Fib) (b e : Entry NextHop)
      → is_prefix_of b.cd cd ≡ true
      → longest_from (some b) cd fib ≡ some e
      → ((b ≡ e) ⊎ Among e fib)
        × (is_prefix_of e.cd cd ≡ true)
        × (size b.cd ≤ size e.cd)
        × IsBound (size e.cd) fib
  unfolding longest_from
  longest_from-some [] b e p h = ground arith
  longest_from-some (x ∷ fib) b e p h =
      elim (Bool-cases (is_prefix_of x.cd cd && ltb (size b.cd) (size x.cd))) [
        | inl longer ↦ ground (arith, longest_from-some fib x e)
        | inr shorter ↦ ground (arith, longest_from-some fib b e)
      ]

  pub longest_from_first :
      (fib : Fib) (e : Entry NextHop)
      → longest_from none cd fib ≡ some e
      → Among e fib × (is_prefix_of e.cd cd ≡ true) × IsBound (size e.cd) fib
  unfolding longest_from
  longest_from_first [] e h = cc
  longest_from_first (x ∷ fib) e h = elim (Bool-cases (is_prefix_of x.cd cd)) [
    | inl yes_prefix ↦ ground (arith, longest_from-some fib x e)
    | inr other ↦ ground (arith, longest_from_first fib e)
  ]

  pub IsBound-lookup :
      (n : ℕ) (c : Cd) (k : ℕ) (h : NextHop) (fib : Fib)
      → IsBound n fib
      → lookup hop_face c k fib ≡ some h
      → is_prefix_of c cd ≡ true
      → size c ≤ n
  unfolding lookup
  IsBound-lookup n c k h [] b e p = cc
  IsBound-lookup n c k h (x ∷ fib) b e p =
      ground (arith, equals_iff x.cd c, IsBound-lookup n c k h fib)

  pub HasNoPrefix-lookup :
      (c : Cd) (k : ℕ) (h : NextHop) (fib : Fib)
      → HasNoPrefix fib
      → lookup hop_face c k fib ≡ some h
      → is_prefix_of c cd ≡ false
  unfolding lookup
  HasNoPrefix-lookup c k h [] b e = cc
  HasNoPrefix-lookup c k h (x ∷ fib) b e =
      ground (arith, equals_iff x.cd c, HasNoPrefix-lookup c k h fib)
