-- ===== src/Router/Fib/Best.antt =====
-- `Fib::match` against the table as a map from descriptors and faces to costs.
use f_copss.Prelude.{refl, inr, inl, none, Option-cases, ◌≤◌, ◌⊎◌, [], false, ◌∷◌, true, some, ◌≡◌}
use f_copss.Cd.{Cd}
use f_copss.Ndn.{Ndn}
use f_copss.Prelude.OrderedSet.{IsAscending}
use f_copss.Router.Fib.Route.{
  IsBound, IsCheapest, cheapest_from-IsCheapest, longest_from-none, longest_from_first,
  IsBound-lookup, HasNoPrefix-lookup,
}
use f_copss.Router.Fib.{
  value, cheapest_from, size, is_prefix_of, ℕ, List, NextHop, hop_face, Fib, match, longest_from,
  min_element,
}
use f_copss.Router.Table.Invariant.{IsUsed, IsWellFormed}
use f_copss.Router.Table.Members.{Among-hops_of}
use f_copss.Router.Table.Lookup.{lookup}
use f_copss.Router.Table.{hops_of, Entry}

module _ ⦃ndn : Ndn⦄ where
  -- The route of `cd`: of the table's descriptors that are a prefix of `cd` it has the longest; of
  -- the next hops there it is the cheapest, and of equally cheap ones that with the least face id.
  pub record IsBestRoute (fib : Fib) (cd c : Cd) (h : NextHop) : Type 0 where
    pub found : lookup hop_face c h.face_id fib ≡ some h
    pub prefix : is_prefix_of c cd ≡ true
    pub longest :
        (d : Cd) (k : ℕ) (x : NextHop)
        → lookup hop_face d k fib ≡ some x
        → is_prefix_of d cd ≡ true
        → size d ≤ size c
    pub cheapest : (k : ℕ) (x : NextHop) → lookup hop_face c k fib ≡ some x → h.cost ≤ x.cost
    pub first :
        (k : ℕ) (x : NextHop)
        → lookup hop_face c k fib ≡ some x
        → x.cost ≡ h.cost
        → h.face_id ≤ x.face_id

  min_element-IsCheapest :
      (hops : List NextHop)
      → IsUsed hops
      → IsAscending hop_face hops
      → (h : NextHop) × (min_element hops ≡ some h) × IsCheapest h hops
  min_element-IsCheapest [] u a = absurd u
  min_element-IsCheapest (x ∷ hops) u a =
      (cheapest_from x hops, refl, cheapest_from-IsCheapest x hops a.0 a.1)

  -- No descriptor with a next hop is a prefix of `cd`.
  abbrev pub HasNoRoute : Fib → Cd → Type 0
  HasNoRoute fib cd =
      (c : Cd) (k : ℕ) (h : NextHop) → lookup hop_face c k fib ≡ some h → is_prefix_of c cd ≡ false

  IsCheapest-IsBestRoute :
      (fib : Fib) (cd : Cd) (e : Entry NextHop) (h : NextHop)
      → hops_of e.cd fib ≡ e.next_hops
      → IsCheapest h e.next_hops
      → is_prefix_of e.cd cd ≡ true
      → IsBound cd (size e.cd) fib
      → IsBestRoute fib cd e.cd h
  unfolding lookup
  IsCheapest-IsBestRoute fib cd e h s c p b = record {
    found = rw s c.in_set;
    prefix = p;
    longest = λ d k x q r. IsBound-lookup cd (size e.cd) d k x fib b q r;
    cheapest = λ k x q. c.least k x (rw s at q);
    first = λ k x q r. c.first k x (rw s at q) r;
  }

  -- In a well-formed table `match` never dereferences the end of an empty set. It finds nothing
  -- exactly when no entry is a prefix of `cd`; otherwise it gives the best route's face, alone.
  pub match-IsBestRoute :
      (fib : Fib) (cd : Cd)
      → IsWellFormed hop_face fib
      → ((match cd fib ≡ value []) × HasNoRoute fib cd)
        ⊎ ((c : Cd) × (h : NextHop) × (match cd fib ≡ value (h.face_id ∷ []))
            × IsBestRoute fib cd c h)
  unfolding match
  match-IsBestRoute fib cd w = elim (Option-cases (longest_from none cd fib)) [
    | inl e ↦ inl (
      rw (e, match) refl,
      λ c k h q. HasNoPrefix-lookup cd c k h fib (longest_from-none cd fib none e).1 q,
    )
    | inr (e, q) ↦
        let (among, prefix, bound) = longest_from_first cd fib e q in
        let (hops, used, ascending) = Among-hops_of hop_face e fib w among in
        let (h, min, cheap) = min_element-IsCheapest e.next_hops used ascending in
        inr (
          e.cd,
          h,
          rw (q, match, min) refl,
          IsCheapest-IsBestRoute fib cd e h hops cheap prefix bound,
        )
  ]
