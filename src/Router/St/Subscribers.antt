-- ===== src/Router/St/Subscribers.antt =====
-- `StImpl::match` against the table as a map from descriptors and faces to deadlines.
use f_copss.Cd.{Cd}
use f_copss.Ndn.{Ndn}
use f_copss.Prelude.OrderedSet.{find, IsAscending}
use f_copss.Prelude.{
  ◌==◌, Bool-cases, refl, ℕ, List, [], ◌∷◌, ◌≡◌, inl, inr, arith, true, some, ◌↔◌,
}
use f_copss.Prelude.Outcome.{value}
use f_copss.Router.Matching.{match_regex}
use f_copss.Router.St.Faces.{IsFaceOf, Reaches, IsMatchableTable, match_entries-Collects, Has}
use f_copss.Router.St.{NextHop, St, hop_face, match}
use f_copss.Router.Table.Invariant.{IsWellFormed}
use f_copss.Router.Table.Lookup.{lookup}
use f_copss.Router.Table.Members.{Among, Among-hops_of, lookup-Among}
use f_copss.Router.Table.{Entry, Table}

find-IsFaceOf :
    (k : ℕ) (hops : List NextHop) (h : NextHop) → find hop_face k hops ≡ some h → IsFaceOf k hops
unfolding find
find-IsFaceOf k [] h e = cc
find-IsFaceOf k (x ∷ hops) h e = ground (arith, find-IsFaceOf k hops h)

IsFaceOf-find :
    (k : ℕ) (hops : List NextHop)
    → IsFaceOf k hops
    → (h : NextHop) × (find hop_face k hops ≡ some h)
unfolding find
IsFaceOf-find k [] m = absurd m
IsFaceOf-find k (x ∷ hops) m = elim (Bool-cases (hop_face x == k)) [
  | inl same ↦ (x, rw same refl)
  | inr other ↦ let (h, e) = IsFaceOf-find k hops (ground arith) in (h, rw other e)
]

module _ ⦃ndn : Ndn⦄ where
  -- The face has subscribed to a descriptor that matches `cd`.
  abbrev pub IsSubscriber : Table NextHop → Cd → ℕ → Type 0
  IsSubscriber t cd k =
      (c : Cd) × (h : NextHop) × (lookup hop_face c k t ≡ some h) × (match_regex c cd ≡ value true)

Reaches-of_entry :
    (cd : Cd) (k : ℕ) (e : Entry NextHop) (t : Table NextHop)
    → Among e t
    → match_regex e.cd cd ≡ value true
    → IsFaceOf k e.next_hops
    → Reaches cd k t
Reaches-of_entry cd k e [] m r f = absurd m
Reaches-of_entry cd k e (x ∷ t) (inl same) r f = inl (rw same r, rw same f)
Reaches-of_entry cd k e (x ∷ t) (inr later) r f = inr (Reaches-of_entry cd k e t later r f)

entry_of-Reaches :
    (cd : Cd) (k : ℕ) (t : Table NextHop)
    → Reaches cd k t
    → (e : Entry NextHop) × Among e t × (match_regex e.cd cd ≡ value true) × IsFaceOf k e.next_hops
entry_of-Reaches cd k [] m = absurd m
entry_of-Reaches cd k (x ∷ t) (inl (r, f)) = (x, inl refl, r, f)
entry_of-Reaches cd k (x ∷ t) (inr later) =
    let (e, m, r, f) = entry_of-Reaches cd k t later in (e, inr m, r, f)

module _ ⦃ndn : Ndn⦄ where
  Reaches-IsSubscriber :
      (cd : Cd) (k : ℕ) (t : Table NextHop)
      → IsWellFormed hop_face t
      → Reaches cd k t ↔ IsSubscriber t cd k
  unfolding lookup
  Reaches-IsSubscriber cd k t w = (to, from)
    where
      to : Reaches cd k t → IsSubscriber t cd k
      to m =
          let (e, a, r, f) = entry_of-Reaches cd k t m in
          let (h, q) = IsFaceOf-find k e.next_hops f in
          (e.cd, h, rw (Among-hops_of hop_face e t w a).0 q, r)

      from : IsSubscriber t cd k → Reaches cd k t
      from (c, h, q, r) =
          let (e, a, same, f) = lookup-Among hop_face c k h t q in
          Reaches-of_entry cd k e t a (rw same r) (find-IsFaceOf k e.next_hops h f)

  -- The result is an ordered set, and it holds a face exactly when the face has subscribed to a
  -- descriptor that matches.
  pub record IsSubscribers (st : St) (cd : Cd) (ids : List ℕ) : Type 0 where
    pub returns : match cd st ≡ value ids
    pub ascending : IsAscending (λ id. id) ids
    pub exactly : (k : ℕ) → Has k ids ↔ IsSubscriber st.entries cd k

  -- If the table is well formed and its descriptors can be matched, `match` returns the set of the
  -- subscribers.
  pub match-IsSubscribers :
      (st : St) (cd : Cd)
      → IsWellFormed hop_face st.entries
      → IsMatchableTable st.entries
      → (ids : List ℕ) × IsSubscribers st cd ids
  unfolding match find
  match-IsSubscribers st cd w m =
      let (ids, c) = match_entries-Collects cd st.entries [] m in
      (
        ids,
        record {
          returns = c.returns;
          ascending = c.ascending tt;
          exactly = λ k.
              let i = Reaches-IsSubscriber cd k st.entries w in
              (
                λ h. elim ((c.exactly k).0 h) [ inl r ↦ i.0 r | inr n ↦ absurd (cc) ],
                λ s. (c.exactly k).1 (inl (i.1 s)),
              );
        },
      )
