-- ===== src/Router/Fib.antt =====
-- src/router/fib.cpp and fib-entry.cpp: the forwarding table. Names are parsed as descriptors, and
-- a name that does not parse raises before the table is touched.
pub mod Route
pub mod Best
pub mod Effects
use f_copss.Prelude.Outcome.{out_of_bounds, value, Outcome}
use f_copss.Boost.{Boost}
use f_copss.Cd.Equality.{size, is_prefix_of}
use f_copss.Cd.Parser.{of_uri}
use f_copss.Cd.{Cd}
use f_copss.Ndn.{Ndn}
use f_copss.Prelude.{
  ℕ, Bool, true, ◌&&◌, List, [], ◌∷◌, Option, none, some, Bytes, Result, ok, ◌>>=◌, ltb,
  if◌then◌else◌,
}
use f_copss.Router.Table
use f_copss.Router.Table.{Entry, Table}

-- `FibEntry::NextHop`; it is ordered and compared by its face alone.
pub record NextHop : Type 0 where
  pub face_id : ℕ
  pub cost : ℕ

abbrev pub hop_face : NextHop → ℕ
hop_face h = h.face_id

abbrev pub Fib : Type 0
Fib = Table NextHop

module _ ⦃boost : Boost⦄ ⦃ndn : Ndn⦄ where
  unfoldable pub add : Bytes → ℕ → ℕ → Fib → Result Fib
  add name face_id cost fib = do
    cd ← of_uri name
    ok (Table.add hop_face cd (record { face_id = face_id; cost = cost }) fib)

  -- `remove(name, faceId)`.
  unfoldable pub remove_hop : Bytes → ℕ → Fib → Result Fib
  remove_hop name face_id fib = do cd ← of_uri name; ok (Table.remove_hop hop_face cd face_id fib)

  -- `remove(name)`.
  unfoldable pub remove_name : Bytes → Fib → Result Fib
  remove_name name fib = do cd ← of_uri name; ok (Table.remove_cd cd fib)

module _ ⦃ndn : Ndn⦄ where
  -- `remove(faceId)`.
  unfoldable pub remove_face : ℕ → Fib → Fib
  remove_face face_id fib = Table.remove_face hop_face face_id fib

  abbrev pub clear : Fib → Fib
  clear fib = []

  -- `size < ssize_t(it->m_cd.size())`, where `size` is -1 until there is a `longest`.
  abbrev pub is_longer : Option (Entry NextHop) → Entry NextHop → Bool
  is_longer none e = true
  is_longer (some longest) e = ltb (size longest.cd) (size e.cd)

  unfoldable pub longest_from : Option (Entry NextHop) → Cd → Fib → Option (Entry NextHop)
  longest_from longest cd [] = longest
  longest_from longest cd (e ∷ fib) =
      longest_from (if is_prefix_of e.cd cd && is_longer longest e then some e else longest) cd fib

-- `std::min_element` by cost: the first of the cheapest.
unfoldable pub cheapest_from : NextHop → List NextHop → NextHop
cheapest_from best [] = best
cheapest_from best (h ∷ hops) = cheapest_from (if ltb h.cost best.cost then h else best) hops

abbrev pub min_element : List NextHop → Option NextHop
min_element [] = none
min_element (h ∷ hops) = some (cheapest_from h hops)

module _ ⦃ndn : Ndn⦄ where
  -- The set of face ids, in order. The end of an empty set of next hops would be dereferenced.
  unfoldable pub match : Cd → Fib → Outcome (List ℕ)
  unfolding longest_from cheapest_from
  match cd fib = elim (longest_from none cd fib) [
    | none ↦ value []
    | some longest ↦ elim (min_element longest.next_hops) [
      | none ↦ out_of_bounds
      | some hop ↦ value (hop.face_id ∷ [])
    ]
  ]
