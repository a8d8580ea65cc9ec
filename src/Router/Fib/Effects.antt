-- ===== src/Router/Fib/Effects.antt =====
-- What the operations of `Fib` do to the map from descriptors and faces to costs.
use f_copss.Prelude.{refl, inl, inr, ◌>>=◌, ok, ◌⊎◌, err, true, ◌≡◌, none, some, Error, ◌==◌}
use f_copss.Router.Table.Update.{IsUpdate}
use f_copss.Cd.Equality.{equals}
use f_copss.Router.Table
use f_copss.Router.Fib.{
  of_uri, Result, ◌&&◌, Option, Bool, ℕ, Cd, hop_face, Bytes, Fib, Ndn, Boost, NextHop, add,
  remove_hop, remove_name, remove_face, clear,
}
use f_copss.Router.Table.Invariant.{IsWellFormed}

module _ ⦃boost : Boost⦄ ⦃ndn : Ndn⦄ (fib : Fib) where
  -- The outcome of an operation on a name: an exception of the parser is passed on and there is no
  -- new table; otherwise the operation changes the map as told by the descriptor of the name.
  abbrev pub Updates : Bytes → (Cd → Cd → ℕ → Bool) → Option NextHop → Result Fib → Type 0
  Updates name hit new result =
      ((e : Error) × (of_uri name ≡ err e) × (result ≡ err e))
      ⊎ ((cd : Cd) × (fib' : Fib) × (of_uri name ≡ ok cd)
          × (result ≡ ok fib')
          × IsUpdate hop_face fib (hit cd) new fib')

  Updates-do :
      (name : Bytes) (hit : Cd → Cd → ℕ → Bool) (new : Option NextHop) (change : Cd → Fib)
      → ((cd : Cd) → IsUpdate hop_face fib (hit cd) new (change cd))
      → Updates name hit new (of_uri name >>= λ cd. ok (change cd))
  Updates-do name hit new change u = split (of_uri name) refl
    where
      split :
          (r : Result Cd)
          → of_uri name ≡ r
          → Updates name hit new (of_uri name >>= λ cd. ok (change cd))
      split (ok cd) e = inr (cd, change cd, e, rw e refl, u cd)
      split (err x) e = inl (x, e, rw e refl)

  module _ (w : IsWellFormed hop_face fib) where
    -- `add` parses the name and sets the cost of the face there, whatever it was; all else stays.
    pub add-Updates :
        (name : Bytes) (id cost : ℕ)
        → Updates name
            (λ cd c k. equals cd c && id == k)
            (some (record { face_id = id; cost = cost }))
            (add name id cost fib)
    unfolding add
    add-Updates name id cost =
        Updates-do name _ _ _ (λ cd. Table.Update.add-IsUpdate hop_face fib w cd _)

    -- Each removal takes away the routes that it names and nothing else.
    pub remove-Updates :
        (name : Bytes) (id : ℕ)
        → Updates name (λ cd c k. equals cd c && id == k) none (remove_hop name id fib)
          × Updates name (λ cd c k. equals cd c) none (remove_name name fib)
          × IsUpdate hop_face fib (λ c k. id == k) none (remove_face id fib)
          × IsUpdate hop_face fib (λ c k. true) none (clear fib)
    unfolding remove_hop remove_name remove_face
    remove-Updates name id = (
      Updates-do name _ _ _ (λ cd. Table.Update.remove_hop-IsUpdate hop_face fib w cd id),
      Updates-do name _ _ _ (λ cd. Table.Update.remove_cd-IsUpdate hop_face fib w cd),
      Table.Update.remove_face-IsUpdate hop_face fib w id,
      Table.Update.clear-IsUpdate hop_face fib w,
    )
