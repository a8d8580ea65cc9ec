-- ===== src/Router/St/Effects.antt =====
-- What the operations of `StImpl` do to the map from descriptors and faces to deadlines.
use f_copss.Cd.Equality.{equals}
use f_copss.Router.Table.Update.{IsUpdate}
use f_copss.Prelude.{refl, false, none, some, ◌==◌, ◌&&◌, ◌≡◌}
use f_copss.Router.Table
use f_copss.Router.St.{
  true, Cd, ℕ, hop_face, St, Ndn, add, remove_hop, remove_cd, remove_face, clear, on_expired,
  deadline,
}
use f_copss.Router.Table.Invariant.{IsWellFormed}

module _ ⦃ndn : Ndn⦄ (st : St) (w : IsWellFormed hop_face st.entries) where
  -- A subscription is forwarded under its own descriptor, and is in the table from then on with a
  -- deadline counted from now; if it was there, its deadline is renewed. All else stays.
  pub add-IsUpdate :
      (now : ℕ) (cd : Cd) (id : ℕ)
      → ((add now cd id st).1 ≡ (true, cd))
        × ((add now cd id st).0.expire_time ≡ st.expire_time)
        × IsUpdate hop_face st.entries
            (λ c k. equals cd c && id == k)
            (some (record { face_id = id; expires_at = deadline st.expire_time now }))
            (add now cd id st).0.entries
  unfolding add
  add-IsUpdate now cd id = (refl, refl, Table.Update.add-IsUpdate hop_face st.entries w cd _)

  -- Each removal takes away the entries that it names and nothing else, and keeps the table well
  -- formed: one face of a descriptor, a descriptor, a face everywhere, everything.
  pub remove-IsUpdate :
      (cd : Cd) (id : ℕ)
      → IsUpdate hop_face st.entries
          (λ c k. equals cd c && id == k)
          none
          (remove_hop cd id st).entries
        × IsUpdate hop_face st.entries (λ c k. equals cd c) none (remove_cd cd st).entries
        × IsUpdate hop_face st.entries (λ c k. id == k) none (remove_face id st).entries
        × IsUpdate hop_face st.entries (λ c k. true) none (clear st).entries
  unfolding remove_hop remove_cd remove_face clear
  remove-IsUpdate cd id = (
    Table.Update.remove_hop-IsUpdate hop_face st.entries w cd id,
    Table.Update.remove_cd-IsUpdate hop_face st.entries w cd,
    Table.Update.remove_face-IsUpdate hop_face st.entries w id,
    Table.Update.clear-IsUpdate hop_face st.entries w,
  )

  -- A timer that ran out takes its subscription away; a cancelled one changes nothing.
  pub on_expired-IsUpdate :
      (cd : Cd) (id : ℕ)
      → (on_expired cd id true st ≡ st)
        × IsUpdate hop_face st.entries
            (λ c k. equals cd c && id == k)
            none
            (on_expired cd id false st).entries
  unfolding on_expired
  on_expired-IsUpdate cd id = (refl, Table.Update.remove_hop-IsUpdate hop_face st.entries w cd id)
