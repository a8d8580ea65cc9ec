-- ===== src/Router/St.antt =====
-- src/router/st-impl.cpp and st-entry.cpp: the subscription table. Times are numbers; `none` is the
-- special time `pos_infin`.
pub mod Faces
pub mod Subscribers
pub mod Effects
use f_copss.Cd.{Cd}
use f_copss.Ndn.{Ndn}
use f_copss.Prelude.OrderedSet.{insert}
use f_copss.Prelude.{ℕ, ◌+◌, Bool, true, false, List, [], ◌∷◌, Option, none, some, if◌then◌else◌}
use f_copss.Prelude.Outcome.{Outcome, value, ◌>>=◌}
use f_copss.Router.Matching.{match_regex}
use f_copss.Router.Table
use f_copss.Router.Table.{Entry, Table}

-- `StEntry::NextHop`; ordered and compared by its face alone. `expires_at` is the deadline of its
-- timer.
pub record NextHop : Type 0 where
  pub face_id : ℕ
  pub expires_at : Option ℕ

abbrev pub hop_face : NextHop → ℕ
hop_face h = h.face_id

pub record St : Type 0 where
  pub expire_time : Option ℕ
  pub entries : Table NextHop

-- `expires_from_now(expireTime)`.
abbrev pub deadline : Option ℕ → ℕ → Option ℕ
deadline none now = none
deadline (some time) now = some (now + time)

module _ ⦃ndn : Ndn⦄ where
  -- The table, and the pair of `doForward` and the descriptor to forward.
  unfoldable pub add : ℕ → Cd → ℕ → St → St × (Bool × Cd)
  add now cd id st =
      let hop : NextHop = record { face_id = id; expires_at = deadline st.expire_time now } in
      (record st { entries = Table.add hop_face cd hop st.entries }, (true, cd))

  -- `remove(cd, id)`.
  unfoldable pub remove_hop : Cd → ℕ → St → St
  remove_hop cd id st = record st { entries = Table.remove_hop hop_face cd id st.entries }

  -- `remove(cd)`.
  unfoldable pub remove_cd : Cd → St → St
  remove_cd cd st = record st { entries = Table.remove_cd cd st.entries }

  -- `remove(id)`.
  unfoldable pub remove_face : ℕ → St → St
  remove_face id st = record st { entries = Table.remove_face hop_face id st.entries }

  unfoldable pub clear : St → St
  clear st = record st { entries = [] }

  -- The handler of a timer; the flag says that it was cancelled.
  unfoldable pub on_expired : Cd → ℕ → Bool → St → St
  unfolding remove_hop
  on_expired cd id error st = if error then st else remove_hop cd id st

-- The inner loop of `match`: a `set<FaceId>` is the ordered list of its ids.
unfoldable pub insert_faces : List NextHop → List ℕ → List ℕ
insert_faces [] ids = ids
insert_faces (h ∷ hops) ids = insert_faces hops (insert (λ id. id) h.face_id ids)

unfoldable pub match_entries : Cd → Table NextHop → List ℕ → Outcome (List ℕ)
unfolding insert_faces
match_entries cd [] ids = value ids
match_entries cd (e ∷ entries) ids = do
  matched ← match_regex e.cd cd
  match_entries cd entries (if matched then insert_faces e.next_hops ids else ids)

unfoldable pub match : Cd → St → Outcome (List ℕ)
unfolding match_entries
match cd st = match_entries cd st.entries []
