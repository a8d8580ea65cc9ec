-- ===== src/Rtctrl/Dumps/Used.antt =====
-- The ids of the faces that a table leads to, each of them once.
use f_copss.Router.Table.{Table}
use f_copss.Prelude.{
  ◌||◌, inr, inl, Bool-cases, ◌^◌, ◌==◌, ◌≡◌, if◌then◌else◌, ◌<◌, All, Bool, List, ℕ, [], ◌∷◌, refl,
  arith, ap, ◌∙◌, true, false, any,
}

abbrev pub member : ℕ → List ℕ → Bool
member n ns = any (λ m. n == m) ns

-- A set of numbers, as a list without repetition.
abbrev pub insert_used : ℕ → List ℕ → List ℕ
insert_used n ns = if member n ns then ns else n ∷ ns

module _ {H : Type 0} (face_id : H → ℕ) where
  unfoldable pub used_hops : List H → List ℕ → List ℕ
  used_hops [] ns = ns
  used_hops (h ∷ hops) ns = used_hops hops (insert_used (face_id h) ns)

  -- The ids of all next hops of a table, each of them once.
  unfoldable pub used_ids : Table H → List ℕ → List ℕ
  unfolding used_hops
  used_ids [] ns = ns
  used_ids (e ∷ entries) ns = used_ids entries (used_hops e.next_hops ns)

  -- The ids fit into a `FaceId`.
  abbrev pub IsBoundedTable : Table H → Type 0
  IsBoundedTable entries = All (λ e. All (λ h. face_id h < 2 ^ 64) e.next_hops) entries

abbrev pub IsBounded : List ℕ → Type 0
IsBounded ns = All (λ n. n < 2 ^ 64) ns

-- No number stands in the list twice.
abbrev pub IsDistinct : List ℕ → Type 0
IsDistinct [] = Unit
IsDistinct (n ∷ ns) = (member n ns ≡ false) × IsDistinct ns

insert_used-IsDistinct : (n : ℕ) (ns : List ℕ) → IsDistinct ns → IsDistinct (insert_used n ns)
insert_used-IsDistinct n ns d = elim (Bool-cases (member n ns)) [
  | inl old ↦ rw old d
  | inr new ↦ rw new (new, d)
]

member_eq : (m n : ℕ) (ns : List ℕ) → (m == n) ≡ true → member m ns ≡ member n ns
member_eq m n ns e = let same : m ≡ n = ground arith in ap (λ k. member k ns) same

insert_used-member : (n m : ℕ) (ns : List ℕ) → member n (insert_used m ns) ≡ (n == m || member n ns)
insert_used-member n m ns = elim (Bool-cases (member m ns)) [
  | inl old ↦ elim (Bool-cases (n == m)) [
    | inl same ↦ rw (old, same) (member_eq n m ns same ∙ old)
    | inr other ↦ rw (old, other) refl
  ]
  | inr new ↦ rw new refl
]

module _ {H : Type 0} (face_id : H → ℕ) where
  -- A next hop of the table leads to the face.
  unfoldable pub leads : ℕ → Table H → Bool
  leads n [] = false
  leads n (e ∷ entries) = any (λ h. n == face_id h) e.next_hops || leads n entries

  used_hops-member :
      (n : ℕ) (hops : List H) (ns : List ℕ)
      → member n (used_hops face_id hops ns) ≡ (any (λ h. n == face_id h) hops || member n ns)
  unfolding used_hops
  used_hops-member n [] ns = refl
  used_hops-member n (h ∷ hops) ns = ground (
    arith,
    used_hops-member n hops (insert_used (face_id h) ns),
    insert_used-member n (face_id h) ns,
  )

  used_hops-IsDistinct :
      (hops : List H) (ns : List ℕ) → IsDistinct ns → IsDistinct (used_hops face_id hops ns)
  unfolding used_hops
  used_hops-IsDistinct [] ns d = d
  used_hops-IsDistinct (h ∷ hops) ns d =
      used_hops-IsDistinct hops (insert_used (face_id h) ns)
        (insert_used-IsDistinct (face_id h) ns d)

  pub used_ids-IsDistinct :
      (entries : Table H) (ns : List ℕ) → IsDistinct ns → IsDistinct (used_ids face_id entries ns)
  unfolding used_ids
  used_ids-IsDistinct [] ns d = d
  used_ids-IsDistinct (e ∷ entries) ns d =
      used_ids-IsDistinct entries (used_hops face_id e.next_hops ns)
        (used_hops-IsDistinct e.next_hops ns d)

  -- The set has the faces that the table leads to.
  pub used_ids-leads :
      (n : ℕ) (entries : Table H) (ns : List ℕ)
      → member n (used_ids face_id entries ns) ≡ (leads n entries || member n ns)
  unfolding used_ids leads
  used_ids-leads n [] ns = refl
  used_ids-leads n (e ∷ entries) ns = ground (
    arith,
    used_ids-leads n entries (used_hops face_id e.next_hops ns),
    used_hops-member n e.next_hops ns,
  )
