-- ===== src/Rtctrl/Dumps/Ids.antt =====
-- The face ids that the client finds in the lines of a table are those of its next hops.
use f_copss.Rtctrl.Dumps.Used.{member, insert_used, used_hops, used_ids, IsBounded}
use f_copss.Rtctrl.Dumps.{
  has, insert_id, insert_numbers, is_number, right_side, get_face_id, get_face_ids, is_separator,
}
use f_copss.Rtctrl.Dumps.Text.{Numerals, IsNumeral, IsNumeral-IsFree, Splits, find-free, is_numeral}
use f_copss.Router.Dumps.{hops_text, entry_text, dump_table}
use f_copss.Router.Table.{Table, Entry}
use f_copss.Router.Table.Invariant.{IsUsed}
use f_copss.Router.CmdServer.Platform.{Host}
use f_copss.Cd.Printer.{ComponentUri, to_uri}
use f_copss.Boost.{Boost, IsFree}
use f_copss.Prelude.Decimal.{decimal}
use f_copss.Prelude.{
  append-nil, append_assoc, inr, inl, Bool-cases, ◌^◌, ◌==◌, Option-cases, ◌≡◌, ◌<◌, All, Bytes,
  List, ℕ, [], ◌∷◌, refl, arith, ◌++◌, ap, ◌∙◌, true, false, bytes_eq_iff, bytes_eq, map, sym,
}

module _ ⦃boost : Boost⦄ ⦃host : Host⦄ ⦃numerals : Numerals⦄ where
  decimal_eq : (m n : ℕ) → m < 2 ^ 64 → n < 2 ^ 64 → bytes_eq (decimal m) (decimal n) ≡ (m == n)
  decimal_eq m n l k =
      let read_m = numerals.lexical_cast-decimal (2 ^ 64) m l (omega arith) in
      let read_n = numerals.lexical_cast-decimal (2 ^ 64) n k (omega arith) in
      elim (Bool-cases (m == n)) [
        | inl same ↦
            let e : m ≡ n = ground arith in
            (bytes_eq_iff (decimal m) (decimal n)).1 (ap decimal e) ∙ sym same
        | inr other ↦ elim (Bool-cases (bytes_eq (decimal m) (decimal n))) [
          | inl same ↦
              let text = (bytes_eq_iff (decimal m) (decimal n)).0 same in
              let e = sym read_m ∙ ap (host.lexical_cast (2 ^ 64)) text ∙ read_n in ground arith
          | inr differs ↦ differs ∙ sym other
        ]
      ]

  pub has-member :
      (n : ℕ) (ns : List ℕ)
      → n < 2 ^ 64
      → IsBounded ns
      → has (decimal n) (map decimal ns) ≡ member n ns
  has-member n [] l b = refl
  has-member n (m ∷ ns) l (k, b) = rw (decimal_eq n m l k, has-member n ns l b) refl

  insert_id-decimal :
      (n : ℕ) (ns : List ℕ)
      → n < 2 ^ 64
      → IsBounded ns
      → insert_id (decimal n) (map decimal ns) ≡ map decimal (insert_used n ns)
  insert_id-decimal n ns l b = elim (Bool-cases (member n ns)) [
    | inl old ↦ rw (has-member n ns l b, old) refl
    | inr new ↦ rw (has-member n ns l b, new) refl
  ]

  insert_used-IsBounded :
      (n : ℕ) (ns : List ℕ) → n < 2 ^ 64 → IsBounded ns → IsBounded (insert_used n ns)
  insert_used-IsBounded n ns l b = elim (Bool-cases (member n ns)) [
    | inl old ↦ rw old b
    | inr new ↦ rw new (l, b)
  ]

  is_number-decimal : (n : ℕ) → n < 2 ^ 64 → is_number (decimal n) ≡ true
  unfolding is_number
  is_number-decimal n l =
      rw (numerals.lexical_cast-decimal (2 ^ 64) n l (omega arith), is_number) refl

  -- A text with a closing parenthesis at its end is no number, and neither is the empty one.
  is_number-false : (s : Bytes) → ¬ IsNumeral s → is_number s ≡ false
  unfolding is_number
  is_number-false s differs = elim (Option-cases (host.lexical_cast (2 ^ 64) s)) [
    | inl e ↦ rw (e, is_number) refl
    | inr (n, e) ↦ absurd (differs (numerals.lexical_cast-IsNumeral (2 ^ 64) n s e))
  ]

  closed-IsNumeral : (s : Bytes) → ¬ All (λ c. is_numeral c ≡ true) (s ++ (b')' ∷ []))
  closed-IsNumeral [] (e, a) = cc
  closed-IsNumeral (c ∷ s) (e, a) = closed-IsNumeral s a

module _ {H : Type 0} (face_id : H → ℕ) ⦃uri : ComponentUri⦄ where
  -- An entry as the tables keep it: with a next hop, and a name without an equals sign.
  abbrev pub IsShownEntry : Entry H → Type 0
  IsShownEntry e =
      IsUsed e.next_hops
      × All (λ h. face_id h < 2 ^ 64) e.next_hops
      × IsFree (λ c. c == b'=') (to_uri e.cd)

-- The text of a next hop, as both tables write it: the id of the face, and a text without separators.
module _ {H : Type 0} (face_id : H → ℕ) (tail : H → Bytes) (hop_text : H → Bytes)
    (hop_text_lem : (h : H)
      → hop_text h ≡ b'(' ∷ (decimal (face_id h) ++ (b',' ∷ (tail h ++ (b')' ∷ [])))))
    (tail-IsFree : (h : H) → IsFree is_separator (tail h)) ⦃boost : Boost⦄ ⦃host : Host⦄
    ⦃numerals : Numerals⦄ ⦃splits : Splits⦄ where
  decimal-IsFree : (n : ℕ) → n < 2 ^ 64 → IsFree is_separator (decimal n)
  decimal-IsFree n l =
      let read = numerals.lexical_cast-decimal (2 ^ 64) n l (omega arith) in
      IsNumeral-IsFree is_separator (decimal n) (λ c d. ground arith)
        (numerals.lexical_cast-IsNumeral (2 ^ 64) n (decimal n) read).1

  closed-IsFree : (s : Bytes) → IsFree is_separator s → IsFree is_separator (s ++ (b')' ∷ []))
  closed-IsFree [] f = (refl, tt)
  closed-IsFree (c ∷ s) (e, f) = (e, closed-IsFree s f)

  split_one : (w : Bytes) → IsFree is_separator w → boost.split is_separator w ≡ w ∷ []
  split_one w f = boost.split-join is_separator b'(' w [] refl f tt

  split_hop :
      (w s : Bytes) (h : H)
      → IsFree is_separator w
      → face_id h < 2 ^ 64
      → boost.split is_separator (w ++ (hop_text h ++ s))
        ≡ w ∷ decimal (face_id h) ∷ boost.split is_separator ((tail h ++ (b')' ∷ [])) ++ s)
  split_hop w s h f l =
      let id = decimal (face_id h) in
      let text : w ++ (hop_text h ++ s)
          ≡ w ++ (b'(' ∷ (id ++ (b',' ∷ ((tail h ++ (b')' ∷ [])) ++ s)))) =
        rw (hop_text_lem h) (simp append_assoc) in
      ap (boost.split is_separator) text
      ∙ splits.split-cons is_separator b'(' w _ refl f
      ∙ ap (λ words. w ∷ words)
          (splits.split-cons is_separator b',' id _ refl (decimal-IsFree (face_id h) l))

  insert_numbers-other :
      (w : Bytes) (words ids : List Bytes)
      → is_number w ≡ false
      → insert_numbers (w ∷ words) ids ≡ insert_numbers words ids
  unfolding insert_numbers
  insert_numbers-other w words ids e = rw e refl

  insert_numbers-decimal :
      (n : ℕ) (words : List Bytes) (ns : List ℕ)
      → n < 2 ^ 64
      → IsBounded ns
      → insert_numbers (decimal n ∷ words) (map decimal ns)
        ≡ insert_numbers words (map decimal (insert_used n ns))
  unfolding insert_numbers
  insert_numbers-decimal n words ns l v =
      rw (is_number-decimal n l) (ap (insert_numbers words) (insert_id-decimal n ns l v))

  -- What stands before the next hops is no number, and neither is what closes one of them.
  insert_numbers-hops :
      (w : Bytes) (hops : List H) (ns : List ℕ)
      → IsFree is_separator w
      → is_number w ≡ false
      → All (λ h. face_id h < 2 ^ 64) hops
      → IsBounded ns
      → insert_numbers (boost.split is_separator (w ++ hops_text hop_text hops)) (map decimal ns)
        ≡ map decimal (used_hops face_id hops ns)
  unfolding hops_text used_hops
  insert_numbers-hops w [] ns f n b v =
      rw (append-nil w, split_one w f)
        (insert_numbers-other w [] (map decimal ns) n ∙ unfold insert_numbers in refl)
  insert_numbers-hops w (h ∷ hops) ns f n (l, b) v =
      let closed = tail h ++ (b')' ∷ []) in
      let no_number = is_number-false closed (λ (long, digits). closed-IsNumeral (tail h) digits) in
      ap (λ words. insert_numbers words (map decimal ns))
        (split_hop w (hops_text hop_text hops) h f l)
      ∙ insert_numbers-other w _ _ n
      ∙ insert_numbers-decimal (face_id h) _ ns l v
      ∙ insert_numbers-hops closed hops (insert_used (face_id h) ns)
          (closed-IsFree (tail h) (tail-IsFree h)) no_number b
          (insert_used-IsBounded (face_id h) ns l v)

  pub used_hops-IsBounded :
      (hops : List H) (ns : List ℕ)
      → All (λ h. face_id h < 2 ^ 64) hops
      → IsBounded ns
      → IsBounded (used_hops face_id hops ns)
  unfolding used_hops
  used_hops-IsBounded [] ns b v = v
  used_hops-IsBounded (h ∷ hops) ns (l, b) v =
      used_hops-IsBounded hops (insert_used (face_id h) ns) b
        (insert_used-IsBounded (face_id h) ns l v)

  module _ ⦃uri : ComponentUri⦄ where
    hops_text-used :
        (hops : List H) → IsUsed hops → (rest : Bytes) × (hops_text hop_text hops ≡ b'(' ∷ rest)
    unfolding hops_text
    hops_text-used [] used = absurd used
    hops_text-used (h ∷ hops) used =
        (_, ap (λ text. text ++ hops_text hop_text hops) (hop_text_lem h))

    right_side-entry :
        (e : Entry H)
        → IsShownEntry face_id e
        → right_side (entry_text hop_text e) ≡ hops_text hop_text e.next_hops
    unfolding right_side
    right_side-entry e (used, b, f) =
        let (rest, text) = hops_text-used e.next_hops used in
        let found = find-free b'=' (to_uri e.cd) (b'(' ∷ []) rest f in
        rw text (rw (found, right_side) refl)

    get_face_id-entry :
        (e : Entry H) (ns : List ℕ)
        → IsShownEntry face_id e
        → IsBounded ns
        → get_face_id (entry_text hop_text e) (map decimal ns)
          ≡ map decimal (used_hops face_id e.next_hops ns)
    unfolding get_face_id
    get_face_id-entry e ns (used, b, f) v =
        let empty = is_number-false [] (λ (long, digits). omega (arith, long)) in
        ap (λ side. insert_numbers (boost.split is_separator side) (map decimal ns))
          (right_side-entry e (used, b, f))
        ∙ insert_numbers-hops [] e.next_hops ns tt empty b v

    pub get_face_ids-dump_table :
        (entries : Table H) (ns : List ℕ)
        → All (IsShownEntry face_id) entries
        → IsBounded ns
        → get_face_ids (dump_table hop_text entries) (map decimal ns)
          ≡ map decimal (used_ids face_id entries ns)
    unfolding get_face_ids dump_table used_ids
    get_face_ids-dump_table [] ns a v = refl
    get_face_ids-dump_table (e ∷ entries) ns ((used, b, f), a) v =
        ap (get_face_ids (dump_table hop_text entries)) (get_face_id-entry e ns (used, b, f) v)
        ∙ get_face_ids-dump_table entries (used_hops face_id e.next_hops ns) a
            (used_hops-IsBounded e.next_hops ns b v)

    pub used_ids-IsBounded :
        (entries : Table H) (ns : List ℕ)
        → All (IsShownEntry face_id) entries
        → IsBounded ns
        → IsBounded (used_ids face_id entries ns)
    unfolding used_ids
    used_ids-IsBounded [] ns a v = v
    used_ids-IsBounded (e ∷ entries) ns ((used, b, f), a) v =
        used_ids-IsBounded entries (used_hops face_id e.next_hops ns) a
          (used_hops-IsBounded e.next_hops ns b v)
