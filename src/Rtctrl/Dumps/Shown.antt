-- ===== src/Rtctrl/Dumps/Shown.antt =====
-- `rtctrl fibdump` from the command line to the lines that it prints, with the router's own answers.
use f_copss.Rtctrl.Dumps.Used.{
  used_ids-leads, used_ids-IsDistinct, used_ids, leads, IsDistinct, IsBounded, member,
}
use f_copss.Rtctrl.Dumps.Answers.{answer_of, answer_of-fib_reply, answer_of-face_reply}
use f_copss.Prelude.{◌||◌, Bool, ◌>>=◌}
use f_copss.Rtctrl.Dumps.{
  face_dump, is_separator, Asio, Reply, execute_dump, fib_dump, exchange, count_name, dump_requests,
  show, shown, get_face_ids, match_face_id, matching,
}
use f_copss.Rtctrl.Dumps.Text.{decimal-IsNumeral, Numerals, IsNumeral-IsFree, Splits, find-free}
use f_copss.Rtctrl.Dumps.Replies.{receive_dump-dump_reply, IsPlainLine, IsName, dump_response}
use f_copss.Rtctrl.Dumps.Ids.{used_ids-IsBounded, IsShownEntry, get_face_ids-dump_table, has-member}
use f_copss.Rtctrl.Request.{Request, format}
use f_copss.Router.Dumps.{
  LocalTime, dump_fib, dump_faces, dump_reply, face_text, face_ends, fib_hop_text,
}
use f_copss.Router.Fib
use f_copss.Router.FaceManager.{Face}
use f_copss.Router.Forwarder.{Router}
use f_copss.Router.CmdServer.Platform.{Host}
use f_copss.Cd.Printer.{ComponentUri}
use f_copss.Boost.{Boost, IsFree}
use f_copss.Ndn.{Ndn}
use f_copss.Prelude.Decimal.{decimal}
use f_copss.Prelude.Text.{codes}
use f_copss.Prelude.Outcome.{value}
use f_copss.Prelude.{
  ◌==◌, inr, ◌^◌, inl, if◌then◌else◌, length, Bool-cases, ◌<◌, Option, All, ℕ, ◌≡◌, Bytes, List, [],
  ◌∷◌, some, refl, arith, ◌++◌, ap, ◌∙◌, true, false, bytes_eq, map, append-nil, ok, length-map,
}

-- The faces with one of the ids.
abbrev pub keep_used : List ℕ → List Face → List Face
keep_used ns [] = []
keep_used ns (face ∷ faces) =
    if member face.id ns then face ∷ keep_used ns faces else keep_used ns faces

abbrev pub HasBoundedIds : List Face → Type 0
HasBoundedIds faces = All (λ face. face.id < 2 ^ 64) faces

module _ ⦃boost : Boost⦄ ⦃host : Host⦄ ⦃numerals : Numerals⦄ where
  match_face_id-member :
      (face : Face) (ns : List ℕ)
      → face.id < 2 ^ 64
      → IsBounded ns
      → match_face_id (face_text face) (map decimal ns) ≡ member face.id ns
  unfolding match_face_id face_text
  match_face_id-member face ns l b =
      let read = numerals.lexical_cast-decimal (2 ^ 64) face.id l (omega arith) in
      let free =
        IsNumeral-IsFree (λ c. c == b'=') (decimal face.id) (λ c d. ground arith)
          (numerals.lexical_cast-IsNumeral (2 ^ 64) face.id (decimal face.id) read).1 in
      let found = find-free b'=' (decimal face.id) (b'(' ∷ []) (face_ends face) free in
      rw (found, match_face_id) (has-member face.id ns l b)

  matching-keep_used :
      (faces : List Face) (ns : List ℕ)
      → HasBoundedIds faces
      → IsBounded ns
      → matching (map face_text faces) (map decimal ns) ≡ map face_text (keep_used ns faces)
  unfolding matching
  matching-keep_used [] ns a b = refl
  matching-keep_used (face ∷ faces) ns (l, a) b = elim (Bool-cases (member face.id ns)) [
    | inl old ↦
        rw (match_face_id-member face ns l b, old)
          (ap (λ rest. face_text face ∷ rest) (matching-keep_used faces ns a b))
    | inr new ↦ rw (match_face_id-member face ns l b, new) (matching-keep_used faces ns a b)
  ]

-- What the client prints of a table and of the faces.
abbrev pub printed : Bytes → List Bytes → List ℕ → List Face → List Bytes
printed name lines ns faces =
    (name ++ (codes ": " ++ decimal (length lines)))
    ∷ (lines
        ++ ((codes "FACE-COUNT: " ++ decimal (length ns)) ∷ map face_text (keep_used ns faces)))

module _ ⦃asio : Asio⦄ ⦃boost : Boost⦄ ⦃host : Host⦄ ⦃numerals : Numerals⦄ where
  abbrev reply_of : Bytes → List Bytes → Reply
  reply_of name lines = record { response = dump_response name (length lines); body = lines }

  exchange-dump :
      (answer : Bytes → Option Bytes) (name : Bytes → Bytes) (request : Request)
      (requests : List Request) (lines : List Bytes)
      → answer (format request) ≡ some (dump_reply (name request.cmd) lines)
      → IsName (name request.cmd)
      → All IsPlainLine lines
      → length lines < 2 ^ 32
      → exchange answer name (request ∷ requests) [] ≡ (
          exchange answer name requests [] >>= λ replies.
          ok (reply_of (name request.cmd) lines ∷ replies))
  unfolding exchange
  exchange-dump answer name request requests lines e named a l =
      let received = receive_dump-dump_reply (name request.cmd) lines [] named a l in
      let received' = rw append-nil at received in rw (e, exchange, received') refl

  exchange-nil :
      (answer : Bytes → Option Bytes) (name : Bytes → Bytes) → exchange answer name [] [] ≡ ok []
  unfolding exchange
  exchange-nil answer name = refl

  shown-value :
      (name : Bytes) (replies : List Reply) (lines : List Bytes)
      → show name replies ≡ value lines
      → shown name (ok replies) ≡ value (ok lines)
  shown-value name replies lines e = rw (e, shown) refl

  -- Two dumps that the router answers are shown.
  shown-dumps :
      (name : Bytes) (lines : List Bytes) (faces : List Face) (ns : List ℕ)
      → get_face_ids lines [] ≡ map decimal ns
      → IsBounded ns
      → HasBoundedIds faces
      → show name (reply_of name lines ∷ reply_of (codes "FACE-COUNT") (map face_text faces) ∷ [])
        ≡ value (printed name lines ns faces)
  unfolding show bytes_eq
  shown-dumps name lines faces ns e b v =
      rw (e, length-map decimal ns, matching-keep_used faces ns v b) refl

-- What the lines of a dump have to be for the client to take them apart.
module _ ⦃ndn : Ndn⦄ ⦃uri : ComponentUri⦄ where
  pub record IsShowable (router : Router) : Type 0 where
    pub fib_entries : All (IsShownEntry Fib.hop_face) router.fib
    pub fib_lines : All IsPlainLine (dump_fib router.fib)
    pub face_lines : All IsPlainLine (dump_faces router.faces)
    pub face_ids : HasBoundedIds router.faces.face_table
    pub fib_count : length (dump_fib router.fib) < 2 ^ 32
    pub face_count : length (dump_faces router.faces) < 2 ^ 32

or_false : (b : Bool) → (b || false) ≡ b
or_false true = refl
or_false false = refl

cost-IsFree : (hop : Fib.NextHop) → IsFree is_separator (decimal hop.cost)
cost-IsFree hop =
    IsNumeral-IsFree is_separator (decimal hop.cost) (λ c d. ground arith)
      (decimal-IsNumeral hop.cost)

fib_hop_text_lem :
    (hop : Fib.NextHop)
    → fib_hop_text hop ≡ b'(' ∷ (decimal hop.face_id ++ (b',' ∷ (decimal hop.cost ++ (b')' ∷ []))))
unfolding fib_hop_text
fib_hop_text_lem hop = refl

module _ ⦃asio : Asio⦄ ⦃boost : Boost⦄ ⦃ndn : Ndn⦄ ⦃host : Host⦄ ⦃uri : ComponentUri⦄
    ⦃time : LocalTime⦄ ⦃numerals : Numerals⦄ ⦃splits : Splits⦄ where
  fib_exchange :
      (router : Router)
      → IsShowable router
      → exchange
          (answer_of router)
          (count_name (codes "FIB-DUMP") (codes "FIB-COUNT"))
          (dump_requests (codes "FIB-DUMP"))
          []
        ≡ ok (
            reply_of (codes "FIB-COUNT") (dump_fib router.fib)
            ∷ reply_of (codes "FACE-COUNT") (dump_faces router.faces)
            ∷ [])
  unfolding bytes_eq
  fib_exchange router s =
      let name = count_name (codes "FIB-DUMP") (codes "FIB-COUNT") in
      let second =
        exchange-dump (answer_of router) name (record { cmd = codes "FACE-DUMP"; param = [] }) []
          (dump_faces router.faces) (answer_of-face_reply router) (ground arith) s.face_lines
          s.face_count in
      exchange-dump (answer_of router) name (record { cmd = codes "FIB-DUMP"; param = [] })
        (record { cmd = codes "FACE-DUMP"; param = [] } ∷ []) (dump_fib router.fib)
        (answer_of-fib_reply router) (ground arith) s.fib_lines s.fib_count
      ∙ ap (λ r. r >>= λ replies. ok (reply_of (codes "FIB-COUNT") (dump_fib router.fib) ∷ replies))
          (second
            ∙ ap
                (λ r. r >>= λ replies.
                  ok (reply_of (codes "FACE-COUNT") (dump_faces router.faces) ∷ replies))
                (exchange-nil (answer_of router) name))

  -- `rtctrl fibdump` prints the number and the texts of the routes of the router that answers it, the
  -- number of the different faces that they lead to, and of the router's faces exactly these in their
  -- order; if the names have no equals sign, the lines no carriage return, ids and counts fit, and
  -- every entry has a next hop.
  pub fib_dump-prints :
      (router : Router) (argv : List Bytes)
      → length argv ≡ 2
      → IsShowable router
      → (ids : List ℕ) × IsDistinct ids
        × ((id : ℕ) → member id ids ≡ leads Fib.hop_face id router.fib)
        × (fib_dump (answer_of router) argv
            ≡ value (
                ok (printed (codes "FIB-COUNT") (dump_fib router.fib) ids router.faces.face_table)))
  unfolding execute_dump dump_faces
  fib_dump-prints router argv two s =
      let enough : (length argv == 2) ≡ true = ground arith in
      let ns = used_ids Fib.hop_face router.fib [] in
      let ids =
        get_face_ids-dump_table Fib.hop_face (λ hop. decimal hop.cost) fib_hop_text fib_hop_text_lem
          cost-IsFree router.fib [] s.fib_entries tt in
      let bounded =
        used_ids-IsBounded Fib.hop_face (λ hop. decimal hop.cost) fib_hop_text fib_hop_text_lem
          cost-IsFree router.fib [] s.fib_entries tt in
      (
        ns,
        used_ids-IsDistinct Fib.hop_face router.fib [] tt,
        (λ id.
            used_ids-leads Fib.hop_face id router.fib []
            ∙ or_false (leads Fib.hop_face id router.fib)),
        rw (enough, fib_exchange router s)
            (shown-value (codes "FIB-COUNT")
              (reply_of (codes "FIB-COUNT") (dump_fib router.fib)
                ∷ reply_of (codes "FACE-COUNT") (dump_faces router.faces)
                ∷ [])
              _
              (shown-dumps (codes "FIB-COUNT") (dump_fib router.fib) router.faces.face_table ns ids
                bounded s.face_ids)),
      )

  -- `rtctrl facedump` prints all faces of the router that answers it, in their order.
  pub face_dump-prints :
      (router : Router) (argv : List Bytes)
      → length argv ≡ 2
      → All IsPlainLine (dump_faces router.faces)
      → length (dump_faces router.faces) < 2 ^ 32
      → face_dump (answer_of router) argv
        ≡ value (
            ok (
              codes "COMMAND: FACE-DUMP"
              ∷ codes "RESULT: OK"
              ∷ (codes "FACE-COUNT: " ++ decimal (length (dump_faces router.faces)))
              ∷ dump_faces router.faces))
  unfolding face_dump bytes_eq
  face_dump-prints router argv two lines count =
      let enough : (length argv == 2) ≡ true = ground arith in
      let name = λ (cmd : Bytes). codes "FACE-COUNT" in
      let exchanged =
        exchange-dump (answer_of router) name (record { cmd = codes "FACE-DUMP"; param = [] }) []
          (dump_faces router.faces) (answer_of-face_reply router) (ground arith) lines count
        ∙ ap
            (λ r. r >>= λ replies.
              ok (reply_of (codes "FACE-COUNT") (dump_faces router.faces) ∷ replies))
            (exchange-nil (answer_of router) name) in
      rw (enough, exchanged) (rw append-nil refl)
