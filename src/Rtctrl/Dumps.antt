-- ===== src/Rtctrl/Dumps.antt =====
-- src/rtctrl/cmd-fibdump.cpp, cmd-stdump.cpp and cmd-facedump.cpp: what the control client reads and
-- prints of a dump, and the session of src/rtctrl/cmd.cpp.
pub mod Text
pub mod Replies
pub mod Used
pub mod Ids
pub mod Answers
pub mod Shown
use f_copss.Rtctrl.Request.{Request, format}
use f_copss.Rtctrl.Response.{Response, no_response, set_header}
use f_copss.Rtctrl.Param.{Param}
use f_copss.Router.CmdServer.Reader.{lookup}
use f_copss.Router.CmdServer.Platform.{Host}
use f_copss.Boost.{Boost}
use f_copss.Prelude.Decimal.{decimal}
use f_copss.Prelude.Text.{codes}
use f_copss.Prelude.Outcome.{runs_on, Outcome, value, out_of_bounds}
use f_copss.Prelude.{
  bad_argument, length, true, not, ◌&&◌, false, ◌||◌, ◌≡◌, bytes_eq, any, ◌^◌, if◌then◌else◌,
  Result, ◌==◌, Option, Bool, List, ℕ, Bytes, [], ◌∷◌, ok, err, none, some, map, ◌++◌, ◌>>=◌, suc,
  zero, not_received, not_sent, bad_cast,
}

-- The text at the front, taken away.
unfoldable pub strip : Bytes → Bytes → Option Bytes
strip [] s = some s
strip (c ∷ w) [] = none
strip (c ∷ w) (d ∷ s) = if c == d then strip w s else none

abbrev pub onto_front : ℕ → Option (Bytes × Bytes) → Option (Bytes × Bytes)
onto_front c none = none
onto_front c (some (before, behind)) = some (c ∷ before, behind)

-- `find`: what stands before the first place of a text, and behind it.
unfoldable pub find : Bytes → Bytes → Option (Bytes × Bytes)
unfolding strip
find w [] = elim (strip w []) [ none ↦ none | some behind ↦ some ([], behind) ]
find w (c ∷ s) =
    let later = find w s in
    elim (strip w (c ∷ s)) [ none ↦ onto_front c later | some behind ↦ some ([], behind) ]

abbrev pub with_delimiter : Bytes → Option (Bytes × Bytes) → Option (Bytes × Bytes)
with_delimiter w none = none
with_delimiter w (some (before, behind)) = some (before ++ w, behind)

-- `read_until` of Boost.Asio on what a stream still brings: the octets up to the first delimiter and
-- with it, and what is left; `none` is the error when the stream ends before.
pub record Asio : Type 0 where
  pub read_until : Bytes → Bytes → Option (Bytes × Bytes)
  pub read_until_lem : (w stream : Bytes) → read_until w stream ≡ with_delimiter w (find w stream)

-- A response with its `m_body`.
pub record Reply : Type 0 where
  pub response : Response
  pub body : List Bytes

abbrev pub is_feed : ℕ → Bool
is_feed c = c == 10

abbrev pub is_return : ℕ → Bool
is_return c = c == 13

-- The characters of `is_any_of("(,")`.
abbrev pub is_separator : ℕ → Bool
is_separator c = c == b'(' || c == b','

-- `m_header[key]`.
abbrev pub header_at : Bytes → Response → Bytes
header_at key response = elim (lookup key response.header) [ none ↦ [] | some text ↦ text ]

abbrev pub trim_line : ⦃boost : Boost⦄ → Bytes → Bytes
trim_line ⦃boost⦄ line = boost.trim_right_if is_return (boost.trim_right_if is_feed line)

module _ ⦃asio : Asio⦄ ⦃boost : Boost⦄ where
  -- `Cmd::receive`: the response, and what the stream still brings.
  unfoldable pub receive : Bytes → Result (Response × Bytes)
  unfolding set_header
  receive stream = elim (asio.read_until (13 ∷ 10 ∷ 13 ∷ 10 ∷ []) stream) [
    | none ↦ err not_received
    | some (header, rest) ↦ ok (set_header header no_response, rest)
  ]

  -- `receiveBody`, for the lines that are left.
  unfoldable pub receive_body : ℕ → Bytes → Result (List Bytes × Bytes)
  receive_body zero stream = ok ([], stream)
  receive_body (suc n) stream = elim (asio.read_until (13 ∷ 10 ∷ []) stream) [
    | none ↦ err not_received
    | some (line, rest) ↦ do
      (lines, rest') ← receive_body n rest
      ok (trim_line line ∷ lines, rest')
  ]

  module _ ⦃host : Host⦄ where
    -- `boost::lexical_cast<uint32_t>`; its exception is no `Error`.
    abbrev pub count_of : Bytes → Result ℕ
    count_of text = elim (host.lexical_cast (2 ^ 32) text) [ none ↦ err bad_cast | some n ↦ ok n ]

    -- `receive` of a dump whose count has this name.
    unfoldable pub receive_dump : Bytes → Bytes → Result (Reply × Bytes)
    unfolding receive receive_body
    receive_dump name stream = do
      (response, rest) ← receive stream
      count ← count_of (header_at name response)
      (body, rest') ← receive_body count rest
      ok (record { response = response; body = body }, rest')

    -- `CmdFibDump::receive` and `CmdStDump::receive`: the name that the count of a request has.
    abbrev pub count_name : Bytes → Bytes → Bytes → Bytes
    count_name table name cmd = if bytes_eq cmd table then name else codes "FACE-COUNT"

    -- The loop of `Cmd::execute`. The router's answer to the text of a request is what the stream
    -- brings next; `none` is the error of a write.
    unfoldable pub exchange :
        (Bytes → Option Bytes) → (Bytes → Bytes) → List Request → Bytes → Result (List Reply)
    unfolding receive_dump
    exchange answer name [] stream = ok []
    exchange answer name (request ∷ requests) stream = elim (answer (format request)) [
      | none ↦ err not_sent
      | some text ↦ do
        (reply, rest) ← receive_dump (name request.cmd) (stream ++ text)
        replies ← exchange answer name requests rest
        ok (reply ∷ replies)
    ]

abbrev pub has : Bytes → List Bytes → Bool
has id ids = any (bytes_eq id) ids

-- A `set<string>`, of which only the size and the members are used.
abbrev pub insert_id : Bytes → List Bytes → List Bytes
insert_id id ids = if has id ids then ids else id ∷ ids

module _ ⦃host : Host⦄ ⦃boost : Boost⦄ where
  unfoldable pub is_number : Bytes → Bool
  is_number text = elim (host.lexical_cast (2 ^ 64) text) [ none ↦ false | some n ↦ true ]

  -- The loop of `getFaceId`.
  unfoldable pub insert_numbers : List Bytes → List Bytes → List Bytes
  unfolding is_number
  insert_numbers [] ids = ids
  insert_numbers (word ∷ words) ids =
      insert_numbers words (if is_number word then insert_id word ids else ids)

  unfoldable pub right_side : Bytes → Bytes
  unfolding find
  right_side line = elim (find (codes "=(") line) [
    | none ↦ line
    | some (before, behind) ↦ b'(' ∷ behind
  ]

  unfoldable pub get_face_id : Bytes → List Bytes → List Bytes
  unfolding insert_numbers right_side
  get_face_id line ids = insert_numbers (boost.split is_separator (right_side line)) ids

  unfoldable pub get_face_ids : List Bytes → List Bytes → List Bytes
  unfolding get_face_id
  get_face_ids [] ids = ids
  get_face_ids (line ∷ lines) ids = get_face_ids lines (get_face_id line ids)

  unfoldable pub match_face_id : Bytes → List Bytes → Bool
  unfolding find
  match_face_id face ids = elim (find (codes "=(") face) [
    | none ↦ has face ids
    | some (before, behind) ↦ has before ids
  ]

  unfoldable pub matching : List Bytes → List Bytes → List Bytes
  unfolding match_face_id
  matching [] ids = []
  matching (face ∷ faces) ids =
      if match_face_id face ids then face ∷ matching faces ids else matching faces ids

  abbrev pub is_ok : Reply → Bool
  is_ok reply = bytes_eq reply.response.result (codes "OK")

  -- `show`: the lines that it prints. The texts of two failures end in a read of the third response.
  unfoldable pub show : Bytes → List Reply → Outcome (List Bytes)
  unfolding get_face_ids matching
  show name (table ∷ faces ∷ []) =
      let ids = get_face_ids table.body [] in
      if is_ok table && is_ok faces
      then value (
          (name ++ (codes ": " ++ decimal (length table.body)))
          ∷ (table.body
              ++ ((codes "FACE-COUNT: " ++ decimal (length ids)) ∷ matching faces.body ids)))
      else out_of_bounds
  show name _ = out_of_bounds

-- `parse` of the dumps.
abbrev pub dump_requests : Bytes → List Request
dump_requests table =
    record { cmd = table; param = [] } ∷ record { cmd = codes "FACE-DUMP"; param = [] } ∷ []

module _ ⦃asio : Asio⦄ ⦃boost : Boost⦄ ⦃host : Host⦄ where
  abbrev pub shown : Bytes → Result (List Reply) → Outcome (Result (List Bytes))
  shown name (err error) = value (err error)
  shown name (ok replies) = elim (show name replies) [
    | value lines ↦ value (ok lines)
    | out_of_bounds ↦ out_of_bounds
    | runs_on ↦ runs_on
  ]

  -- `execute` of `fibdump` and `stdump`, once the connection is there.
  unfoldable pub execute_dump :
      Bytes → Bytes → (Bytes → Option Bytes) → List Bytes → Outcome (Result (List Bytes))
  unfolding exchange show
  execute_dump table name answer argv =
      if not (length argv == 2)
      then value (err bad_argument)
      else shown name (exchange answer (count_name table name) (dump_requests table) [])

  abbrev pub fib_dump : (Bytes → Option Bytes) → List Bytes → Outcome (Result (List Bytes))
  fib_dump answer argv = execute_dump (codes "FIB-DUMP") (codes "FIB-COUNT") answer argv

  abbrev pub st_dump : (Bytes → Option Bytes) → List Bytes → Outcome (Result (List Bytes))
  st_dump answer argv = execute_dump (codes "ST-DUMP") (codes "ST-COUNT") answer argv

-- `Cmd::show`: the lines for the pairs of a map, and for one command.
unfoldable pub show_pairs : Param → List Bytes
show_pairs [] = []
show_pairs ((key, text) ∷ param) = (key ++ (codes ": " ++ text)) ∷ show_pairs param

abbrev pub show_reason : Response → List Bytes
show_reason response =
    if not (bytes_eq response.result (codes "OK"))
    then (codes "REASON: " ++ response.reason) ∷ []
    else []

abbrev pub show_reply : Request → Reply → List Bytes
show_reply request reply =
    ((codes "COMMAND: " ++ request.cmd) ∷ show_pairs request.param)
    ++ (((codes "RESULT: " ++ reply.response.result) ∷ show_reason reply.response)
        ++ (show_pairs reply.response.header ++ reply.body))

-- There is a request for every response.
unfoldable pub show_replies : List Request → List Reply → Outcome (List Bytes)
unfolding show_pairs
show_replies requests [] = value []
show_replies [] (reply ∷ replies) = out_of_bounds
show_replies (request ∷ requests) (reply ∷ replies) = elim (show_replies requests replies) [
  | value lines ↦ value (show_reply request reply ++ lines)
  | out_of_bounds ↦ out_of_bounds
  | runs_on ↦ runs_on
]

abbrev pub face_dump_requests : List Request
face_dump_requests = record { cmd = codes "FACE-DUMP"; param = [] } ∷ []

module _ ⦃asio : Asio⦄ ⦃boost : Boost⦄ ⦃host : Host⦄ where
  abbrev pub shown_replies : List Request → Result (List Reply) → Outcome (Result (List Bytes))
  shown_replies requests (err error) = value (err error)
  shown_replies requests (ok replies) = elim (show_replies requests replies) [
    | value lines ↦ value (ok lines)
    | out_of_bounds ↦ out_of_bounds
    | runs_on ↦ runs_on
  ]

  -- `execute` of `facedump`, once the connection is there.
  unfoldable pub face_dump : (Bytes → Option Bytes) → List Bytes → Outcome (Result (List Bytes))
  unfolding exchange show_replies
  face_dump answer argv =
      if not (length argv == 2)
      then value (err bad_argument)
      else shown_replies face_dump_requests
          (exchange answer (λ cmd. codes "FACE-COUNT") face_dump_requests [])
