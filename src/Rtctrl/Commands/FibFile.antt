-- ===== src/Rtctrl/Commands/FibFile.antt =====
-- src/rtctrl/cmd-fibadd.cpp: `rtctrl fibadd -f FILE`. A file of Boost.PropertyTree is what
-- `get_optional<string>` finds under a path; an exception of any class becomes an `Error`.
use f_copss.Rtctrl.Commands.{parse_from_arg}
use f_copss.Rtctrl.Request.{Request}
use f_copss.Router.CmdServer.Reader.{is_space}
use f_copss.Router.CmdServer.Platform.{Host}
use f_copss.Prelude.Text.{codes}
use f_copss.Cd.Printer.{ComponentUri}
use f_copss.Rtctrl.Arguments.{
  set_param_cost, set_param_remote, set_param_type, set_param_name, remove_if, to_string, Network,
}
use f_copss.Ndn.{Ndn}
use f_copss.Boost.{Boost}
use f_copss.Prelude.Outcome.{Outcome, value, runs_on}
use f_copss.Prelude.{
  zero, drop, any, length, not, ◌||◌, bytes_eq, if◌then◌else◌, bad_argument, false, err, suc, true,
  ◌==◌, ok, ◌++◌, Bool, Result, ℕ, none, some, [], ◌∷◌, ◌>>=◌, List, Option, Bytes, ◌+◌, ◌%◌, ◌^◌,
}
use f_copss.Prelude.Outcome.{out_of_bounds}

abbrev pub Tree : Type 0
Tree = Bytes → Option Bytes

-- `read_ini`; `none` is its exception.
pub record IniParser : Type 0 where
  pub read_ini : Bytes → Option Tree

-- `tree.get<string>` of a key with a number.
abbrev pub get_numbered : Bytes → ℕ → Tree → Result Bytes
get_numbered key x tree = elim (tree (key ++ to_string x)) [
  | none ↦ err bad_argument
  | some text ↦ ok text
]

-- A loop or a call that may raise, and what follows it.
abbrev pub and_ok {ℓ κ} :
    {A : Type ℓ} {B : Type κ} → Outcome (Result A) → (A → Outcome (Result B)) → Outcome (Result B)
and_ok (value (ok a)) next = next a
and_ok (value (err error)) next = value (err error)
and_ok out_of_bounds next = out_of_bounds
and_ok runs_on next = runs_on

abbrev pub is_comma : ℕ → Bool
is_comma c = c == b','

abbrev is_empty_word : Bytes → Bool
is_empty_word [] = true
is_empty_word (c ∷ s) = false

abbrev pub first_word : List Bytes → Bytes
first_word [] = []
first_word (w ∷ ws) = w

module _ ⦃boost : Boost⦄ where
  -- The loop over `FACES.FaceId0`, `FACES.FaceId1` and so on, with a `uint16_t` that counts, for so many
  -- rounds at most. It ends at the face or at the first number that is missing.
  unfoldable pub find_type_remote : ℕ → ℕ → Bytes → Tree → Outcome (Result (Bytes × Bytes))
  find_type_remote zero x face tree = runs_on
  find_type_remote (suc n) x face tree =
      let later = find_type_remote n ((x + 1) % 2 ^ 16) face tree in
      elim (tree (codes "FACES.FaceId" ++ to_string x)) [
        | none ↦ value (err bad_argument)
        | some id ↦
            if bytes_eq face (boost.trim_if is_space id)
            then value (do
              type ← get_numbered (codes "FACES.Protocol") x tree
              remote ← get_numbered (codes "FACES.Remote") x tree
              ok (type, remote))
            else later
      ]

module _ ⦃boost : Boost⦄ ⦃network : Network⦄ where
  unfoldable pub split_csv : Bytes → Result (List Bytes)
  split_csv csv =
      let text = remove_if is_space csv in
      let params = boost.split is_comma text in
      if is_empty_word text || any is_empty_word params then err bad_argument else ok params

  -- `getFaces` and `getCosts`.
  abbrev pub get_list : Bytes → ℕ → Tree → Result (List Bytes)
  get_list key x tree = do csv ← get_numbered key x tree; split_csv csv

module _ ⦃ndn : Ndn⦄ ⦃boost : Boost⦄ ⦃uri : ComponentUri⦄ ⦃network : Network⦄ ⦃host : Host⦄
    (router_port : ℕ) where
  abbrev pub route_request : Bytes → Bytes × Bytes → Bytes → Result Request
  route_request name (type, remote) cost = do
    named ← set_param_name name []
    typed ← set_param_type type named
    routed ← set_param_remote remote router_port typed
    param ← set_param_cost cost routed
    ok (record { cmd = codes "FIB-ADD"; param = param })

  -- The requests for the next hops of one name, in order.
  unfoldable pub hop_requests :
      ℕ → Bytes → Tree → List Bytes → List Bytes → Outcome (Result (List Request))
  unfolding find_type_remote
  hop_requests rounds name tree (face ∷ faces) (cost ∷ costs) =
      and_ok (find_type_remote rounds 0 face tree) λ ends.
        and_ok (value (route_request name ends cost)) λ request.
          and_ok (hop_requests rounds name tree faces costs)
            λ requests. value (ok (request ∷ requests))
  hop_requests rounds name tree _ _ = value (ok [])

  -- The loop over `FIB.Name0`, `FIB.Name1` and so on.
  unfoldable pub route_requests : ℕ → ℕ → ℕ → Tree → Outcome (Result (List Request))
  unfolding hop_requests split_csv
  route_requests rounds zero x tree = runs_on
  route_requests rounds (suc n) x tree = elim (tree (codes "FIB.Name" ++ to_string x)) [
    | none ↦ value (if x == 0 then err bad_argument else ok [])
    | some name ↦ and_ok (value (get_list (codes "FIB.NextHop") x tree)) λ faces.
        and_ok (value (get_list (codes "FIB.Cost") x tree)) λ costs.
          if not (length faces == length costs)
          then value (err bad_argument)
          else (and_ok (hop_requests rounds name tree faces costs) λ requests.
              and_ok (route_requests rounds n ((x + 1) % 2 ^ 16) tree)
                λ others. value (ok (requests ++ others)))
  ]

  -- All routes are deleted first.
  unfoldable pub parse_from_file : ⦃ini : IniParser⦄ → ℕ → Bytes → Outcome (Result (List Request))
  unfolding route_requests
  parse_from_file ⦃ini⦄ rounds path = elim (ini.read_ini path) [
    | none ↦ value (err bad_argument)
    | some tree ↦
        and_ok (route_requests rounds rounds 0 tree)
          λ requests. value (ok (record { cmd = codes "FIB-DEL"; param = [] } ∷ requests))
  ]

  -- `argv[2]` and `argv[3]`.
  unfoldable pub parse_option : ⦃ini : IniParser⦄ → ℕ → List Bytes → Outcome (Result (List Request))
  unfolding parse_from_file
  parse_option rounds [] = value (err bad_argument)
  parse_option rounds (option ∷ rest) =
      if not (bytes_eq option (codes "-f"))
      then value (err bad_argument)
      else parse_from_file rounds (first_word rest)

  -- `CmdFibAdd::parse`.
  unfoldable pub fib_add_parse :
      ⦃ini : IniParser⦄ → ℕ → List Bytes → Outcome (Result (List Request))
  unfolding parse_option parse_from_arg
  fib_add_parse rounds argv =
      if length argv == 4
      then parse_option rounds (drop 2 argv)
      else if length argv == 10
      then value (parse_from_arg router_port argv)
      else value (err bad_argument)
