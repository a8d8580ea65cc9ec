-- ===== src/Rtctrl/Commands.antt =====
-- `parse` of src/rtctrl/cmd-fibadd.cpp, cmd-fibdel.cpp, cmd-stdel.cpp and cmd-facedel.cpp, on the
-- arguments of the command line, the name of the program included.
pub mod FibAdd
pub mod FibFile
pub mod FileEnds
use f_copss.Prelude.Text.{codes}
use f_copss.Rtctrl.Arguments.{
  set_param_type, set_param_cost, set_param_name, set_param_face_id, set_param_remote, Network,
}
use f_copss.Cd.Printer.{ComponentUri}
use f_copss.Rtctrl.Request.{Request}
use f_copss.Boost.{Boost}
use f_copss.Rtctrl.Param.{Param}
use f_copss.Ndn.{Ndn}
use f_copss.Router.CmdServer.Platform.{Host}
use f_copss.Prelude.{
  ◌>>=◌, drop, none, [], bad_argument, some, ◌==◌, err, bytes_eq, length, not, ◌∷◌, if◌then◌else◌,
  ok, Result, ℕ, Option, List, Bytes,
}

-- What an option does with the argument behind it.
abbrev pub Setter : Type 0
Setter = Bytes → Param → Result Param

-- The loop over the options: each one is known and has an argument behind it.
unfoldable pub set_options : (Bytes → Option Setter) → List Bytes → Param → Result Param
set_options setter_of [] param = ok param
set_options setter_of (option ∷ []) param = err bad_argument
set_options setter_of (option ∷ argument ∷ arguments) param = elim (setter_of option) [
  | none ↦ err bad_argument
  | some setter ↦ do param' ← setter argument param; set_options setter_of arguments param'
]

-- The request, when the options have set so many parameters.
abbrev pub request_with : Bytes → ℕ → Param → Result (List Request)
request_with cmd count param =
    if not (length param == count)
    then err bad_argument
    else ok (record { cmd = cmd; param = param } ∷ [])

unfoldable pub st_del_parse : List Bytes → Result (List Request)
st_del_parse argv =
    if length argv == 2
    then ok (record { cmd = codes "ST-DEL"; param = [] } ∷ [])
    else err bad_argument

module _ ⦃host : Host⦄ where
  abbrev pub face_del_setter : Bytes → Option Setter
  face_del_setter option = if bytes_eq option (codes "-i") then some set_param_face_id else none

  unfoldable pub face_del_parse : List Bytes → Result (List Request)
  unfolding set_options
  face_del_parse argv =
      if length argv == 4
      then (do
        param ← set_options face_del_setter (drop 2 argv) []
        request_with (codes "FACE-DEL") 1 param)
      else err bad_argument

module _ ⦃ndn : Ndn⦄ ⦃boost : Boost⦄ ⦃uri : ComponentUri⦄ ⦃network : Network⦄
    (router_port : ℕ) where
  abbrev set_remote : Setter
  set_remote remote param = set_param_remote remote router_port param

  -- `-n`.
  abbrev pub name_setter : Bytes → Option Setter
  name_setter option = if bytes_eq option (codes "-n") then some set_param_name else none

  -- `-n`, `-t` and `-r`.
  abbrev pub route_setter : Bytes → Option Setter
  route_setter option =
      if bytes_eq option (codes "-n")
      then some set_param_name
      else if bytes_eq option (codes "-t")
      then some set_param_type
      else if bytes_eq option (codes "-r")
      then some set_remote
      else none

  unfoldable pub fib_del_parse : List Bytes → Result (List Request)
  unfolding set_options
  fib_del_parse argv =
      if length argv == 2
      then ok (record { cmd = codes "FIB-DEL"; param = [] } ∷ [])
      else if length argv == 4
      then (do
        param ← set_options name_setter (drop 2 argv) []
        request_with (codes "FIB-DEL") 1 param)
      else if length argv == 8
      then (do
        param ← set_options route_setter (drop 2 argv) []
        request_with (codes "FIB-DEL") 4 param)
      else err bad_argument

  module _ ⦃host : Host⦄ where
    -- `-n`, `-t`, `-r` and `-c`.
    abbrev pub full_setter : Bytes → Option Setter
    full_setter option = elim (route_setter option) [
      | some setter ↦ some setter
      | none ↦ if bytes_eq option (codes "-c") then some set_param_cost else none
    ]

    -- `parseFromArg`.
    unfoldable pub parse_from_arg : List Bytes → Result (List Request)
    unfolding set_options
    parse_from_arg argv = do
      param ← set_options full_setter (drop 2 argv) []
      request_with (codes "FIB-ADD") 5 param
