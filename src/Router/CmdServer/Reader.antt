-- ===== src/Router/CmdServer/Reader.antt =====
-- src/router/cmd-server.cpp: `readCmd`, from the octets of a request to the command and its
-- arguments.
use f_copss.Prelude.Text.{codes}
use f_copss.Boost.{Boost}
use f_copss.Prelude.{
  ◌>>=◌, unknown_command, ◌&&◌, leb, some, bad_command, bad_argument, ◌||◌, bytes_eq, [], err, ok,
  ◌==◌, if◌then◌else◌, none, Result, Bool, ◌∷◌, Option, Bytes, List,
}
use Prim.Native.Nat.{ℕ}

pub data CmdType : Type 0 where
  cmd_fib_add cmd_fib_del cmd_st_del cmd_face_del cmd_st_dump cmd_fib_dump cmd_face_dump : CmdType

-- A `map<string, string>`; the newest value of a key stands first.
abbrev pub CmdArg : Type 0
CmdArg = List (Bytes × Bytes)

unfoldable pub lookup : Bytes → CmdArg → Option Bytes
lookup key [] = none
lookup key ((k, v) ∷ arg) = if bytes_eq k key then some v else lookup key arg

abbrev onto_line : ℕ → List Bytes → List Bytes
onto_line c [] = (c ∷ []) ∷ []
onto_line c (line ∷ lines) = (c ∷ line) ∷ lines

-- The lines that `std::getline` gives, one after the other.
unfoldable pub get_lines : Bytes → List Bytes
get_lines [] = []
get_lines (c ∷ s) = let rest = get_lines s in if c == 10 then [] ∷ rest else onto_line c rest

abbrev pub is_return : ℕ → Bool
is_return c = c == 13

abbrev pub is_colon : ℕ → Bool
is_colon c = c == b':'

-- `is_space` of the classic locale.
abbrev pub is_space : ℕ → Bool
is_space c = c == 32 || (leb 9 c && leb c 13)

unfoldable pub cmd_type : Bytes → Result CmdType
cmd_type line =
    if bytes_eq line (codes "FIB-ADD")
    then ok cmd_fib_add
    else if bytes_eq line (codes "FIB-DEL")
    then ok cmd_fib_del
    else if bytes_eq line (codes "ST-DEL")
    then ok cmd_st_del
    else if bytes_eq line (codes "FACE-DEL")
    then ok cmd_face_del
    else if bytes_eq line (codes "ST-DUMP")
    then ok cmd_st_dump
    else if bytes_eq line (codes "FIB-DUMP")
    then ok cmd_fib_dump
    else if bytes_eq line (codes "FACE-DUMP")
    then ok cmd_face_dump
    else err unknown_command

module _ ⦃boost : Boost⦄ where
  abbrev pub pair_of : List Bytes → Result (Bytes × Bytes)
  pair_of (key ∷ value ∷ []) = ok (boost.trim_if is_space key, boost.trim_if is_space value)
  pair_of _ = err bad_argument

  -- One round of the loop over the lines, on the line without its carriage return.
  abbrev pub read_arg : Bytes → CmdArg → Result CmdArg
  read_arg [] arg = ok arg
  read_arg (c ∷ line) arg = do
    (key, value) ← pair_of (boost.split is_colon (c ∷ line))
    ok ((key, value) ∷ arg)

  unfoldable pub read_args : List Bytes → CmdArg → Result CmdArg
  read_args [] arg = ok arg
  read_args (line ∷ lines) arg = do
    arg' ← read_arg (boost.trim_right_if is_return line) arg
    read_args lines arg'

  abbrev pub read_lines : List Bytes → Result (CmdType × CmdArg)
  read_lines [] = err bad_command
  read_lines (line ∷ lines) = do
    type ← cmd_type (boost.trim_right_if is_return line)
    arg ← read_args lines []
    ok (type, arg)

  -- On the octets up to the empty line that ends a request.
  unfoldable pub read_cmd : Bytes → Result (CmdType × CmdArg)
  unfolding get_lines read_args cmd_type
  read_cmd request = read_lines (get_lines request)
