-- ===== src/Rtctrl/Choice.antt =====
-- `parseCmdType` of src/rtctrl/rtctrl.cpp: the word behind the name of the program chooses the command.
use f_copss.Prelude.Text.{codes}
use f_copss.Prelude.{
  Bytes, List, [], ◌∷◌, Result, ok, err, unknown_command, bytes_eq, bytes_eq_iff, if◌then◌else◌,
  ◌≡◌, refl, arith,
}

pub data CmdType : Type 0 where
  fib_add fib_del fib_dump st_del st_dump face_del face_dump : CmdType

unfoldable pub cmd_type_of : Bytes → Result CmdType
cmd_type_of type_arg =
    if bytes_eq type_arg (codes "fibadd")
    then ok fib_add
    else if bytes_eq type_arg (codes "fibdel")
    then ok fib_del
    else if bytes_eq type_arg (codes "fibdump")
    then ok fib_dump
    else if bytes_eq type_arg (codes "stdel")
    then ok st_del
    else if bytes_eq type_arg (codes "stdump")
    then ok st_dump
    else if bytes_eq type_arg (codes "facedel")
    then ok face_del
    else if bytes_eq type_arg (codes "facedump")
    then ok face_dump
    else err unknown_command

unfoldable pub parse_cmd_type : List Bytes → Result CmdType
unfolding cmd_type_of
parse_cmd_type [] = err unknown_command
parse_cmd_type (program ∷ []) = err unknown_command
parse_cmd_type (program ∷ type_arg ∷ arguments) = cmd_type_of type_arg

-- The words, as the usage of the program lists them.
abbrev word : CmdType → Bytes
word fib_add = codes "fibadd"
word fib_del = codes "fibdel"
word fib_dump = codes "fibdump"
word st_del = codes "stdel"
word st_dump = codes "stdump"
word face_del = codes "facedel"
word face_dump = codes "facedump"

parse_cmd_type-word :
    (program : Bytes) (type : CmdType) (arguments : List Bytes)
    → parse_cmd_type (program ∷ word type ∷ arguments) ≡ ok type
unfolding parse_cmd_type cmd_type_of bytes_eq
parse_cmd_type-word program fib_add arguments = refl
parse_cmd_type-word program fib_del arguments = refl
parse_cmd_type-word program fib_dump arguments = refl
parse_cmd_type-word program st_del arguments = refl
parse_cmd_type-word program st_dump arguments = refl
parse_cmd_type-word program face_del arguments = refl
parse_cmd_type-word program face_dump arguments = refl

-- A word that chooses a command is the word of that command.
cmd_type_of-word :
    (type_arg : Bytes) (type : CmdType) → cmd_type_of type_arg ≡ ok type → type_arg ≡ word type
unfolding cmd_type_of
cmd_type_of-word type_arg fib_add e = (bytes_eq_iff type_arg (codes "fibadd")).0 (ground (arith, e))
cmd_type_of-word type_arg fib_del e = (bytes_eq_iff type_arg (codes "fibdel")).0 (ground (arith, e))
cmd_type_of-word type_arg fib_dump e =
    (bytes_eq_iff type_arg (codes "fibdump")).0 (ground (arith, e))
cmd_type_of-word type_arg st_del e = (bytes_eq_iff type_arg (codes "stdel")).0 (ground (arith, e))
cmd_type_of-word type_arg st_dump e = (bytes_eq_iff type_arg (codes "stdump")).0 (ground (arith, e))
cmd_type_of-word type_arg face_del e =
    (bytes_eq_iff type_arg (codes "facedel")).0 (ground (arith, e))
cmd_type_of-word type_arg face_dump e =
    (bytes_eq_iff type_arg (codes "facedump")).0 (ground (arith, e))
