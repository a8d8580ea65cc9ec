-- ===== src/Rtctrl/Request/RoundTrip.antt =====
-- What the router reads is what the control client wrote.
use mathlib.Core.List.{append-nil}
use f_copss.Rtctrl.Request.{format_params, Request, format, crlf}
use f_copss.Boost.{StartsOutside, EndsOutside, IsFree, Boost}
use f_copss.Router.CmdServer.Reader.{
  read_lines, cmd_type, CmdType, read_args, read_arg, is_colon, is_return, read_cmd, CmdArg,
  is_space, get_lines,
}
use f_copss.Prelude.{ap, ◌∙◌, refl, ok, [], All, ◌≡◌, ◌==◌, ◌++◌, Bool, ◌∷◌, Bytes, List}
use Prim.Native.Nat.{ℕ}

-- The pairs in the other order, in front of a list.
abbrev pub reverse {ℓ} : {A : Type ℓ} → List A → List A → List A
reverse [] acc = acc
reverse (x ∷ xs) acc = reverse xs (x ∷ acc)

abbrev pub is_feed : ℕ → Bool
is_feed c = c == 10

-- One line of a request that the reader takes apart again: no line feed in it and no carriage return
-- at its end.
abbrev pub IsLine : Bytes → Type 0
IsLine line = IsFree is_feed line × EndsOutside is_return line

-- A key or a value: no colon in it and no space around it.
abbrev pub IsField : Bytes → Type 0
IsField s = IsFree is_colon s × StartsOutside is_space s × EndsOutside is_space s

-- A parameter that fits on a line.
abbrev pub IsParam : Bytes × Bytes → Type 0
IsParam (key, value) = IsField key × IsField value × IsLine (key ++ (b':' ∷ value))

pub get_lines-crlf :
    (line rest : Bytes)
    → IsFree is_feed line
    → get_lines (line ++ crlf rest) ≡ (line ++ (13 ∷ [])) ∷ get_lines rest
unfolding get_lines
get_lines-crlf [] rest free = refl
get_lines-crlf (c ∷ line) rest free = rw (get_lines-crlf line rest free.1, free.0) refl

module _ ⦃boost : Boost⦄ where
  pub trim_return :
      (line : Bytes)
      → EndsOutside is_return line
      → boost.trim_right_if is_return (line ++ (13 ∷ [])) ≡ line
  trim_return line e = boost.trim_right_if_lem is_return line (13 ∷ []) (refl, tt) e

  pub trim_field : (s : Bytes) → IsField s → boost.trim_if is_space s ≡ s
  trim_field s (free, starts, ends) =
      let trimmed = boost.trim_if_lem is_space [] s [] tt tt starts ends in rw append-nil at trimmed

  read_arg-split :
      (c : ℕ) (line key value : Bytes) (arg : CmdArg)
      → boost.split is_colon (c ∷ line) ≡ key ∷ value ∷ []
      → read_arg (c ∷ line) arg
        ≡ ok ((boost.trim_if is_space key, boost.trim_if is_space value) ∷ arg)
  read_arg-split c line key value arg e = rw (e, read_arg) refl

  read_arg-param :
      (key value : Bytes) (arg : CmdArg)
      → IsField key
      → IsField value
      → read_arg (key ++ (b':' ∷ value)) arg ≡ ok ((key, value) ∷ arg)
  read_arg-param [] value arg k v =
      read_arg-split b':' value [] value arg
        (boost.split-join is_colon b':' [] (value ∷ []) refl k.0 (v.0, tt))
      ∙ rw (trim_field [] k, trim_field value v) refl
  read_arg-param (c ∷ key) value arg k v =
      read_arg-split c (key ++ (b':' ∷ value)) (c ∷ key) value arg
        (boost.split-join is_colon b':' (c ∷ key) (value ∷ []) refl k.0 (v.0, tt))
      ∙ rw (trim_field (c ∷ key) k, trim_field value v) refl

  read_args-cons :
      (line : Bytes) (lines : List Bytes) (arg arg' : CmdArg)
      → EndsOutside is_return line
      → read_arg line arg ≡ ok arg'
      → read_args ((line ++ (13 ∷ [])) ∷ lines) arg ≡ read_args lines arg'
  unfolding read_args
  read_args-cons line lines arg arg' ends e = rw (trim_return line ends, e) refl

  get_lines-param :
      (key value : Bytes) (param : List (Bytes × Bytes))
      → IsFree is_feed (key ++ (b':' ∷ value))
      → get_lines (format_params ((key, value) ∷ param))
        ≡ ((key ++ (b':' ∷ value)) ++ (13 ∷ [])) ∷ get_lines (format_params param)
  unfolding format_params
  get_lines-param key value param free =
      get_lines-crlf (key ++ (b':' ∷ value)) (format_params param) free

  read_args-end : (arg : CmdArg) → read_args (get_lines (format_params [])) arg ≡ ok arg
  unfolding read_args get_lines format_params
  read_args-end arg = rw (trim_return [] tt) refl

  read_args-format :
      (param : List (Bytes × Bytes)) (arg : CmdArg)
      → All IsParam param
      → read_args (get_lines (format_params param)) arg ≡ ok (reverse param arg)
  read_args-format [] arg a = read_args-end arg
  read_args-format ((key, value) ∷ param) arg ((k, v, (free, ends)), a) =
      ap (λ lines. read_args lines arg) (get_lines-param key value param free)
      ∙ read_args-cons (key ++ (b':' ∷ value)) (get_lines (format_params param)) arg
          ((key, value) ∷ arg) ends (read_arg-param key value arg k v)
      ∙ read_args-format param ((key, value) ∷ arg) a

  read_lines-cons :
      (line : Bytes) (lines : List Bytes) (type : CmdType) (arg : CmdArg)
      → EndsOutside is_return line
      → cmd_type line ≡ ok type
      → read_args lines [] ≡ ok arg
      → read_lines ((line ++ (13 ∷ [])) ∷ lines) ≡ ok (type, arg)
  read_lines-cons line lines type arg ends known e =
      rw (trim_return line ends, read_lines, known, e) refl

  -- A request of fields without colons, line ends or surrounding spaces, for a command that the
  -- router knows, is read back as that command and these parameters, the last one first.
  pub read_cmd-format :
      (request : Request) (type : CmdType)
      → cmd_type request.cmd ≡ ok type
      → IsLine request.cmd
      → All IsParam request.param
      → read_cmd (format request) ≡ ok (type, reverse request.param [])
  unfolding read_cmd format
  read_cmd-format request type known (free, ends) a =
      ap read_lines (get_lines-crlf request.cmd (format_params request.param) free)
      ∙ read_lines-cons request.cmd (get_lines (format_params request.param)) type
          (reverse request.param []) ends known (read_args-format request.param [] a)
