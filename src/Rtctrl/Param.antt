-- ===== src/Rtctrl/Param.antt =====
-- The `map<string, string>` of a request or a response in src/rtctrl: its pairs in the order of the
-- keys.
use f_copss.Prelude.{List, [], ◌∷◌, Bytes, Bool, true, false, ltb, ◌==◌, if◌then◌else◌, bytes_eq}

abbrev pub Param : Type 0
Param = List (Bytes × Bytes)

-- `operator<` of two strings.
abbrev pub bytes_lt : Bytes → Bytes → Bool
bytes_lt [] [] = false
bytes_lt [] (y ∷ b) = true
bytes_lt (x ∷ a) [] = false
bytes_lt (x ∷ a) (y ∷ b) =
    let rest = bytes_lt a b in if ltb x y then true else if x == y then rest else false

-- `param[key] = value`.
unfoldable pub set_param : Bytes → Bytes → Param → Param
set_param key v [] = (key, v) ∷ []
set_param key v ((k, w) ∷ param) =
    let rest = set_param key v param in
    if bytes_lt key k
    then (key, v) ∷ (k, w) ∷ param
    else if bytes_eq key k
    then (key, v) ∷ param
    else (k, w) ∷ rest
