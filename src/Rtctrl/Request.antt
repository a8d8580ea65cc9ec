-- ===== src/Rtctrl/Request.antt =====
-- src/rtctrl/request.cpp: the text of a request.
pub mod RoundTrip
use f_copss.Prelude.{[], ◌++◌, ◌∷◌, List, Bytes}

-- `m_param` is a `map<string, string>`: the list of its pairs in their order.
pub record Request : Type 0 where
  pub cmd : Bytes
  pub param : List (Bytes × Bytes)

abbrev pub crlf : Bytes → Bytes
crlf rest = 13 ∷ 10 ∷ rest

unfoldable pub format_params : List (Bytes × Bytes) → Bytes
format_params [] = crlf []
format_params ((key, value) ∷ param) = (key ++ (b':' ∷ value)) ++ crlf (format_params param)

unfoldable pub format : Request → Bytes
unfolding format_params
format request = request.cmd ++ crlf (format_params request.param)
