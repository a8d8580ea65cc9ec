-- ===== src/Rtctrl/Response.antt =====
-- src/rtctrl/response.cpp: what the control client reads of a reply of the router.
use f_copss.Prelude.Text.{codes}
use f_copss.Router.CmdServer.Reader.{get_lines, is_return, is_colon, is_space}
use f_copss.Rtctrl.Param.{set_param, Param}
use f_copss.Boost.{Boost}
use f_copss.Prelude.{drop, ◌+◌, length, ltb, bytes_eq, List, if◌then◌else◌, Bytes}
use f_copss.Prelude.{◌∷◌, []}
pub mod Reply

-- Without `m_body`, which only the dumps fill.
pub record Response : Type 0 where
  pub result : Bytes
  pub reason : Bytes
  pub header : Param

abbrev pub no_response : Response
no_response = record { result = []; reason = []; header = [] }

-- The first line.
abbrev pub set_status : Bytes → Response → Response
set_status line response =
    if bytes_eq line (codes "OK")
    then record response { result = codes "OK" }
    else record response {
      result = codes "ERR";
      reason =
          if ltb (length (codes "ERR") + 2) (length line)
          then drop (length (codes "ERR") + 1) line
          else response.reason;
    }

module _ ⦃boost : Boost⦄ where
  abbrev pub set_pair : List Bytes → Response → Response
  set_pair (key ∷ v ∷ []) response = record response {
    header = set_param (boost.trim_if is_space key) (boost.trim_if is_space v) response.header;
  }
  set_pair _ response = response

  -- Another line, without its carriage return.
  abbrev pub set_field : Bytes → Response → Response
  set_field [] response = response
  set_field (c ∷ line) response = set_pair (boost.split is_colon (c ∷ line)) response

  unfoldable pub set_fields : List Bytes → Response → Response
  set_fields [] response = response
  set_fields (line ∷ lines) response =
      set_fields lines (set_field (boost.trim_right_if is_return line) response)

  abbrev pub set_lines : List Bytes → Response → Response
  set_lines [] response = response
  set_lines (line ∷ lines) response =
      set_fields lines (set_status (boost.trim_right_if is_return line) response)

  -- `setHeader`, on the octets up to the empty line that ends a reply.
  unfoldable pub set_header : Bytes → Response → Response
  unfolding set_fields set_param
  set_header reply response = set_lines (get_lines reply) response
