-- ===== src/Rtctrl/Response/Reply.antt =====
-- What `sendOk` and `sendErr` of src/router/cmd-server.cpp send, and how the control client reads it.
use f_copss.Rtctrl.Request.{crlf}
use f_copss.Rtctrl.Request.RoundTrip.{IsLine, get_lines-crlf, trim_return}
use f_copss.Rtctrl.Response.{Response, no_response, set_fields, set_header, set_status}
use f_copss.Router.CmdServer.Reader.{get_lines}
use f_copss.Prelude.Text.{codes}
use f_copss.Boost.{Boost}
use f_copss.Prelude.{arith, ◌∙◌, bytes_eq, refl, ◌≡◌, length, [], ◌≤◌, ◌++◌, Bytes}

-- `sendOk`.
abbrev pub send_ok : Bytes
send_ok = codes "OK" ++ crlf (crlf [])

-- `sendErr`.
abbrev pub send_err : Bytes → Bytes
send_err reason = (codes "ERR " ++ reason) ++ crlf (crlf [])

set_status-err :
    (reason : Bytes)
    → 2 ≤ length reason
    → set_status (codes "ERR " ++ reason) no_response
      ≡ record no_response { result = codes "ERR"; reason = reason }
unfolding bytes_eq
set_status-err reason l = ground arith

module _ ⦃boost : Boost⦄ where
  set_header-lines :
      (line : Bytes) (response : Response)
      → IsLine line
      → set_header (line ++ crlf (crlf [])) response ≡ set_status line response
  unfolding set_header set_fields get_lines
  set_header-lines line response (free, ends) =
      rw (get_lines-crlf line (crlf []) free, trim_return line ends, trim_return [] tt) refl

  -- The reply to a command that succeeded is read as the result `OK`, and the reply with a reason of
  -- one line and at least two octets as the result `ERR` with that reason; neither has a header.
  pub set_header-reply :
      (reason : Bytes)
      → IsLine (codes "ERR " ++ reason)
      → 2 ≤ length reason
      → (set_header send_ok no_response ≡ record no_response { result = codes "OK" })
        × (set_header (send_err reason) no_response
            ≡ record no_response { result = codes "ERR"; reason = reason })
  unfolding bytes_eq
  set_header-reply reason line l = (
    set_header-lines (codes "OK") no_response ((refl, (refl, tt)), refl),
    set_header-lines (codes "ERR " ++ reason) no_response line ∙ set_status-err reason l,
  )
