-- ===== src/Rtctrl/Dumps/Answers.antt =====
-- What the router answers to the requests for dumps.
use f_copss.Rtctrl.Request.{format}
use f_copss.Rtctrl.Request.RoundTrip.{read_cmd-format}
use f_copss.Router.Dumps.{LocalTime, fib_reply, face_reply}
use f_copss.Router.Forwarder.{Router}
use f_copss.Router.CmdServer.{catch_error, Action, reply_dump}
use f_copss.Router.CmdServer.Dispatch.{dump_done, handle_receive, dispatch}
use f_copss.Router.CmdServer.Reader.{CmdType, read_cmd, cmd_type, cmd_fib_dump, cmd_face_dump}
use f_copss.Router.CmdServer.Platform.{Host}
use f_copss.Cd.Printer.{ComponentUri}
use f_copss.Boost.{Boost}
use f_copss.Ndn.{Ndn}
use f_copss.Prelude.Text.{codes}
use f_copss.Prelude.Outcome.{runs_on, out_of_bounds, value}
use f_copss.Prelude.{Option, ◌≡◌, Bytes, List, [], ◌∷◌, some, none, refl, arith, bytes_eq, ok}

-- The text with which the router answers a dump.
abbrev first_dump : List Action → Option Bytes
first_dump [] = none
first_dump (reply_dump text ∷ actions) = some text
first_dump (action ∷ actions) = none

module _ ⦃boost : Boost⦄ ⦃ndn : Ndn⦄ ⦃host : Host⦄ ⦃uri : ComponentUri⦄ ⦃time : LocalTime⦄ where
  abbrev pub answer_of : Router → Bytes → Option Bytes
  answer_of router text = elim (handle_receive text router) [
    | value done ↦ first_dump done.actions
    | out_of_bounds ↦ none
    | runs_on ↦ none
  ]

  answer_of-dump :
      (router : Router) (cmd : Bytes) (type : CmdType) (text : Bytes)
      → read_cmd (format (record { cmd = cmd; param = [] })) ≡ ok (type, [])
      → dispatch type [] router ≡ value (dump_done router text)
      → answer_of router (format (record { cmd = cmd; param = [] })) ≡ some text
  unfolding handle_receive catch_error
  answer_of-dump router cmd type text e f =
      let handled : handle_receive (format (record { cmd = cmd; param = [] })) router
          ≡ value (dump_done router text) =
        rw (e, handle_receive, f) refl in
      rw (handled, answer_of) refl

  pub answer_of-fib_reply :
      (router : Router)
      → answer_of router (format (record { cmd = codes "FIB-DUMP"; param = [] }))
        ≡ some (fib_reply router)
  unfolding dispatch cmd_type bytes_eq
  answer_of-fib_reply router =
      answer_of-dump router (codes "FIB-DUMP") cmd_fib_dump (fib_reply router)
        (read_cmd-format _ cmd_fib_dump refl (ground arith) tt) refl

  pub answer_of-face_reply :
      (router : Router)
      → answer_of router (format (record { cmd = codes "FACE-DUMP"; param = [] }))
        ≡ some (face_reply router)
  unfolding dispatch cmd_type bytes_eq
  answer_of-face_reply router =
      answer_of-dump router (codes "FACE-DUMP") cmd_face_dump (face_reply router)
        (read_cmd-format _ cmd_face_dump refl (ground arith) tt) refl
