-- ===== src/Router/CmdServer/Dispatch.antt =====
-- src/router/cmd-server.cpp: `handleReceive` on a request that has arrived.
use f_copss.Router.CmdServer.{
  Done, returns, raises, catch_error, fib_add, fib_del, fib_del_all, st_del, face_del, reply_dump,
  receive,
}
use f_copss.Router.CmdServer.Reader.{
  CmdType, CmdArg, read_cmd, cmd_fib_add, cmd_fib_del, cmd_st_del, cmd_face_del, cmd_st_dump,
  cmd_fib_dump, cmd_face_dump,
}
use f_copss.Router.CmdServer.Platform.{Host}
use f_copss.Router.Dumps.{LocalTime, st_reply, fib_reply, face_reply}
use f_copss.Router.Forwarder.{Router}
use f_copss.Cd.Printer.{ComponentUri}
use f_copss.Boost.{Boost}
use f_copss.Ndn.{Ndn}
use f_copss.Prelude.Outcome.{Outcome, value, ◌>>=◌}
use f_copss.Prelude.{Bytes, [], ◌∷◌, ok, err}

module _ ⦃boost : Boost⦄ ⦃ndn : Ndn⦄ ⦃host : Host⦄ ⦃uri : ComponentUri⦄ ⦃time : LocalTime⦄ where
  abbrev pub dump_done : Router → Bytes → Done
  dump_done router reply = returns router (reply_dump reply ∷ receive ∷ [])

  abbrev pub fib_del_args : CmdArg → Router → Done
  fib_del_args [] router = fib_del_all router
  fib_del_args (pair ∷ arg) router = fib_del (pair ∷ arg) router

  -- The `switch` over the commands.
  unfoldable pub dispatch : CmdType → CmdArg → Router → Outcome Done
  unfolding fib_add fib_del face_del
  dispatch cmd_fib_add arg router = fib_add arg router
  dispatch cmd_fib_del arg router = value (fib_del_args arg router)
  dispatch cmd_st_del arg router = value (st_del router)
  dispatch cmd_face_del arg router = value (face_del arg router)
  dispatch cmd_st_dump arg router = value (dump_done router (st_reply router))
  dispatch cmd_fib_dump arg router = value (dump_done router (fib_reply router))
  dispatch cmd_face_dump arg router = value (dump_done router (face_reply router))

  -- `handleReceive` without an error, on the octets of the request.
  unfoldable pub handle_receive : Bytes → Router → Outcome Done
  unfolding dispatch catch_error read_cmd
  handle_receive text router = elim (read_cmd text) [
    | err error ↦ value (catch_error (raises router error))
    | ok (type, arg) ↦ do done ← dispatch type arg router; value (catch_error done)
  ]
