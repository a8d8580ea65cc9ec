-- ===== src/Router/CmdServer.antt =====
-- src/router/cmd-server.cpp: the control commands that change the tables.
pub mod Reader
pub mod Platform
pub mod Routes
pub mod Connection
pub mod Answers
pub mod Dispatch
use f_copss.Router.Fib
use f_copss.Router.St
use f_copss.Router.FaceManager
use f_copss.Prelude.Text.{codes}
use f_copss.Prelude.Outcome.{value, runs_on, Outcome}
use f_copss.Ndn.{Ndn}
use f_copss.Router.CmdServer.Reader.{lookup, CmdArg}
use f_copss.Boost.{Boost}
use f_copss.Router.CmdServer.Platform.{Host}
use f_copss.Router.FaceManager.{Endpoints}
use f_copss.Router.Forwarder.{Router}
use f_copss.Prelude.{
  zero, same_endpoints, ◌>>=◌, ◌++◌, not, suc, ◌==◌, ◌^◌, if◌then◌else◌, bad_cast, ◌&&◌, ◌∷◌, ◌||◌,
  bad_argument, ok, false, true, bytes_eq, err, some, none, Option, Bool, Result, [], List, ℕ,
  Bytes, Error,
}

-- What a command asks of the socket of its client, of a face, or of a new TCP connection.
pub data Action : Type 0 where
  reply_ok : Action
  reply_err : Error → Action
  reply_face_not_found : Action
  reply_dump : Bytes → Action
  receive : Action
  shut_face : ℕ → Action
  connect_tcp : Bytes → Bytes → ℕ → ℕ → Action

-- A command returns, or it raises; what it has changed by then stays changed.
pub record Done : Type 0 where
  pub router : Router
  pub actions : List Action
  pub raised : Option Error

abbrev pub returns : Router → List Action → Done
returns router actions = record { router = router; actions = actions; raised = none }

abbrev pub raises : Router → Error → Done
raises router error = record { router = router; actions = []; raised = some error }

-- A call that may raise, and what follows it.
abbrev pub try {ℓ} : {A : Type ℓ} → Router → Result A → (A → Done) → Done
try router (err error) next = raises router error
try router (ok a) next = next a

-- `cmdArg.at`, inside `try ... catch (...)`.
abbrev pub at : Bytes → CmdArg → Result Bytes
at key arg = elim (lookup key arg) [ none ↦ err bad_argument | some text ↦ ok text ]

-- The same, where nothing is done about a missing key.
abbrev pub at_or_empty : Bytes → CmdArg → Bytes
at_or_empty key arg = elim (lookup key arg) [ none ↦ [] | some text ↦ text ]

abbrev pub is_type : Bytes → Bool
is_type type = bytes_eq type (codes "tcp") || bytes_eq type (codes "udp")

abbrev pub is_empty : Bytes → Bool
is_empty [] = true
is_empty (c ∷ s) = false

abbrev pub is_same_end : Endpoints → Bool
is_same_end e = bytes_eq e.local_ip e.remote_ip && e.local_port == e.remote_port

module _ ⦃host : Host⦄ where
  abbrev pub cast : ℕ → Bytes → Result ℕ
  cast limit s = elim (host.lexical_cast limit s) [ none ↦ err bad_cast | some n ↦ ok n ]

  -- The checks of `fibAdd(cmdArg)`: name, type, address, port and cost.
  unfoldable pub add_args : CmdArg → Result (Bytes × Bytes × Bytes × ℕ × ℕ)
  add_args arg = do
    name ← at (codes "NAME") arg
    type ← at (codes "TYPE") arg
    ip ← at (codes "IP") arg
    port ← at (codes "PORT") arg
    cost ← at (codes "COST") arg
    if not (is_type type)
        then err bad_argument
        else (do p ← cast (2 ^ 16) port; c ← cast (2 ^ 32) cost; ok (name, type, ip, p, c))

  -- `fibAddUdpFace` up to the new face: nothing is created when the two ends are the same.
  unfoldable pub create_udp_face : Bytes → ℕ → Router → Result Router
  create_udp_face ip port router = do
    endpoints ← host.udp_connect ip port
    if is_same_end endpoints
        then err same_endpoints
        else ok (record router { faces = (FaceManager.create_face endpoints router.faces).0 })

  abbrev pub face_del_id : ℕ → Router → Done
  face_del_id id router = elim (FaceManager.find id router.faces) [
    | none ↦ returns router (reply_ok ∷ receive ∷ [])
    | some face ↦ returns router (shut_face face.id ∷ reply_ok ∷ receive ∷ [])
  ]

  unfoldable pub face_del : CmdArg → Router → Done
  face_del arg router =
      try router (at (codes "FACE") arg)
        λ face. try router (cast (2 ^ 64) face) λ id. face_del_id id router

module _ ⦃boost : Boost⦄ ⦃ndn : Ndn⦄ ⦃host : Host⦄ where
  -- `m_fib.add(name, face->getId(), cost); sendOk(); asyncReceive()`.
  abbrev pub add_route : Bytes → ℕ → ℕ → Router → Done
  add_route name id cost router =
      try router (Fib.add name id cost router.fib)
        λ fib. returns (record router { fib = fib }) (reply_ok ∷ receive ∷ [])

  -- `fibAdd(name, type, ip, port, cost)`. With UDP it calls itself once the face is there.
  unfoldable pub fib_add_to : ℕ → Bytes → Bytes → Bytes → ℕ → ℕ → Router → Outcome Done
  fib_add_to zero name type ip port cost router = runs_on
  fib_add_to (suc n) name type ip port cost router =
      elim (FaceManager.find_remote type ip port router.faces) [
        | some face ↦ value (add_route name face.id cost router)
        | none ↦
            if bytes_eq type (codes "tcp")
            then value (returns router (connect_tcp name ip port cost ∷ []))
            else elim (create_udp_face ip port router) [
              | err error ↦ value (raises router error)
              | ok router' ↦ fib_add_to n name (codes "udp") ip port cost router'
            ]
      ]

  -- `fibDel(name)`, `fibDel(name, type, ip, port)` and `fibDel()`.
  abbrev pub fib_del_name : Bytes → Router → Done
  fib_del_name name router =
      try router (Fib.remove_name name router.fib)
        λ fib. returns (record router { fib = fib }) (reply_ok ∷ receive ∷ [])

  abbrev pub fib_del_hop : Bytes → Bytes → Bytes → ℕ → Router → Done
  fib_del_hop name type ip port router = elim (FaceManager.find_remote type ip port router.faces) [
    | none ↦ returns router (reply_face_not_found ∷ receive ∷ [])
    | some face ↦
        try router (Fib.remove_hop name face.id router.fib)
          λ fib. returns (record router { fib = fib }) (reply_ok ∷ receive ∷ [])
  ]

  abbrev pub fib_del_all : Router → Done
  fib_del_all router =
      returns (record router { fib = Fib.clear router.fib }) (reply_ok ∷ receive ∷ [])

  -- `fibDel(cmdArg)`.
  unfoldable pub fib_del : CmdArg → Router → Done
  fib_del arg router =
      let name = at_or_empty (codes "NAME") arg in
      let type = at_or_empty (codes "TYPE") arg in
      let ip = at_or_empty (codes "IP") arg in
      let port = at_or_empty (codes "PORT") arg in
      if is_empty name
      then raises router bad_argument
      else if is_empty type && is_empty ip && is_empty port
      then fib_del_name name router
      else if not (is_empty type) && not (is_empty ip) && not (is_empty port)
      then (if not (is_type type)
          then raises router bad_argument
          else try router (cast (2 ^ 16) port) λ p. fib_del_hop name type ip p router)
      else raises router bad_argument

  abbrev pub st_del : Router → Done
  st_del router = returns (record router { st = St.clear router.st }) (reply_ok ∷ receive ∷ [])

  -- `fibAdd(cmdArg)`. A command calls `fibAdd` at most twice.
  unfoldable pub fib_add : CmdArg → Router → Outcome Done
  unfolding fib_add_to
  fib_add arg router = elim (add_args arg) [
    | err error ↦ value (raises router error)
    | ok (name, type, ip, port, cost) ↦ fib_add_to 2 name type ip port cost router
  ]

  -- `handleConnect` without an error, on the ends of the new connection.
  unfoldable pub handle_connect : Bytes → Bytes → ℕ → ℕ → Endpoints → Router → Outcome Done
  unfolding fib_add_to
  handle_connect name ip port cost endpoints router =
      if not (is_same_end endpoints)
      then fib_add_to 2 name (codes "tcp") ip port cost
          (record router { faces = (FaceManager.create_face endpoints router.faces).0 })
      else value (returns router (reply_err same_endpoints ∷ receive ∷ []))

-- The `catch (const std::runtime_error&)` of `handleReceive`: `bad_lexical_cast` is no such error.
abbrev pub is_caught : Error → Bool
is_caught bad_cast = false
is_caught _ = true

-- A command that raised is answered with the error; what is not caught leaves the event loop.
unfoldable pub catch_error : Done → Done
catch_error done = elim done.raised [
  | none ↦ done
  | some error ↦
      if is_caught error
      then returns done.router (done.actions ++ (reply_err error ∷ receive ∷ []))
      else done
]
