-- ===== src/Rtctrl/Commands/FibAdd.antt =====
-- `rtctrl fibadd` with its four options, from the command line to the checks of `fibAdd` in
-- src/router/cmd-server.cpp.
use f_copss.Cd.{Cd}
use f_copss.Rtctrl.Commands.{Request, ComponentUri, Boost, Ndn, Host, codes, Param}
use f_copss.Rtctrl.Arguments.{Network, is_same_word}
use f_copss.Prelude.{false, ℕ, [], ◌⊎◌, ◌∷◌, List, true, ◌≡◌, Bytes}

-- The protocol that the argument of `-t` names, in whatever case.
abbrev pub IsProtocol : Bytes → Bytes → Type 0
IsProtocol type protocol =
    ((is_same_word type (codes "tcp") ≡ true) × (protocol ≡ codes "tcp"))
    ⊎ ((is_same_word type (codes "tcp") ≡ false)
        × (is_same_word type (codes "udp") ≡ true)
        × (protocol ≡ codes "udp"))

-- The parameters in the order of their keys.
abbrev pub route_param : Bytes → Bytes → Bytes → Bytes → Bytes → Param
route_param name protocol address port cost =
    (codes "COST", cost)
    ∷ (codes "IP", address)
    ∷ (codes "NAME", name)
    ∷ (codes "PORT", port)
    ∷ (codes "TYPE", protocol)
    ∷ []

module _ ⦃ndn : Ndn⦄ ⦃boost : Boost⦄ ⦃uri : ComponentUri⦄ ⦃network : Network⦄ ⦃host : Host⦄
    (router_port : ℕ) where
  -- The options of a route, in the order of the usage text.
  abbrev pub fib_add_argv : Bytes → Bytes → Bytes → Bytes → List Bytes
  fib_add_argv name type remote cost =
      codes "rtctrl"
      ∷ codes "fibadd"
      ∷ codes "-n"
      ∷ name
      ∷ codes "-t"
      ∷ type
      ∷ codes "-r"
      ∷ remote
      ∷ codes "-c"
      ∷ cost
      ∷ []
