-- ===== src/Rtctrl/Arguments.antt =====
-- The parameters of a request, as src/rtctrl/cmd.cpp, cmd-fibadd.cpp and cmd-facedel.cpp check them.
-- Each exception is one value of `Error`: the texts of the messages are not modelled.
use f_copss.Router.CmdServer.Reader.{is_colon, is_space}
use f_copss.Cd.Parser.{of_uri}
use f_copss.Prelude.Text.{codes}
use f_copss.Prelude.Decimal.{digits}
use f_copss.Cd.Printer.{to_uri, ComponentUri}
use f_copss.Boost.{Boost}
use f_copss.Ndn.{Ndn}
use f_copss.Router.CmdServer.Platform.{Host}
use f_copss.Rtctrl.Param.{Param, set_param}
pub mod Remote
use f_copss.Prelude.{
  zero, bad_argument, map, ◌&&◌, ◌≡◌, ok, ◌++◌, err, bytes_eq, leb, ltb, length, Result,
  if◌then◌else◌, Bool, Bytes, ◌>>=◌, ◌^◌, ◌+◌, ◌%◌, List, [], ◌∷◌, none, some, Option,
}
use Prim.Native.Nat.{suc, ℕ, ◌/◌}

-- The octets outside of a class.
abbrev pub drop_all : (ℕ → Bool) → Bytes → Bytes
drop_all p [] = []
drop_all p (c ∷ s) = if p c then drop_all p s else c ∷ drop_all p s

-- `address_v4::from_string` and the resolver of Boost.Asio, and what `std::remove_if` leaves behind
-- the end that it returns, as an interface.
pub record Network : Type 0 where
  pub is_address : Bytes → Bool
  -- The first address of a host name and a port; `none` is an error, or no address.
  pub resolve : Bytes → Bytes → Option Bytes
  -- The octets that stay where octets of the class were taken out: as many as were taken out.
  pub leftover : (ℕ → Bool) → Bytes → Bytes
  pub leftover-length :
      (p : ℕ → Bool) (s : Bytes) → length (drop_all p s) + length (leftover p s) ≡ length s

-- `std::to_string` of a `uint16_t`, which has five digits at most.
unfoldable pub to_string : ℕ → Bytes
to_string n = digits 5 n []

abbrev lower : ℕ → ℕ
lower c = if leb 65 c && leb c 90 then c + 32 else c

-- `!strcasecmp`.
abbrev pub is_same_word : Bytes → Bytes → Bool
is_same_word a b = bytes_eq (map lower a) (map lower b)

unfoldable pub set_param_type : Bytes → Param → Result Param
unfolding set_param
set_param_type type param =
    if is_same_word type (codes "tcp")
    then ok (set_param (codes "TYPE") (codes "tcp") param)
    else if is_same_word type (codes "udp")
    then ok (set_param (codes "TYPE") (codes "udp") param)
    else err bad_argument

module _ ⦃host : Host⦄ where
  unfoldable pub set_param_cost : Bytes → Param → Result Param
  unfolding set_param
  set_param_cost cost param = elim (host.lexical_cast (2 ^ 32) cost) [
    | none ↦ err bad_argument
    | some n ↦ ok (set_param (codes "COST") cost param)
  ]

  unfoldable pub set_param_face_id : Bytes → Param → Result Param
  unfolding set_param
  set_param_face_id id param = elim (host.lexical_cast (2 ^ 64) id) [
    | none ↦ err bad_argument
    | some n ↦ ok (set_param (codes "FACE") id param)
  ]

module _ ⦃ndn : Ndn⦄ ⦃boost : Boost⦄ ⦃uri : ComponentUri⦄ where
  unfoldable pub set_param_name : Bytes → Param → Result Param
  unfolding of_uri to_uri set_param
  set_param_name name param = elim (of_uri name) [
    | err error ↦ err bad_argument
    | ok cd ↦ ok (set_param (codes "NAME") (to_uri cd) param)
  ]

module _ ⦃boost : Boost⦄ ⦃network : Network⦄ where
  -- `std::remove_if`, without the `erase` that usually goes with it.
  abbrev pub remove_if : (ℕ → Bool) → Bytes → Bytes
  remove_if p s = drop_all p s ++ network.leftover p s

  abbrev pub ip_port_of : Bytes → ℕ → List Bytes → Result (Bytes × Bytes)
  ip_port_of ip default_port (part ∷ []) = ok (ip, to_string default_port)
  ip_port_of ip default_port (host ∷ port ∷ []) = ok (host, port)
  ip_port_of ip default_port _ = err bad_argument

  unfoldable pub get_ip_port : Bytes → ℕ → Result (Bytes × Bytes)
  get_ip_port remote default_port =
      let ip = remove_if is_space remote in ip_port_of ip default_port (boost.split is_colon ip)

  -- The address of the remote end: what was given, or what its name resolves to.
  abbrev pub address_of : Bytes → Bytes → Bytes → Result Bytes
  address_of remote ip port =
      if network.is_address ip then ok ip else elim (network.resolve remote port) [
        | none ↦ err bad_argument
        | some address ↦ ok address
      ]

  unfoldable pub set_param_remote : Bytes → ℕ → Param → Result Param
  unfolding get_ip_port set_param
  set_param_remote remote default_port param = do
    (ip, port) ← get_ip_port remote default_port
    address ← address_of remote ip port
    ok (set_param (codes "PORT") port (set_param (codes "IP") address param))
