-- ===== src/Config.antt =====
-- The configuration: src/lib/config.cpp. A duration is a number of seconds, or `none` for `pos_infin`.
use f_copss.Prelude.Text.{codes}
use f_copss.Prelude.{ℕ, Option, none, some, Bytes, ◌++◌, ◌<◌, ◌≡◌, refl, if◌then◌else◌, ltb, arith}
use f_copss.Cd.Index.{ℤ, pos, negsuc}
use f_copss.Router.St

-- A property tree as its readers show it: `none` is a key that is missing, or whose text does not
-- read as a value of the type.
pub record Tree : Type 0 where
  pub get_string : Bytes → Option Bytes
  pub get_uint16 : Bytes → Option ℕ
  pub get_long : Bytes → Option ℤ

abbrev pub empty_tree : Tree
empty_tree = record { get_string = λ key. none; get_uint16 = λ key. none; get_long = λ key. none }

-- `getenv`, and `read_ini` of Boost, whose `none` is an `ini_parser_error`. The tree is then as it
-- was before.
pub record Environment : Type 0 where
  pub getenv : Bytes → Option Bytes
  pub read_ini : Bytes → Option Tree

-- `ptree::get` with a default.
abbrev value_or {ℓ} : {A : Type ℓ} → A → Option A → A
value_or default none = default
value_or default (some read) = read

module _ ⦃environment : Environment⦄ where
  abbrev pub path : Bytes
  path = elim (environment.getenv (codes "FCOPSS_CONF_DIR")) [
    | none ↦ codes "fcopss.conf"
    | some dir ↦ dir ++ (codes "/" ++ codes "fcopss.conf")
  ]

  -- The constructor: a file that cannot be read leaves the tree empty.
  unfoldable pub config : Tree
  config = value_or empty_tree (environment.read_ini path)

-- The body that the four durations share: only a positive number of seconds counts.
unfoldable pub duration : Bytes → Tree → Option ℕ
duration key tree = elim (tree.get_long key) [
  | none ↦ none
  | some value ↦ (elim value [ pos n ↦ (if ltb 0 n then some n else none) | negsuc n ↦ none ])
]

abbrev pub client_protocol : Tree → Bytes
client_protocol tree = value_or (codes "tcp") (tree.get_string (codes "CLIENT.Protocol"))

abbrev pub client_sub_send_interval : Tree → Option ℕ
client_sub_send_interval tree = duration (codes "CLIENT.SubSendInterval") tree

abbrev pub router_port : Tree → ℕ
router_port tree = value_or 9876 (tree.get_uint16 (codes "ROUTER.Port"))

abbrev pub router_control_port : Tree → ℕ
router_control_port tree = value_or 9877 (tree.get_uint16 (codes "ROUTER.ControlPort"))

abbrev pub router_st_expire_time : Tree → Option ℕ
router_st_expire_time tree = duration (codes "ROUTER.StExpireTime") tree

abbrev pub rp_port : Tree → ℕ
rp_port tree = value_or 9878 (tree.get_uint16 (codes "RP.Port"))

abbrev pub tcp_connection_timeout : Tree → Option ℕ
tcp_connection_timeout tree = duration (codes "TCP.ConnectionTimeout") tree

abbrev pub tcp_receive_timeout : Tree → Option ℕ
tcp_receive_timeout tree = duration (codes "TCP.ReceiveTimeout") tree

-- No configuration gives a timer that is due at once.
duration-positive :
    (key : Bytes) (tree : Tree) (seconds : ℕ) → duration key tree ≡ some seconds → 0 < seconds
unfolding duration
duration-positive key tree seconds e = ground arith

-- A time ahead of now gives a deadline behind now.
deadline-later :
    (time : Option ℕ) (now due : ℕ)
    → ((seconds : ℕ) → time ≡ some seconds → 0 < seconds)
    → St.deadline time now ≡ some due
    → now < due
deadline-later none now due ahead e = cc
deadline-later (some seconds) now due ahead e = ground (arith, ahead seconds refl)

-- A subscription that is entered is not over at once, whatever the configuration says.
router_st_expire_time-later :
    (tree : Tree) (now due : ℕ)
    → St.deadline (router_st_expire_time tree) now ≡ some due
    → now < due
router_st_expire_time-later tree now due e =
    deadline-later (router_st_expire_time tree) now due
      (duration-positive (codes "ROUTER.StExpireTime") tree) e

-- Without a file, every value is its default and no timer is set.
config-defaults :
    ⦃environment : Environment⦄
    → environment.read_ini path ≡ none
    → (client_protocol config ≡ codes "tcp")
      × (router_port config ≡ 9876)
      × (router_control_port config ≡ 9877)
      × (rp_port config ≡ 9878)
      × ((key : Bytes) → duration key config ≡ none)
unfolding config duration
config-defaults unread = rw unread (refl, refl, refl, refl, λ key. refl)
