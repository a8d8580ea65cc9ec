-- ===== src/Router/CmdServer/Platform.antt =====
-- What the control server uses of Boost and of the operating system, as an interface.
use f_copss.Router.FaceManager.{Endpoints}
use f_copss.Prelude.{Result, ◌<◌, some, ◌≡◌, Option, Bytes}
use Prim.Native.Nat.{ℕ}

pub record Host : Type 0 where
  -- `boost::lexical_cast` to an unsigned type with so many values; `none` is `bad_lexical_cast`.
  pub lexical_cast : ℕ → Bytes → Option ℕ
  pub lexical_cast_bound :
      (limit : ℕ) (s : Bytes) (n : ℕ) → lexical_cast limit s ≡ some n → n < limit
  -- A UDP socket bound to the router's port and connected to the address, as its transport shows it;
  -- the calls of the socket raise `system_error`.
  pub udp_connect : Bytes → ℕ → Result Endpoints
