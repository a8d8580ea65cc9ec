-- ===== src/Router/Run.antt =====
-- The runs of a router: everything that changes its tables, in src/router/forwarder.cpp, st-impl.cpp,
-- face-manager.cpp and cmd-server.cpp, in any order.
pub mod Sound
pub mod Commands
pub mod Reach
use f_copss.Router.Matching.Totality.{IsMatchable}
use f_copss.Router.CmdServer.{st_del, fib_del, handle_connect, fib_add, Done}
use f_copss.Router.CmdServer.Reader.{CmdArg}
use f_copss.Prelude.Outcome.{value}
use f_copss.Router.FaceManager.{Endpoints, Face}
use f_copss.Cd.{Cd}
use f_copss.Prelude.{none, ◌^◌, ◌<◌, ◌+◌, Bool, Bytes, some, ◌≡◌, List, [], ℕ, Option}
use f_copss.Router.Forwarder.{
  on_face_shutdown, on_pub_from_rp_received, on_pub_to_rp_received, on_sub_received, Send, Router,
}
use f_copss.Ndn.{Ndn}
use f_copss.Router.FaceManager
use f_copss.Router.St
use f_copss.Router.CmdServer.Platform.{Host}
use f_copss.Boost.{Boost}

module _ ⦃boost : Boost⦄ ⦃ndn : Ndn⦄ ⦃host : Host⦄ where
  -- One thing that happens to a router, whose handler returned: a packet, a timer, a connection, a
  -- shutdown or a command.
  pub data Step (r : Router) (r' : Router) : Type 0 where
    subscribed :
        (now id : ℕ) (cd : Cd) (sends : List Send)
        → on_sub_received now id cd r ≡ value (r', sends)
        → Step r r'
    published :
        (id : ℕ) (cd : Cd) (content : Bytes) (sends : List Send)
        → on_pub_to_rp_received id cd content r ≡ value (r', sends)
        → Step r r'
    distributed :
        (id : ℕ) (cd : Cd) (content : Bytes) (sends : List Send)
        → on_pub_from_rp_received id cd content r ≡ value (r', sends)
        → Step r r'
    expired :
        (cd : Cd) (id : ℕ) (error : Bool)
        → r' ≡ record r { st = St.on_expired cd id error r.st }
        → Step r r'
    shut_down : (id : ℕ) → r' ≡ on_face_shutdown id r → Step r r'
    connected :
        (endpoints : Endpoints)
        → r' ≡ record r { faces = (FaceManager.create_face endpoints r.faces).0 }
        → Step r r'
    route_added :
        (arg : CmdArg) (done : Done) → fib_add arg r ≡ value done → r' ≡ done.router → Step r r'
    route_connected :
        (name ip : Bytes) (port cost : ℕ) (endpoints : Endpoints) (done : Done)
        → handle_connect name ip port cost endpoints r ≡ value done
        → r' ≡ done.router
        → Step r r'
    routes_deleted : (arg : CmdArg) → r' ≡ (fib_del arg r).router → Step r r'
    subscriptions_deleted : r' ≡ (st_del r).router → Step r r'

  -- A router that has just started, and what it can become.
  pub data Reachable (expire_time : Option ℕ) : Router → Type 0 where
    started : Reachable expire_time record {
      fib = [];
      st = record { entries = []; expire_time = expire_time };
      faces = FaceManager.init;
    }
    after : (r r' : Router) → Reachable expire_time r → Step r r' → Reachable expire_time r'

  -- What the code takes for granted: a `Sub` comes over a face that is there, its descriptor has
  -- elements of the three known types with a component behind each option, and `createFace` is called
  -- before its 64-bit counter is used up.
  abbrev pub IsExpected : (r r' : Router) → Step r r' → Type 0
  IsExpected r r' (subscribed now id cd sends e) =
      ((face : Face) × (FaceManager.find id r.faces ≡ some face)) × IsMatchable cd.elements
  IsExpected r r' (connected endpoints e) = r.faces.face_serial + 1 < 2 ^ 64
  IsExpected r r' (route_added arg done e f) = r.faces.face_serial + 2 < 2 ^ 64
  IsExpected r r' (route_connected name ip port cost endpoints done e f) =
      r.faces.face_serial + 3 < 2 ^ 64
  IsExpected r r' _ = Unit

  -- A run in which this held at each step.
  unfoldable pub IsExpectedRun :
      (expire_time : Option ℕ) (r : Router) → Reachable expire_time r → Type 0
  IsExpectedRun _ _ started = Unit
  IsExpectedRun expire_time _ (after r r' before step) =
      IsExpectedRun expire_time r before × IsExpected r r' step
