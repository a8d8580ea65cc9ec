-- ===== src/Tests/Samples.antt =====
-- The network of README.md: a router on which the rendezvous point is behind face 101 and a
-- subscriber behind face 102.
use f_copss.Router.Matching.Totality.{IsMatchable}
use f_copss.Tests.Instances.{ndn_model}
use f_copss.Router.Forwarder.{Router}
use f_copss.Router.FaceManager.{Endpoints, FaceManager, Face}
use f_copss.Cd.{Cd}
use f_copss.Prelude.{[], ◌∷◌, arith, some}
use Prim.Native.Nat.{ℕ}
use f_copss.Prelude.Text.{codes}
use f_copss.Router.Fib
use f_copss.Router.St
use f_copss.Router.FaceManager.Ids
use f_copss.Router.Table.Invariant.{IsWellFormed}
use f_copss.Cd.Shape.{Shape, plain, grouped, blocks}

-- `/1(/2/3/0)/sports/tennis`
abbrev pub tennis : Shape
tennis =
    grouped [] (codes "1") (codes "2" ∷ codes "3" ∷ []) (codes "0") (codes "sports")
      (codes "tennis" ∷ [])

abbrev pub tennis_cd : Cd
tennis_cd = record { elements = blocks tennis }

-- `/1/2/sports/tennis`, which the group admits, and `/1/3/sports/tennis`, which it does not.
abbrev pub match_point : Shape
match_point = plain (codes "1" ∷ codes "2" ∷ codes "sports" ∷ codes "tennis" ∷ [])

abbrev pub match_point_cd : Cd
match_point_cd = record { elements = blocks match_point }

abbrev pub other_point_cd : Cd
other_point_cd = record {
  elements = blocks (plain (codes "1" ∷ codes "3" ∷ codes "sports" ∷ codes "tennis" ∷ []));
}

abbrev pub root_cd : Cd
root_cd = record { elements = [] }

abbrev pub sports_cd : Cd
sports_cd = record { elements = blocks (plain (codes "sports" ∷ [])) }

abbrev pub loopback : ℕ → Endpoints
loopback port = record {
  type = codes "tcp";
  local_ip = codes "127.0.0.1";
  local_port = 9876;
  remote_ip = codes "127.0.0.1";
  remote_port = port;
}

abbrev pub rendezvous_face : Face
rendezvous_face = record { id = 101; endpoints = loopback 9878 }

abbrev pub subscriber_face : Face
subscriber_face = record { id = 102; endpoints = loopback 40000 }

abbrev pub faces : FaceManager
faces = record { face_serial = 102; face_table = rendezvous_face ∷ subscriber_face ∷ [] }

abbrev pub fib : Fib.Fib
fib =
    record {
      cd = root_cd;
      next_hops = record { face_id = 101; cost = 0 } ∷ record { face_id = 102; cost = 7 } ∷ [];
    }
    ∷ []

abbrev pub st : St.St
st = record {
  expire_time = some 30;
  entries =
      record { cd = tennis_cd; next_hops = record { face_id = 102; expires_at = some 40 } ∷ [] }
      ∷ [];
}

abbrev pub router : Router
router = record { fib = fib; st = st; faces = faces }

-- The same router before anybody has subscribed.
abbrev pub quiet : Router
quiet = record { fib = fib; st = record { expire_time = some 30; entries = [] }; faces = faces }

pub fib-IsWellFormed : IsWellFormed ⦃ndn = ndn_model⦄ Fib.hop_face fib
fib-IsWellFormed = omega arith

pub st-IsWellFormed : IsWellFormed ⦃ndn = ndn_model⦄ St.hop_face st.entries
st-IsWellFormed = omega arith

pub tennis-IsMatchable : IsMatchable tennis_cd.elements
tennis-IsMatchable = ground arith

pub faces-IsWellFormed : Ids.IsWellFormed faces
faces-IsWellFormed = omega arith
