-- ===== src/Tests/RtctrlWitnesses.antt =====
-- The control client at a sample command line and at sample replies.
use f_copss.Router.CmdServer.Reader.{is_colon}
use f_copss.Prelude.Text.{codes}
use f_copss.Cd.{Cd}
use f_copss.Prelude.{
  zero, refl, some, ◌==◌, none, ◌||◌, drop, ◌+◌, ◌&&◌, ◌≤◌, bytes_eq, [], if◌then◌else◌, leb,
  length, arith, ◌∷◌, any, Bytes, Bool, ◌≡◌, not,
}
use Prim.Native.Nat.{suc, ℕ}
use f_copss.Tests.Instances.{ndn_model, boost_model}
use f_copss.Tests.Witnesses.{uri_model}
use f_copss.Tests.ControlWitnesses.{host_model}
use f_copss.Rtctrl.Arguments.{Network, drop_all}
use f_copss.Rtctrl.Commands.FibAdd
use f_copss.Rtctrl.Commands.FibFile.{IniParser, Tree, fib_add_parse}
use f_copss.Rtctrl.Commands.FileEnds
use f_copss.Rtctrl.Arguments.{to_string}
use f_copss.Prelude.Outcome.{value}
use f_copss.Prelude.{Result, List, Option, ◌^◌}
use f_copss.Rtctrl.Request.{Request}

drop_all-length : (p : ℕ → Bool) (s : Bytes) → length (drop_all p s) ≤ length s
drop_all-length p [] = omega arith
drop_all-length p (c ∷ s) = let l = drop_all-length p s in ground arith

drop-length : (n : ℕ) (s : Bytes) → n ≤ length s → n + length (drop n s) ≡ length s
drop-length zero s l = omega arith
drop-length (suc n) [] l = omega arith
drop-length (suc n) (c ∷ s) l = omega (arith, drop-length n s (omega arith))

abbrev is_address_octet : ℕ → Bool
is_address_octet c = (leb 48 c && leb c 57) || c == b'.'

-- Each host name has one address, and none has a colon.
instance abbrev network_model : Network
network_model = record {
  is_address = λ s. not (any (λ c. not (is_address_octet c)) s);
  resolve = λ name service. if any is_colon name then none else some (codes "10.0.0.3");
  leftover = λ p s. drop (length (drop_all p s)) s;
  leftover-length = λ p s. drop-length (length (drop_all p s)) s (drop_all-length p s);
}

abbrev sports : Cd
sports = record { elements = ndn_model.component (codes "sports") ∷ [] }

abbrev find_text : Bytes → List (Bytes × Bytes) → Option Bytes
find_text key [] = none
find_text key ((k, text) ∷ rest) =
    let later = find_text key rest in if bytes_eq key k then some text else later

-- A file with one route and one face.
abbrev routes_file : Tree
routes_file key = find_text key (
    (codes "FIB.Name0", codes "/sports")
    ∷ (codes "FIB.NextHop0", codes "1")
    ∷ (codes "FIB.Cost0", codes "5")
    ∷ (codes "FACES.FaceId0", codes "1")
    ∷ (codes "FACES.Protocol0", codes "tcp")
    ∷ (codes "FACES.Remote0", codes "10.0.0.2:9000")
    ∷ [])

instance abbrev ini_model : IniParser
ini_model = record { read_ini = λ path. some routes_file }

routes_file-HasEnds : FileEnds.HasEnds 9876 routes_file
unfolding bytes_eq to_string
routes_file-HasEnds = ((1, (refl, ground arith)), (1, (refl, ground arith)))

fib_add_parse-Returns_example :
    (r : Result (List Request)) × (fib_add_parse 9876
        (2 ^ 16)
        (codes "rtctrl" ∷ codes "fibadd" ∷ codes "-f" ∷ codes "fib.ini" ∷ [])
      ≡ value r)
fib_add_parse-Returns_example =
    FileEnds.fib_add_parse-Returns 9876
      (codes "rtctrl" ∷ codes "fibadd" ∷ codes "-f" ∷ codes "fib.ini" ∷ [])
      λ path tree e. let same : tree ≡ routes_file = cc in rw same routes_file-HasEnds
