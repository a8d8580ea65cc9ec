-- ===== src/Tests/ControlWitnesses.antt =====
-- The control commands on the network of README.md.
use f_copss.Router.CmdServer.{face_del}
use f_copss.Router.FaceManager.{Endpoints}
use f_copss.Tests.Samples.{router}
use f_copss.Prelude.{
  ◌^◌, ◌&&◌, leb, ◌-◌, ◌+◌, refl, none, ltb, ◌<◌, ◌*◌, bytes_eq, if◌then◌else◌, arith, ◌≡◌, some,
  [], Option, ◌∷◌, ok, Bytes,
}
use Prim.Native.Nat.{ℕ}
use f_copss.Tests.Instances.{ndn_model, boost_model}
use f_copss.Router.CmdServer.Platform.{Host}
use f_copss.Router.CmdServer.Routes
use f_copss.Router.CmdServer.Answers
use f_copss.Rtctrl.Request
use f_copss.Rtctrl.Request.{Request}
use f_copss.Rtctrl.Request.RoundTrip
use f_copss.Router.CmdServer.Reader.{read_cmd, cmd_type, cmd_face_del}
use f_copss.Prelude.Text.{codes}

-- Decimal digits, and the value that they have behind the digits before them.
abbrev pub decimal_from : ℕ → Bytes → Option ℕ
decimal_from n [] = some n
decimal_from n (c ∷ s) =
    let rest = decimal_from (10 * n + (c - 48)) s in if leb 48 c && leb c 57 then rest else none

abbrev pub below : ℕ → Option ℕ → Option ℕ
below limit none = none
below limit (some n) = if ltb n limit then some n else none

pub below_bound : (limit : ℕ) (o : Option ℕ) (n : ℕ) → below limit o ≡ some n → n < limit
below_bound limit none n e = absurd cc
below_bound limit (some m) n e = ground arith

abbrev pub udp_ends : Bytes → ℕ → Endpoints
udp_ends ip port = record {
  type = codes "udp";
  local_ip = codes "127.0.0.1";
  local_port = 9876;
  remote_ip = ip;
  remote_port = port;
}

instance abbrev pub host_model : Host
host_model = record {
  lexical_cast = λ limit s. below limit (decimal_from 0 s);
  lexical_cast_bound = λ limit s n e. below_bound limit (decimal_from 0 s) n e;
  udp_connect = λ ip port. ok (udp_ends ip port);
}

read_cmd-format_example :
    read_cmd
      (Request.format (record { cmd = codes "FACE-DEL"; param = (codes "FACE", codes "102") ∷ [] }))
    ≡ ok (cmd_face_del, (codes "FACE", codes "102") ∷ [])
read_cmd-format_example =
    RoundTrip.read_cmd-format
      (record { cmd = codes "FACE-DEL"; param = (codes "FACE", codes "102") ∷ [] }) cmd_face_del
      (unfold cmd_type bytes_eq in refl) (ground arith) (ground arith)

face_del-Answers_example :
    Answers.IsAnswered
      (codes "FACE")
      (2 ^ 64)
      ((codes "FACE", codes "x") ∷ [])
      router
      (face_del ((codes "FACE", codes "x") ∷ []) router)
face_del-Answers_example = Answers.face_del-Answers ((codes "FACE", codes "x") ∷ []) router
