-- ===== src/Router/FaceManager.antt =====
-- src/router/face-manager.cpp and face.cpp: the table of the faces, ordered by their ids. What a
-- face copies from its transport when it is made is an argument.
pub mod Ids
use f_copss.Prelude.OrderedSet
use f_copss.Prelude.{
  ℕ, ◌+◌, ◌%◌, ◌^◌, Bool, ◌&&◌, List, [], ◌∷◌, Option, none, some, Bytes, bytes_eq, ◌==◌,
  if◌then◌else◌,
}

-- What `getType`, `getLocalIp` and the other accessors of a transport answer.
pub record Endpoints : Type 0 where
  pub type : Bytes
  pub local_ip : Bytes
  pub local_port : ℕ
  pub remote_ip : Bytes
  pub remote_port : ℕ

pub record Face : Type 0 where
  pub id : ℕ
  pub endpoints : Endpoints
  pub open endpoints use *

abbrev pub face_id : Face → ℕ
face_id face = face.id

pub record FaceManager : Type 0 where
  pub face_serial : ℕ
  pub face_table : List Face

abbrev pub init : FaceManager
init = record { face_serial = 100; face_table = [] }

-- `createFaceId`: the counter is a `uint64_t`.
abbrev pub next_serial : ℕ → ℕ
next_serial serial = (serial + 1) % 2 ^ 64

-- `m_faceTable[id] = face` replaces a face with the same id.
unfoldable pub create_face : Endpoints → FaceManager → FaceManager × Face
create_face endpoints manager =
    let id = next_serial manager.face_serial in
    let face : Face = record { id = id; endpoints = endpoints } in
    (
      record {
        face_serial = id;
        face_table =
            OrderedSet.insert face_id face (OrderedSet.erase face_id id manager.face_table);
      },
      face,
    )

unfoldable pub remove : ℕ → FaceManager → FaceManager
remove id manager = record manager { face_table = OrderedSet.erase face_id id manager.face_table }

unfoldable pub find : ℕ → FaceManager → Option Face
find id manager = OrderedSet.find face_id id manager.face_table

abbrev pub is_at : Bytes → Bytes → ℕ → Face → Bool
is_at type ip port face =
    bytes_eq face.type type && bytes_eq face.remote_ip ip && face.remote_port == port

unfoldable pub first_at : Bytes → Bytes → ℕ → List Face → Option Face
first_at type ip port [] = none
first_at type ip port (face ∷ faces) =
    if is_at type ip port face then some face else first_at type ip port faces

-- `find(type, remoteIp, remotePort)`: the first in the order of the ids.
unfoldable pub find_remote : Bytes → Bytes → ℕ → FaceManager → Option Face
unfolding first_at
find_remote type ip port manager = first_at type ip port manager.face_table
