-- ===== src/Router/Dumps.antt =====
-- The texts of the tables: `toString` and `dump` of src/router/fib-entry.cpp, fib.cpp, st-entry.cpp,
-- st-impl.cpp, face.cpp and face-manager.cpp, and the replies of src/router/cmd-server.cpp with them.
use f_copss.Router.Fib
use f_copss.Router.St
use f_copss.Router.FaceManager.{Face, FaceManager}
use f_copss.Router.Table.{Entry, Table}
use f_copss.Router.Forwarder.{Router}
use f_copss.Cd.Printer.{ComponentUri, to_uri}
use f_copss.Prelude.Decimal.{decimal}
use f_copss.Prelude.Text.{codes}
use f_copss.Prelude.{length, List, Option, Bytes, ℕ, [], ◌∷◌, map, ◌++◌, none, some}

-- The local time of a deadline as Boost.DateTime prints it by the format `%Y-%m-%d %H:%M:%S`.
pub record LocalTime : Type 0 where
  pub local_time : ℕ → Bytes

-- `FibEntry::NextHop::toString`.
unfoldable pub fib_hop_text : Fib.NextHop → Bytes
fib_hop_text hop = b'(' ∷ (decimal hop.face_id ++ (b',' ∷ (decimal hop.cost ++ (b')' ∷ []))))

module _ {H : Type 0} (hop_text : H → Bytes) where
  unfoldable pub hops_text : List H → Bytes
  hops_text [] = []
  hops_text (hop ∷ hops) = hop_text hop ++ hops_text hops

  module _ ⦃uri : ComponentUri⦄ where
    -- `toString` of an entry of either table.
    abbrev pub entry_text : Entry H → Bytes
    entry_text e = to_uri e.cd ++ (b'=' ∷ hops_text e.next_hops)

    unfoldable pub dump_table : Table H → List Bytes
    unfolding hops_text
    dump_table [] = []
    dump_table (e ∷ entries) = entry_text e ∷ dump_table entries

-- `StEntry::NextHop::toString`.
abbrev pub expiry_text : ⦃time : LocalTime⦄ → Option ℕ → Bytes
expiry_text none = codes "INFINITY"
expiry_text ⦃time⦄ (some deadline) = time.local_time deadline

unfoldable pub st_hop_text : ⦃time : LocalTime⦄ → St.NextHop → Bytes
st_hop_text hop =
    b'(' ∷ (decimal hop.face_id ++ (b',' ∷ (expiry_text hop.expires_at ++ (b')' ∷ []))))

-- `Face::toString`: an address and a port, and what follows them.
abbrev end_text : Bytes → ℕ → Bytes → Bytes
end_text ip port behind = ip ++ (b':' ∷ (decimal port ++ behind))

abbrev pub face_ends : Face → Bytes
face_ends face =
    let remote = b',' ∷ end_text face.remote_ip face.remote_port (b')' ∷ []) in
    face.type ++ (b',' ∷ end_text face.local_ip face.local_port remote)

unfoldable pub face_text : Face → Bytes
face_text face = decimal face.id ++ (b'=' ∷ b'(' ∷ face_ends face)

-- `dump` of the three tables.
unfoldable pub dump_faces : FaceManager → List Bytes
dump_faces manager = map face_text manager.face_table

abbrev pub dump_fib : ⦃uri : ComponentUri⦄ → Fib.Fib → List Bytes
dump_fib fib = dump_table fib_hop_text fib

abbrev pub dump_st : ⦃uri : ComponentUri⦄ ⦃time : LocalTime⦄ → St.St → List Bytes
dump_st st = dump_table st_hop_text st.entries

-- The loop that writes the lines.
unfoldable pub put_lines : List Bytes → Bytes
put_lines [] = []
put_lines (line ∷ lines) = line ++ (13 ∷ 10 ∷ put_lines lines)

-- The text of a reply with the number of the lines, under a name, and the lines.
unfoldable pub dump_reply : Bytes → List Bytes → Bytes
unfolding put_lines
dump_reply name lines =
    codes "OK"
    ++ (13
        ∷ 10
        ∷ (name
            ++ (codes ": " ++ (decimal (length lines) ++ (13 ∷ 10 ∷ 13 ∷ 10 ∷ put_lines lines)))))

-- `stDump`, `fibDump` and `faceDump`.
abbrev pub st_reply : ⦃uri : ComponentUri⦄ ⦃time : LocalTime⦄ → Router → Bytes
st_reply router = dump_reply (codes "ST-COUNT") (dump_st router.st)

abbrev pub fib_reply : ⦃uri : ComponentUri⦄ → Router → Bytes
fib_reply router = dump_reply (codes "FIB-COUNT") (dump_fib router.fib)

abbrev pub face_reply : Router → Bytes
face_reply router = dump_reply (codes "FACE-COUNT") (dump_faces router.faces)
