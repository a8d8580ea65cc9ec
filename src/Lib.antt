-- ===== src/Lib.antt =====
-- fCOPSS, a content-oriented publish/subscribe system on top of NDN blocks. Subscribers send `Sub`
-- packets and publishers send `PubToRp` packets to a router. The router forwards both towards a
-- rendezvous point along its forwarding table (`Fib`); the rendezvous point turns a `PubToRp` into a
-- `PubFromRp` and sends it back; the router passes that on to the faces whose subscriptions (`St`)
-- match its content descriptor (`Cd`).
--
-- What is modelled, and where:
--
-- - Ndn, Boost: the interfaces of ndn-cxx and Boost that the code calls, as records of operations
--   and of laws that state their documented behaviour. Every definition that calls them takes them
--   as instance arguments. A `Block` is what its accessors `type()` and `value()` show.
--   Ndn.Tlv has the numbers of include/fcopss/tlv.hpp, Ndn.Wire is `Block::fromBuffer` on
--   octets, and Ndn.Encoding is the encoder and the parser.
-- - Cd: src/lib/cd.cpp. A descriptor is the list of the elements of `m_cdBlock`. Cd.Parser is the
--   constructor from a URI (`of_uri`, `parse_cd_string`, `get_event_from_string`), with one value of
--   `Error` for each kind of exception. Cd.Equality has `equals` and `is_prefix_of`. Cd.Shape
--   describes the descriptors that a URI can denote, and Cd.Grammar relates the two. Cd.Printer is
--   `toUri`, with the options of cd-optional.cpp and the asterisk of cd-asterisk.cpp; Cd.RoundTrip
--   relates it to the parser. Cd.Index is the access to an element by a signed index.
--   Cd.Order is `compare` and the relational operators, on blocks with the octets that some of them
--   keep (Cd.Wired), in the integers of C++; Cd.Order.Canonical describes the order that they have.
--   Cd.Optional and Cd.Asterisk: the rest of cd-optional.cpp and cd-asterisk.cpp.
-- - Packets: the wire format of src/lib/sub.cpp, pub-to-rp.cpp, pub-from-rp.cpp and cd.cpp, and
--   `onPacketReceived` of src/router/face.cpp. Packets.Sub and Packets.Pub are the
--   objects with the wire block that they keep once they are encoded or decoded; the state is passed
--   on where the source has `mutable` and `const_cast`. PubToRp and PubFromRp differ in the type of
--   their block, which the operations of Packets.Pub take. An exception of `wireDecode` is that of
--   the constructor: there is no object.
-- - Router.Matching: `matchRegex` of src/router/st-impl.cpp. Its `while (true)` runs on fuel; each
--   round that does not repeat for ever passes an element of the entry, so one round more than there
--   are elements is enough. The read past the end and the endless loop are values of `Outcome`.
-- - Router.Table: the list of entries with ordered sets of next hops, and the operations that
--   src/router/st-impl.cpp and src/router/fib.cpp both have. A `std::set` is an ascending list
--   (Prelude.OrderedSet). Invariant, Lookup, Members and Update have their laws.
-- - Router.Fib: src/router/fib.cpp and fib-entry.cpp. Router.St: src/router/st-impl.cpp and
--   st-entry.cpp; the clock is an argument of `add`, a deadline is a number, or `none` for
--   `pos_infin`.
-- - Router.FaceManager: src/router/face-manager.cpp, and the data of src/router/face.cpp. The
--   addresses that a face copies from its transport are an argument.
-- - Router.Forwarder: src/router/forwarder.cpp. A handler returns the new state of the router and the
--   packets that it hands to faces, in order.
-- - Router.TcpTransport: src/router/tcp-transport.cpp. A handler returns the new state and what it
--   asks of the socket and the face, in order. The loop of `handleReceive` runs on fuel, one round
--   for each octet; each round passes a block, and a block is not empty, so this is enough.
--   Router.UdpTransport: src/router/udp-transport.cpp.
-- - Router.CmdServer: the control commands of src/router/cmd-server.cpp. Reader is
--   `readCmd`; Platform is what the commands use of Boost and of the operating system. `fibAdd` calls
--   itself once a new UDP face is there, so two calls are enough whenever it returns. A
--   command is a state, the actions on its client's socket and on faces, and the exception that it
--   raised, if any. Dispatch is `handleReceive`; Connection has the operations that the handlers start. Router.Dumps:
--   the texts of the tables and of the replies with them. Router.Servers: src/router/tcp-server.cpp
--   and udp-server.cpp.
-- - Rendezvous: src/rendezvous/forwarder.cpp, on the same table of faces. Network puts a router and
--   the rendezvous point together.
-- - Client.TcpTransport: src/lib/tcp-transport.cpp, in the style of Router.TcpTransport. Reception has
--   `receive` and `processMessage`, whose loop runs on fuel, one round for each octet, which is
--   enough for the same reason; Loop and Reassembly, Stream (with the timers that
--   are cancelled), Connecting, and Queue have its laws.
--   Client.UdpTransport: src/lib/udp-transport.cpp. Client.Face: src/lib/face.cpp, over an interface
--   that Face.Tcp fills with the TCP transport.
-- - Router.Run: what can happen to a router, as a step relation over its handlers, and the routers that
--   this leads to. Sound and Commands have the invariant, Reach what follows. What the
--   source takes for granted of a run is a predicate, IsExpectedRun.
-- - Rtctrl: the control client of src/rtctrl. Choice: `parseCmdType` of rtctrl.cpp. Request:
--   request.cpp. Response: response.cpp, and the texts of `sendOk` and `sendErr` in
--   src/router/cmd-server.cpp. Arguments: the parameters of a request in cmd.cpp, cmd-fibadd.cpp and cmd-facedel.cpp; a `map` is the list of its pairs in the
--   order of the keys (Param), and what `std::remove_if` leaves behind its end is an argument.
--   Commands: `parse` of the commands that change something. Its FibFile is the reading of routes
--   from a file, in loops with a `uint16_t` that counts: the fuel is 65536 rounds, which FileEnds
--   shows to be enough when a number is missing behind each key. Without one the code goes on for
--   ever. Dumps: what the client reads and prints of the dumps. A socket is the octets that it still
--   brings, and the router's answer to a request is a function of its text.
-- - Config: src/lib/config.cpp, over the property tree that Boost reads from the file.
-- - Tests: the interfaces filled by concrete functions, the network of README.md, and the theorems at
--   inputs that meet their hypotheses.
--
-- Not modelled: logging, sockets and threads of Boost.Asio, signals, the command lines of
-- the daemons and the reading of the text of configuration files, which are input and output only.
pub mod Prelude
pub mod Ndn
pub mod Boost
pub mod Cd
pub mod Router
pub mod Rendezvous
pub mod Packets
pub mod Config
pub mod Client
pub mod Rtctrl
mod Tests
