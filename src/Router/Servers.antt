-- ===== src/Router/Servers.antt =====
-- src/router/tcp-server.cpp and udp-server.cpp: a new connection, or the first datagram of a new
-- remote end, becomes a face. The ends of the new socket are an argument.
use f_copss.Prelude.{List, [], ◌∷◌}
use f_copss.Router.FaceManager
use f_copss.Router.FaceManager.{Endpoints, FaceManager}
use f_copss.Router.TcpTransport.{Status, success, operation_aborted, failed}

-- What a server waits for next.
pub data Wait : Type 0 where
  async_accept async_receive_from : Wait

-- `TcpServer::handleAccept`.
unfoldable pub accept_connection : Status → Endpoints → FaceManager → FaceManager × List Wait
accept_connection success ends faces = ((FaceManager.create_face ends faces).0, async_accept ∷ [])
accept_connection operation_aborted ends faces = (faces, [])
accept_connection failed ends faces = (faces, [])

-- `UdpServer::handleReceive`.
unfoldable pub receive_first : Status → Endpoints → FaceManager → FaceManager × List Wait
receive_first success ends faces = ((FaceManager.create_face ends faces).0, async_receive_from ∷ [])
receive_first operation_aborted ends faces = (faces, async_receive_from ∷ [])
receive_first failed ends faces = (faces, async_receive_from ∷ [])
