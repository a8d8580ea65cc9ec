-- ===== src/Router/CmdServer/Connection.antt =====
-- src/router/cmd-server.cpp: the connection of a control client, one at a time, and the timers.
use f_copss.Prelude.{List, [], ◌∷◌}
use f_copss.Router.TcpTransport.{Status, success, operation_aborted, failed}

-- What a handler starts, ends, or closes. `read_until` reads up to the empty line.
pub data Operation : Type 0 where
  async_accept read_until arm_receive_timer cancel_receive_timer close_client : Operation
  open_connection async_connect arm_connect_timer close_connection : Operation

abbrev pub start : List Operation
start = async_accept ∷ []

abbrev pub async_receive : List Operation
async_receive = read_until ∷ arm_receive_timer ∷ []

unfoldable pub handle_accept : Status → List Operation
handle_accept success = async_receive
handle_accept operation_aborted = []
handle_accept failed = []

unfoldable pub handle_receive_timeout : Status → List Operation
handle_receive_timeout success = close_client ∷ async_accept ∷ []
handle_receive_timeout operation_aborted = []
handle_receive_timeout failed = []

-- `handleReceive` with an error: `failed` stands for the end of the stream, a reset and the rest.
-- An aborted read is the one that the timeout has closed.
unfoldable pub handle_receive_error : Status → List Operation
handle_receive_error success = cancel_receive_timer ∷ []
handle_receive_error operation_aborted = cancel_receive_timer ∷ []
handle_receive_error failed = cancel_receive_timer ∷ close_client ∷ async_accept ∷ []

abbrev pub fib_add_tcp_face : List Operation
fib_add_tcp_face = open_connection ∷ async_connect ∷ arm_connect_timer ∷ []

unfoldable pub handle_connect_timeout : Status → List Operation
handle_connect_timeout success = close_connection ∷ []
handle_connect_timeout operation_aborted = []
handle_connect_timeout failed = []
