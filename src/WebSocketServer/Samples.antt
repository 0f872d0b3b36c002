-- ===== src/WebSocketServer/Samples.antt =====
-- A server with two connections, for the tests.
use websocket_engine.Base.{true, false, [], ◌∷◌, none, some, replicate}
use websocket_engine.Buffer.{Buffer}
use websocket_engine.TcpConnection.{TcpConnection, connected}
use websocket_engine.TcpConnection.Callbacks.{Connection}
use websocket_engine.TcpServer.{Incoming}
use websocket_engine.WebSocketConnection.Types.{WebSocketConnection, connect}
use websocket_engine.WebSocketConnection.Handshake.{HttpParser, Digests}
use websocket_engine.Base.{ok}
use websocket_engine.WebSocketServer.{
  Memory, Handler, messages, connections, closing, socket_closed, Server,
}

abbrev pub parser : HttpParser
parser past chunk = ([], 0)

abbrev pub digests : Digests
digests = record { sha1 = λ bytes. []; base64_encode = λ bytes. bytes }

abbrev pub empty_buffer : Buffer
empty_buffer = record { buf = replicate 16 0; read_index = 0; write_index = 0; last_expand = 0 }

abbrev pub conn : TcpConnection
conn = record {
  id = 3;
  loop = 0;
  state = connected;
  buf = empty_buffer;
  output_buf = empty_buffer;
  is_last_write = false;
  bytes_read = 0;
  bytes_written = 0;
  last_write = 0;
  reading = true;
  written = [];
  in_flight = 0;
  connection_calls = 1;
  close_calls = 0;
}

-- After the handshake, with `onClose` called.
abbrev pub peer : Connection Handler
peer = record {
  conn = conn;
  calls = record {
    connection = some connections;
    message = some messages;
    close = some socket_closed;
    write_complete = none;
  };
  fd = some 12;
  shutting = false;
}

abbrev pub socket : WebSocketConnection
socket = record {
  conn = conn;
  status = connect;
  headers = [];
  last_header_field = [];
  output_buf = empty_buffer;
  decode_buf = empty_buffer;
  fragmented_op_code = 0;
  header_read = false;
  wanted = 0;
  split = false;
  masked = false;
  payload_length = 0;
  opcode = 0;
  is_fin = false;
  mask_key = [];
  chunks = [];
  events = [];
}

-- Before its first bytes.
abbrev pub fresh_peer : Connection Handler
fresh_peer = record peer {
  conn = record conn { id = 4 };
  calls = record peer.calls { close = some closing };
  fd = some 13;
}

abbrev pub server : Server
server = record {
  next_id = 5;
  loop = 0;
  pool = record { threads = []; loops = []; next = 0; base_loop = 0 };
  listened = true;
  fd = 9;
  fetched = false;
  message_callback = some messages;
  connection_callback = some connections;
  connection_map = (3, peer) ∷ (4, fresh_peer) ∷ [];
  is_open = true;
  released = [];
  more = record { ws_conns = (3, socket) ∷ []; given_up = []; dangling = [] };
}

abbrev pub newcomer : Incoming
newcomer = record { server_fd = 9; accepted = some 14; junk = 77 }

-- An application that holds no pointers, and a reference that still reaches the connection.
abbrev pub careless : Memory
careless = record { keeps = false; conn_reads = λ last now. ok now }
