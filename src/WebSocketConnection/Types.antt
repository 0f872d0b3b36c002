-- ===== src/WebSocketConnection/Types.antt =====
-- The data of include/ws/WebSocketConnection.h.
use websocket_engine.Base.{
  ℕ, Bool, true, false, List, [], ◌∷◌, ◌++◌, Option, none, some, Outcome, ok,
}
use websocket_engine.Buffer
use websocket_engine.Buffer.{Buffer, initial_size}
use websocket_engine.TcpConnection.{TcpConnection}

-- `enum StatusCode`
pub data StatusCode : Type 0 where
  normal_close going_away protocol_error unexpect_payload : StatusCode

abbrev pub code_of : StatusCode → ℕ
code_of normal_close = 1000
code_of going_away = 1001
code_of protocol_error = 1002
code_of unexpect_payload = 1003

-- `code != NORMAL_CLOSE`
abbrev pub is_failure : StatusCode → Bool
is_failure normal_close = false
is_failure _ = true

-- `enum Status`
pub data Status : Type 0 where
  initial handshake connect closing closed : Status

-- `status_ == CONNECT`, and so on
abbrev pub is_initial : Status → Bool
is_initial initial = true
is_initial _ = false

abbrev pub is_connect : Status → Bool
is_connect connect = true
is_connect _ = false

abbrev pub is_closing : Status → Bool
is_closing closing = true
is_closing _ = false

-- The calls of the application's callbacks.
pub data Event : Type 0 where
  opened shut_down : Event
  message : List ℕ → Bool → Event
  pinged ponged : List ℕ → Event

abbrev pub initial_decode_buf_size : ℕ
initial_decode_buf_size = 64

-- Nothing uses it.
abbrev pub min_packet_size : ℕ
min_packet_size = 2

-- The fields of the class that decode and send, with `*conn_`. The buffer that `decode` gets by
-- reference is `conn.buf`. `chunks`, what the HTTP parser was fed so far, stands for its state;
-- `events` is a ghost, the application's callbacks in the order of their calls.
pub record WebSocketConnection : Type 0 where
  pub conn : TcpConnection
  pub status : Status
  pub headers : List (List ℕ × List ℕ)
  pub last_header_field : List ℕ
  pub output_buf : Buffer
  pub decode_buf : Buffer
  pub fragmented_op_code : ℕ
  pub header_read : Bool
  pub wanted : ℕ
  pub split : Bool
  pub masked : Bool
  pub payload_length : ℕ
  pub opcode : ℕ
  pub is_fin : Bool
  pub mask_key : List ℕ
  pub chunks : List (List ℕ)
  pub events : List Event

-- The callbacks of the application get the connection that they are called on, and may do with it what
-- they want. In the source they are any closures; one that uses other connections is not modelled.
-- `WSConnectionCallback` and `WSCloseCallback`
abbrev pub ConnectionCallback : Type 0
ConnectionCallback = WebSocketConnection → Outcome WebSocketConnection

-- `WSMessageCallback`, with the message and whether it is binary
abbrev pub MessageCallback : Type 0
MessageCallback = List ℕ → Bool → WebSocketConnection → Outcome WebSocketConnection

-- `WSPingCallback` and `WSPongCallback`
abbrev pub PingCallback : Type 0
PingCallback = List ℕ → WebSocketConnection → Outcome WebSocketConnection

-- The callbacks that the application has set. Each gets the connection and may use it.
pub record Callbacks : Type 0 where
  pub on_connection : Option ConnectionCallback
  pub on_close : Option ConnectionCallback
  pub on_message : Option MessageCallback
  pub on_ping : Option PingCallback
  pub on_pong : Option PingCallback

-- The constructor. The fields that it does not initialise get values here that nothing reads
-- before it is set.
unfoldable pub new : TcpConnection → WebSocketConnection
unfolding Buffer.new
new conn = record {
  conn = conn;
  status = initial;
  headers = [];
  last_header_field = [];
  output_buf = Buffer.new initial_size;
  decode_buf = Buffer.new initial_decode_buf_size;
  fragmented_op_code = 0;
  header_read = false;
  wanted = 0;
  split = false;
  masked = false;
  payload_length = 0;
  opcode = 0;
  is_fin = false;
  mask_key = [];
  chunks = [];
  events = [];
}

abbrev pub set_input : WebSocketConnection → Buffer → WebSocketConnection
set_input w b = record w { conn = record w.conn { buf = b } }

-- A callback that is not set is not called.
abbrev pub notify :
    Option (WebSocketConnection → Outcome WebSocketConnection)
    → Event
    → WebSocketConnection
    → Outcome WebSocketConnection
notify none e w = ok w
notify (some call) e w = call (record w { events = w.events ++ (e ∷ []) })

-- `onClose`'s `handleClose`, which the TCP connection runs once it is closed.
unfoldable pub handle_close : Callbacks → WebSocketConnection → Outcome WebSocketConnection
handle_close app w = notify app.on_close shut_down (record w { status = closed })

-- `handleConnection`
unfoldable pub handle_connection : Callbacks → WebSocketConnection → Outcome WebSocketConnection
handle_connection app w = notify app.on_connection opened (record w { status = connect })

unfoldable pub clear_decode_status : WebSocketConnection → WebSocketConnection
clear_decode_status w = record w { wanted = 0; header_read = false }
