-- ===== src/WebSocketConnection/Tests.antt =====
-- The inputs of the tests of WebSocket connections.
mod Receiving
mod Opening
mod Pieces
mod Sending
use websocket_engine.Base.{
  ℕ, ◌+◌, ◌<◌, ◌≡◌, refl, ap, ◌-◌, ◌∙◌, Bool, true, false, ◌&&◌, List, [], ◌∷◌, ◌++◌, Option, some,
  arith, ltb, ltb→lt, length, take, take_all, All, Outcome, ok, Bool-cases, inl, inr,
}
use websocket_engine.Buffer.{Buffer}
use websocket_engine.Buffer.Queue.{Holds}
use websocket_engine.Buffer.Numbers.{IsByte}
use websocket_engine.TcpConnection.{TcpConnection, connected}
use websocket_engine.TcpConnection.Stream.{Inv}
use websocket_engine.WebSocketConnection.Types.{
  WebSocketConnection, Callbacks, Event, pinged, ponged, connect,
}
use websocket_engine.WebSocketConnection.Control.{ReturnsNoting}
use websocket_engine.WebSocketConnection.Outgoing.{IsReady}

-- A buffer that is full of `xs`.
abbrev holding : List ℕ → Buffer
holding xs = record { buf = xs; read_index = 0; write_index = length xs; last_expand = 0 }

holding-Holds : (xs : List ℕ) → Holds (holding xs) xs
holding-Holds xs = record {
  valid = omega arith;
  held = ap (λ n. take n xs) (omega arith) ∙ take_all (length xs) xs (omega arith);
}

-- An open connection where `xs` has arrived and `ys` stands in `decodeBuf_`.
abbrev socket : List ℕ → TcpConnection
socket xs = record {
  id = 7;
  loop = 0;
  state = connected;
  buf = holding xs;
  output_buf = holding [];
  is_last_write = false;
  bytes_read = 0;
  bytes_written = 0;
  last_write = 0;
  reading = true;
  written = [];
  in_flight = 0;
  connection_calls = 1;
  close_calls = 0;
}

abbrev opened : List ℕ → List ℕ → WebSocketConnection
opened xs ys = record {
  conn = socket xs;
  status = connect;
  headers = [];
  last_header_field = [];
  output_buf = holding [];
  decode_buf = holding ys;
  fragmented_op_code = 0;
  header_read = false;
  wanted = 0;
  split = false;
  masked = false;
  payload_length = 0;
  opcode = 0;
  is_fin = false;
  mask_key = [];
  chunks = [];
  events = [];
}

socket-Inv : (xs : List ℕ) → Inv (socket xs)
socket-Inv xs = ground arith

opened-IsReady : (xs ys : List ℕ) → IsReady (opened xs ys)
opened-IsReady xs ys = record { sound = socket-Inv xs; able = inl refl; clean = holding-Holds [] }

-- An application that does nothing with what it gets.
abbrev on_text : List ℕ → Bool → WebSocketConnection → Outcome WebSocketConnection
on_text text is_binary w = ok w

abbrev on_control : List ℕ → WebSocketConnection → Outcome WebSocketConnection
on_control text w = ok w

abbrev on_opened : WebSocketConnection → Outcome WebSocketConnection
on_opened w = ok w

abbrev app : Callbacks
app = record {
  on_connection = some on_opened;
  on_close = some on_opened;
  on_message = some on_text;
  on_ping = some on_control;
  on_pong = some on_control;
}

abbrev ping_notes : List ℕ → List Event
ping_notes text = pinged text ∷ []

abbrev pong_notes : List ℕ → List Event
pong_notes text = ponged text ∷ []

on_ping-ReturnsNoting : ReturnsNoting pinged ping_notes app.on_ping
on_ping-ReturnsNoting text w = refl

on_pong-ReturnsNoting : ReturnsNoting ponged pong_notes app.on_pong
on_pong-ReturnsNoting text w = refl

abbrev all_bytes : List ℕ → Bool
all_bytes [] = true
all_bytes (x ∷ xs) = ltb x 256 && all_bytes xs

all_bytes-All : (xs : List ℕ) → all_bytes xs ≡ true → All IsByte xs
all_bytes-All [] h = tt
all_bytes-All (x ∷ xs) h = elim (Bool-cases (ltb x 256)) [
  | inl small ↦ (ltb→lt x 256 small, all_bytes-All xs (ground arith))
  | inr large ↦ absurd (ground arith)
]

abbrev key : List ℕ
key = 1 ∷ 2 ∷ 3 ∷ 4 ∷ []

abbrev hi : List ℕ
hi = 72 ∷ 105 ∷ []

abbrev there : List ℕ
there = 116 ∷ 104 ∷ 101 ∷ []
