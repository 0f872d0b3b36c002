-- ===== src/WebSocketConnection/Messages.antt =====
-- Messages: src/WebSocketConnection.cpp, the cases 0 to 2 of `decode`, for frames that arrive whole.

use websocket_engine.Base.{
  ℕ, ◌^◌, ◌<◌, ◌≡◌, ◌≢◌, refl, sym, ap, ◌∙◌, Bool, true, false, List, [], ◌∷◌, ◌++◌, some, arith,
  length, All, Outcome, ok, ◌>>=◌,
}
use websocket_engine.Buffer.{readable_bytes}
use websocket_engine.Buffer.Queue.{Holds, advance, read_string_ok}
use websocket_engine.Buffer.Numbers.{IsByte}
use websocket_engine.TcpConnection.Stream.{advance_all}
use websocket_engine.WebSocketConnection.Types.{
  WebSocketConnection, Callbacks, message, clear_decode_status,
}
use websocket_engine.WebSocketConnection.Send.{opcode_for}
use websocket_engine.WebSocketConnection.Decode.{dispatch, decode_step}
use websocket_engine.WebSocketConnection.Frames.{client_frame, Arrived, frame_arrives}

-- What the message callback is called on: the message is noted, `decodeBuf_` is empty, and `rest`
-- is left in the input.
pub record Delivered (w : WebSocketConnection) (text : List ℕ) (is_binary : Bool) (rest : List ℕ)
    (w' : WebSocketConnection) : Type 0 where
  pub noted : w'.events ≡ w.events ++ (message text is_binary ∷ [])
  pub emptied : Holds w'.decode_buf []
  pub left : Holds w'.conn.buf rest
  pub capacity : length w'.conn.buf.buf ≡ length w.conn.buf.buf
  pub status : w'.status ≡ w.status
  pub out : w'.output_buf ≡ w.output_buf
  pub conn : record w'.conn { buf = w.conn.buf } ≡ w.conn

-- `w'` is `w` within a message of the kind `opcode`, of which it has `text`.
pub record Gathered (w : WebSocketConnection) (opcode : ℕ) (text rest : List ℕ)
    (w' : WebSocketConnection) : Type 0 where
  pub fragmented : w'.fragmented_op_code ≡ opcode
  pub kept : Holds w'.decode_buf text
  pub left : Holds w'.conn.buf rest
  pub capacity : length w'.conn.buf.buf ≡ length w.conn.buf.buf
  pub fresh : w'.header_read ≡ false
  pub status : w'.status ≡ w.status
  pub out : w'.output_buf ≡ w.output_buf
  pub events : w'.events ≡ w.events
  pub conn : record w'.conn { buf = w.conn.buf } ≡ w.conn

-- The input holds one whole frame, with a key of four bytes, and `rest` behind it.
pub record HasFrame (w : WebSocketConnection) (fin : Bool) (opcode : ℕ) (key payload rest : List ℕ)
    : Type 0 where
  pub fresh : w.header_read ≡ false
  pub input : Holds w.conn.buf (client_frame fin opcode key payload ++ rest)
  pub bytes : All IsByte (client_frame fin opcode key payload ++ rest)
  pub capacity : length w.conn.buf.buf < 2 ^ 63
  pub size : length payload < 2 ^ 64
  pub key_size : length key ≡ 4

pub frame_step :
    (app : Callbacks) (w : WebSocketConnection) (fin : Bool) (opcode : ℕ)
    (old key payload rest : List ℕ)
    → HasFrame w fin opcode key payload rest
    → Holds w.decode_buf old
    → opcode < 16
    → (w' : WebSocketConnection) × (decode_step app w ≡ dispatch app w' (length old))
      × Arrived w fin opcode old payload rest w'
frame_step app w fin opcode old key payload rest f d o =
    frame_arrives app w fin opcode old key payload rest f.fresh d f.input f.bytes f.capacity o
      f.size f.key_size

-- The connection that the message callback is called on.
abbrev taken : WebSocketConnection → List ℕ → Bool → WebSocketConnection
taken w text is_binary = record w {
  decode_buf = advance w.decode_buf (readable_bytes w.decode_buf);
  events = w.events ++ (message text is_binary ∷ []);
}

module _ (app : Callbacks)
    {call : List ℕ → Bool → WebSocketConnection → Outcome WebSocketConnection}
    (heard : app.on_message ≡ some call) where
  dispatch_message :
      (w : WebSocketConnection) {text : List ℕ} (is_binary : Bool) (origin : ℕ)
      → w.opcode ≡ opcode_for is_binary
      → w.is_fin ≡ true
      → w.fragmented_op_code ≡ 0
      → Holds w.decode_buf text
      → dispatch app w origin
        ≡ (call text is_binary (taken w text is_binary) >>= λ v. ok (clear_decode_status v, true))
  unfolding dispatch
  dispatch_message w true origin o f g k = ground (arith, heard, read_string_ok k.valid, k.held)
  dispatch_message w false origin o f g k = ground (arith, heard, read_string_ok k.valid, k.held)

  dispatch_last :
      (w : WebSocketConnection) {text : List ℕ} (is_binary : Bool) (origin : ℕ)
      → w.opcode ≡ 0
      → w.is_fin ≡ true
      → w.fragmented_op_code ≡ opcode_for is_binary
      → Holds w.decode_buf text
      → dispatch app w origin ≡ (
          call text is_binary (taken w text is_binary) >>= λ v.
          ok (clear_decode_status (record v { fragmented_op_code = 0 }), true))
  unfolding dispatch
  dispatch_last w true origin o f g k = ground (arith, heard, read_string_ok k.valid, k.held)
  dispatch_last w false origin o f g k = ground (arith, heard, read_string_ok k.valid, k.held)

  -- A whole text or binary frame outside of a fragmented message: the callback gets what
  -- `decodeBuf_` held before it, then the payload.
  pub message_behind :
      (w : WebSocketConnection) (is_binary : Bool) (old key payload rest : List ℕ)
      → HasFrame w true (opcode_for is_binary) key payload rest
      → Holds w.decode_buf old
      → w.fragmented_op_code ≡ 0
      → (w' : WebSocketConnection) × (decode_step app w
          ≡ (call (old ++ payload) is_binary w' >>= λ v. ok (clear_decode_status v, true)))
        × Delivered w (old ++ payload) is_binary rest w'
  message_behind w is_binary old key payload rest f d g =
      let (v, e, a) =
        frame_step app w true (opcode_for is_binary) old key payload rest f d (ground arith) in
      (
        taken v (old ++ payload) is_binary,
        e ∙ dispatch_message v is_binary (length old) a.code a.final (a.fragmented ∙ g) a.kept,
        record {
          noted = ap (λ t. t ++ (message (old ++ payload) is_binary ∷ [])) a.events;
          emptied = advance_all a.kept.valid;
          left = a.left;
          capacity = a.capacity;
          status = a.status;
          out = a.out;
          conn = a.conn;
        },
      )

  -- A whole text or binary frame outside of a fragmented message, while `decodeBuf_` is empty: the
  -- message callback is called once, with exactly the frame's payload and whether it is binary, on a
  -- connection of which, but for the frame, nothing is consumed and nothing is sent; then the next
  -- header is read.
  pub message_arrives :
      (w : WebSocketConnection) (is_binary : Bool) (key payload rest : List ℕ)
      → HasFrame w true (opcode_for is_binary) key payload rest
      → Holds w.decode_buf []
      → w.fragmented_op_code ≡ 0
      → (w' : WebSocketConnection) × (decode_step app w
          ≡ (call payload is_binary w' >>= λ v. ok (clear_decode_status v, true)))
        × Delivered w payload is_binary rest w'
  message_arrives w is_binary key payload rest f d g =
      message_behind w is_binary [] key payload rest f d g

  -- The last fragment, whose opcode is 0: the callback gets all that was gathered, then this payload.
  pub last_fragment :
      (w : WebSocketConnection) (is_binary : Bool) (old key payload rest : List ℕ)
      → HasFrame w true 0 key payload rest
      → Holds w.decode_buf old
      → w.fragmented_op_code ≡ opcode_for is_binary
      → (w' : WebSocketConnection) × (decode_step app w ≡ (
          call (old ++ payload) is_binary w' >>= λ v.
          ok (clear_decode_status (record v { fragmented_op_code = 0 }), true)))
        × Delivered w (old ++ payload) is_binary rest w'
  last_fragment w is_binary old key payload rest f d g =
      let (v, e, a) = frame_step app w true 0 old key payload rest f d (ground arith) in
      (
        taken v (old ++ payload) is_binary,
        e ∙ dispatch_last v is_binary (length old) a.code a.final (a.fragmented ∙ g) a.kept,
        record {
          noted = ap (λ t. t ++ (message (old ++ payload) is_binary ∷ [])) a.events;
          emptied = advance_all a.kept.valid;
          left = a.left;
          capacity = a.capacity;
          status = a.status;
          out = a.out;
          conn = a.conn;
        },
      )

module _ (app : Callbacks) where
  dispatch_first :
      (w : WebSocketConnection) (is_binary : Bool) (origin : ℕ)
      → w.opcode ≡ opcode_for is_binary
      → w.is_fin ≡ false
      → w.fragmented_op_code ≡ 0
      → dispatch app w origin
        ≡ ok (clear_decode_status (record w { fragmented_op_code = opcode_for is_binary }), true)
  unfolding dispatch
  dispatch_first w true origin o f g = ground arith
  dispatch_first w false origin o f g = ground arith

  dispatch_next :
      (w : WebSocketConnection) (origin : ℕ)
      → w.opcode ≡ 0
      → w.is_fin ≡ false
      → w.fragmented_op_code ≢ 0
      → dispatch app w origin ≡ ok (clear_decode_status w, true)
  unfolding dispatch
  dispatch_next w origin o f g = ground arith

  pub first_fragment :
      (w : WebSocketConnection) (is_binary : Bool) (key payload rest : List ℕ)
      → HasFrame w false (opcode_for is_binary) key payload rest
      → Holds w.decode_buf []
      → w.fragmented_op_code ≡ 0
      → (w' : WebSocketConnection) × (decode_step app w ≡ ok (w', true))
        × Gathered w (opcode_for is_binary) payload rest w'
  unfolding clear_decode_status
  first_fragment w is_binary key payload rest f d g =
      let (v, e, a) =
        frame_step app w false (opcode_for is_binary) [] key payload rest f d (ground arith) in
      (
        clear_decode_status (record v { fragmented_op_code = opcode_for is_binary }),
        e ∙ dispatch_first v is_binary 0 a.code a.final (a.fragmented ∙ g),
        record {
          fragmented = refl;
          kept = a.kept;
          left = a.left;
          capacity = a.capacity;
          fresh = refl;
          status = a.status;
          out = a.out;
          events = a.events;
          conn = a.conn;
        },
      )

  pub next_fragment :
      (w : WebSocketConnection) (old key payload rest : List ℕ)
      → HasFrame w false 0 key payload rest
      → Holds w.decode_buf old
      → w.fragmented_op_code ≢ 0
      → (w' : WebSocketConnection) × (decode_step app w ≡ ok (w', true))
        × Gathered w w.fragmented_op_code (old ++ payload) rest w'
  unfolding clear_decode_status
  next_fragment w old key payload rest f d g =
      let (v, e, a) = frame_step app w false 0 old key payload rest f d (ground arith) in
      (
        clear_decode_status v,
        e ∙ dispatch_next v (length old) a.code a.final (λ z. g (sym a.fragmented ∙ z)),
        record {
          fragmented = a.fragmented;
          kept = a.kept;
          left = a.left;
          capacity = a.capacity;
          fresh = refl;
          status = a.status;
          out = a.out;
          events = a.events;
          conn = a.conn;
        },
      )
