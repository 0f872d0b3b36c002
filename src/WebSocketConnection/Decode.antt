-- ===== src/WebSocketConnection/Decode.antt =====
-- How a connection decodes frames: src/WebSocketConnection.cpp, `decode`.
use websocket_engine.Base.{
  ℕ, zero, suc, ◌+◌, ◌/◌, ◌%◌, ◌^◌, bit_and, bit_xor, Bool, true, false, not, ◌&&◌, ◌||◌, List, [],
  ◌∷◌, ◌++◌, Option, none, some, ltb, ◌==◌, if◌then◌else◌, get_or, drop, take, overwrite, Outcome,
  ok, stuck, ◌>>=◌,
}
use websocket_engine.Buffer.{
  Buffer, readable_bytes, contents, read, unread, read_string, write_from, retrieve, unwrite,
  read_typed_number, uint8, uint16, uint64,
}
use websocket_engine.TcpConnection
use websocket_engine.WebSocketConnection.Types.{
  WebSocketConnection, normal_close, protocol_error, closed, is_connect, Event, message, pinged,
  ponged, Callbacks, set_input, clear_decode_status,
}
use websocket_engine.WebSocketConnection.Send.{close, pong}

-- How the first part of `decode` ends: a header is read; an early return for want of bytes; or an
-- early return after `close(PROTOCOL_ERROR)`.
pub data HeaderEnd : Type 0 where
  parsed short refused : HeaderEnd

-- The early return that puts `read_size` bytes back and waits for `want`.
unfoldable pub wait_for : WebSocketConnection → ℕ → ℕ → Outcome (WebSocketConnection × HeaderEnd)
wait_for w want read_size = do
  b ← unread w.conn.buf read_size
  ok (set_input (record w { header_read = false; wanted = want }) b, short)

-- The mask key, after `read_size` bytes.
unfoldable pub read_mask : WebSocketConnection → ℕ → Outcome (WebSocketConnection × HeaderEnd)
unfolding wait_for
read_mask w read_size =
    if w.masked
    then (if ltb (readable_bytes w.conn.buf) 4 then wait_for w (read_size + 4) read_size else (do
      (key, b) ← read w.conn.buf 4
      ok (set_input (record w { mask_key = key }) b, parsed)))
    else ok (w, parsed)

-- The extended payload length, after two bytes.
unfoldable pub read_length : WebSocketConnection → Outcome (WebSocketConnection × HeaderEnd)
unfolding wait_for read_mask
read_length w =
    if w.payload_length == 126
    then (if ltb (readable_bytes w.conn.buf) 2 then wait_for w 4 2 else (do
      (n, b) ← read_typed_number uint16 w.conn.buf
      read_mask (set_input (record w { payload_length = n }) b) 4))
    else if w.payload_length == 127
    then (if ltb (readable_bytes w.conn.buf) 8 then wait_for w 10 2 else (do
      (n, b) ← read_typed_number uint64 w.conn.buf
      read_mask (set_input (record w { payload_length = n }) b) 10))
    else read_mask w 2

-- The second byte.
unfoldable pub read_second : WebSocketConnection → Outcome (WebSocketConnection × HeaderEnd)
unfolding wait_for read_length
read_second w = if ltb (readable_bytes w.conn.buf) 1 then wait_for w 2 1 else (do
  (second, b) ← read_typed_number uint8 w.conn.buf
  let n = bit_and second 0x7f
  read_length
      (set_input (record w { masked = second / 2 ^ 7 == 1; payload_length = n; wanted = n }) b))

-- The block under `if (!headerRead_)`.
unfoldable pub read_header : WebSocketConnection → Outcome (WebSocketConnection × HeaderEnd)
unfolding read_second
read_header w = do
  (first, b) ← read_typed_number uint8 w.conn.buf
  let w' = set_input w b
  if not (bit_and first 0x70 == 0)
      then (do refusing ← close w' protocol_error; ok (refusing, refused))
      else read_second
          (record w' { is_fin = not (first / 2 ^ 7 == 0); opcode = bit_and first 0x0f })

-- The loop that unmasks: byte `i` of the payload with byte `i % 4` of the key.
unfoldable pub unmask : List ℕ → ℕ → List ℕ → List ℕ
unmask key i [] = []
unmask key i (x ∷ xs) = bit_xor x (get_or key (i % 4) 0) ∷ unmask key (i + 1) xs

-- It works in place, on the bytes of `decodeBuf_` from `origin` on.
unfoldable pub unmask_buf : Buffer → List ℕ → ℕ → Buffer
unfolding unmask
unmask_buf b key origin = record b {
  buf = overwrite b.buf (b.read_index + origin) (unmask key 0 (drop origin (contents b)));
}

-- The `bool` says whether `decode` goes on to its last lines, or has returned.
abbrev pub Handled : Type 0
Handled = WebSocketConnection × Bool

unfoldable pub refuse : WebSocketConnection → Outcome Handled
refuse w = do w' ← close w protocol_error; ok (w', false)

-- The message callback with all of `decodeBuf_`, if there is one; else the bytes are dropped.
unfoldable pub deliver : Callbacks → WebSocketConnection → Bool → Bool → Outcome WebSocketConnection
deliver app w wanted_kind is_binary = elim app.on_message [
  | none ↦ do
    b ← retrieve w.decode_buf (readable_bytes w.decode_buf)
    ok (record w { decode_buf = b })
  | some call ↦
      if wanted_kind
      then (do
        (text, b) ← read_string w.decode_buf
        call text is_binary
            (record w { decode_buf = b; events = w.events ++ (message text is_binary ∷ []) }))
      else ok w
]

-- `case 0`
unfoldable pub continuation : Callbacks → WebSocketConnection → Outcome Handled
unfolding refuse deliver clear_decode_status
continuation app w =
    if w.fragmented_op_code == 0
    then refuse w
    else if w.is_fin
    then (do
      w' ←
          deliver app w (w.fragmented_op_code == 1 || w.fragmented_op_code == 2)
            (w.fragmented_op_code == 2)
      ok (clear_decode_status (record w' { fragmented_op_code = 0 }), true))
    else ok (clear_decode_status w, true)

-- `case 1` and `case 2`
unfoldable pub message_frame : Callbacks → WebSocketConnection → Outcome Handled
unfolding refuse deliver clear_decode_status
message_frame app w =
    if not (w.fragmented_op_code == 0)
    then refuse w
    else if w.is_fin
    then (do w' ← deliver app w true (w.opcode == 2); ok (clear_decode_status w', true))
    else ok (clear_decode_status (record w { fragmented_op_code = w.opcode }), true)

-- `case 0x08`
unfoldable pub close_frame : WebSocketConnection → Outcome Handled
close_frame w =
    if is_connect w.status
    then (do
      w' ← close w normal_close
      conn ← TcpConnection.close w'.conn
      ok (record w' { conn = conn; status = closed }, true))
    else ok (w, true)

-- The payload of a control frame is taken back, unless the buffer held nothing before it.
unfoldable pub drop_payload : WebSocketConnection → ℕ → Outcome Handled
unfolding clear_decode_status
drop_payload w origin = do
  b ← if not (origin == 0) then unwrite w.decode_buf w.payload_length else ok w.decode_buf
  ok (clear_decode_status (record w { decode_buf = b }), true)

-- The payload of a control frame, `String(decodeBuf_.peek() + originSize, payloadLength_)`.
abbrev pub control_payload : WebSocketConnection → ℕ → List ℕ
control_payload w origin = take w.payload_length (drop origin (contents w.decode_buf))

abbrev pub notify_with :
    Option (List ℕ → WebSocketConnection → Outcome WebSocketConnection)
    → (List ℕ → Event)
    → List ℕ
    → WebSocketConnection
    → Outcome WebSocketConnection
notify_with none e text w = ok w
notify_with (some call) e text w = call text (record w { events = w.events ++ (e text ∷ []) })

-- `case 0x09`
unfoldable pub ping_frame : Callbacks → WebSocketConnection → ℕ → Outcome Handled
unfolding refuse drop_payload
ping_frame app w origin = if not w.is_fin then refuse w else (do
  w1 ← notify_with app.on_ping pinged (control_payload w origin) w
  w2 ← pong w1 (control_payload w1 origin)
  drop_payload w2 origin)

-- `case 0x0a`
unfoldable pub pong_frame : Callbacks → WebSocketConnection → ℕ → Outcome Handled
unfolding refuse drop_payload
pong_frame app w origin = if not w.is_fin then refuse w else (do
  w1 ← notify_with app.on_pong ponged (control_payload w origin) w
  drop_payload w1 origin)

-- The `switch`.
unfoldable pub dispatch : Callbacks → WebSocketConnection → ℕ → Outcome Handled
unfolding continuation message_frame close_frame ping_frame pong_frame refuse
dispatch app w origin =
    if w.opcode == 0
    then continuation app w
    else if w.opcode == 1 || w.opcode == 2
    then message_frame app w
    else if w.opcode == 8
    then close_frame w
    else if w.opcode == 9
    then ping_frame app w origin
    else if w.opcode == 10
    then pong_frame app w origin
    else refuse w

-- From `headerRead_ = true` to the end of the `switch`.
unfoldable pub read_payload : Callbacks → WebSocketConnection → Outcome Handled
unfolding dispatch unmask_buf
read_payload app w =
    let here : WebSocketConnection = record w { header_read = true } in
    if ltb (readable_bytes w.conn.buf) w.payload_length
    then ok (record here { split = true; wanted = w.payload_length }, false)
    else (do
      let origin = readable_bytes w.decode_buf
      (b, input) ← write_from w.decode_buf w.conn.buf w.payload_length
      let filled = if w.masked then unmask_buf b w.mask_key origin else b
      dispatch app (set_input (record here { decode_buf = filled }) input) origin)

-- One run of the body of `decode`, up to its recursive call.
unfoldable pub decode_step : Callbacks → WebSocketConnection → Outcome Handled
unfolding read_header read_payload
decode_step app w = if w.header_read then read_payload app w else (do
  (w', end) ← read_header w
  elim end [ parsed ↦ read_payload app w' | short ↦ ok (w', false) | refused ↦ ok (w', false) ])

-- `decode`. Each level of its recursion takes one unit of fuel.
unfoldable pub decode : Callbacks → ℕ → WebSocketConnection → Outcome WebSocketConnection
unfolding decode_step
decode app zero w = stuck
decode app (suc fuel) w = do
  (w', goes_on) ← decode_step app w
  let again = decode app fuel w'
  if goes_on && ltb 0 (readable_bytes w'.conn.buf) then again else ok w'
