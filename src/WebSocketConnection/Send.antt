-- ===== src/WebSocketConnection/Send.antt =====
-- What a connection sends: src/WebSocketConnection.cpp, `writeHeader` to `close`.
use websocket_engine.Base.{
  ℕ, bit_and, bit_or, Bool, List, ltb, leb, if◌then◌else◌, length, Outcome, ok, assert, ◌>>=◌, ◌>>◌,
}
use websocket_engine.Buffer.{
  Buffer, readable_bytes, contents, peek, empty, write, write_string, retrieve, clear, put_byte,
  put_uint16, put_uint64,
}
use websocket_engine.TcpConnection
use websocket_engine.TcpConnection.{TcpConnection, stop_read}
use websocket_engine.WebSocketConnection.Types.{
  WebSocketConnection, StatusCode, protocol_error, code_of, is_failure, closing,
}

-- `writeHeader`, on `outputBuf_`. The third test always passes, so the last branch is the rest.
unfoldable pub write_header : Buffer → ℕ → ℕ → Outcome Buffer
write_header out payload_length opcode = do
  assert (empty out)
  let control = bit_and 0x8f (bit_or 0x80 opcode)
  let started = put_byte out control
  ok (
      if ltb payload_length 126
      then put_byte started payload_length
      else if leb payload_length 0xffff
      then put_uint16 (put_byte started 126) payload_length
      else if ltb 0xfff payload_length
      then put_uint64 (put_byte started 127) payload_length
      else started)

abbrev pub opcode_for : Bool → ℕ
opcode_for is_binary = if is_binary then 2 else 1

-- `sendMessage(String &&, bool)`: header and data go to the socket as two pieces.
unfoldable pub send_message_move : WebSocketConnection → List ℕ → Bool → Outcome WebSocketConnection
send_message_move w text is_binary = do
  assert (empty w.output_buf)
  out ← write_header w.output_buf (length text) (opcode_for is_binary)
  (conn, out') ← TcpConnection.send_message w.conn out text
  ok (record w { conn = conn; output_buf = out' })

-- `sendMessage(const String&, bool)`: the data is copied behind the header.
unfoldable pub send_message_copy : WebSocketConnection → List ℕ → Bool → Outcome WebSocketConnection
send_message_copy w text is_binary = do
  out ← write_header w.output_buf (length text) (opcode_for is_binary)
  (conn, out') ← TcpConnection.send_buffer w.conn (write out text)
  ok (record w { conn = conn; output_buf = out' })

-- The four bytes of a close frame are sent, and stay in `outputBuf_`.
unfoldable pub close : WebSocketConnection → StatusCode → Outcome WebSocketConnection
close w code = do
  let cleared = if ltb 0 (readable_bytes w.output_buf) then clear w.output_buf else w.output_buf
  let out = put_uint16 (put_byte (put_byte cleared 0x88) 0x02) (code_of code)
  conn ← TcpConnection.send (if is_failure code then stop_read w.conn else w.conn) (peek out 4)
  ok (record w { conn = conn; output_buf = out; status = closing })

-- The part that `ping` and `pong` share.
unfoldable pub control_frame : WebSocketConnection → ℕ → List ℕ → Outcome WebSocketConnection
control_frame w mask text = if leb 126 (length text) then close w protocol_error else (do
  let control = bit_and (bit_and 0xff 0x8f) mask
  let out = write_string (put_byte (put_byte w.output_buf control) (length text)) text
  conn ← TcpConnection.send w.conn (contents out)
  out' ← retrieve out (readable_bytes out)
  ok (record w { conn = conn; output_buf = out' }))

unfoldable pub ping : WebSocketConnection → List ℕ → Outcome WebSocketConnection
unfolding control_frame
ping w text = control_frame w 0xf9 text

unfoldable pub pong : WebSocketConnection → List ℕ → Outcome WebSocketConnection
unfolding control_frame
pong w text = control_frame w 0xfa text
