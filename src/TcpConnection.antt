-- ===== src/TcpConnection.antt =====
-- include/ws/TcpConnection.h and src/TcpConnection.cpp: one TCP connection over a libuv stream.
-- libuv is not modelled: what it is asked is recorded in the ghost fields of the record, and what it
-- reports (bytes read, the end of the stream, a write's completion) is an argument of the handler.
-- The return codes of libuv, which no caller looks at, are left out, and so are log lines.
pub mod State
pub mod Stream
pub mod Reach
pub mod Closing
pub mod Callbacks
pub mod Address
mod Tests
use websocket_engine.Base.{
  ℕ, suc, ◌+◌, ◌-◌, ◌%◌, ◌^◌, Bool, true, false, ◌||◌, List, [], ◌∷◌, ◌++◌, ltb, ◌==◌,
  if◌then◌else◌, length, overwrite, Outcome, ok, abort, assert, ◌>>=◌, ◌>>◌,
}
use websocket_engine.Base.Int.{ℤ, pos}
use websocket_engine.Buffer
use websocket_engine.Buffer.{
  Buffer, readable_bytes, contents, initial_size, ensure_space, write, write_all, retrieve,
  update_write_index,
}

-- `enum StateE`
pub data StateE : Type 0 where
  connecting connected disconnected disconnecting writting : StateE

-- `state_ == s`
abbrev pub is_state : StateE → StateE → Bool
is_state connecting connecting = true
is_state connected connected = true
is_state disconnected disconnected = true
is_state disconnecting disconnecting = true
is_state writting writting = true
is_state _ _ = false

-- The last five fields are ghosts: whether libuv reads the stream, the bytes handed to `uv_write`
-- in order, how many of these requests have not completed, and how often the connection's two
-- callbacks that `handleClose` runs were run by it.
pub record TcpConnection : Type 0 where
  pub id : ℕ
  pub loop : ℕ
  pub state : StateE
  pub buf : Buffer
  pub output_buf : Buffer
  pub is_last_write : Bool
  pub bytes_read : ℕ
  pub bytes_written : ℕ
  pub last_write : ℕ
  pub reading : Bool
  pub written : List ℕ
  pub in_flight : ℕ
  pub connection_calls : ℕ
  pub close_calls : ℕ

abbrev pub buffer_len : ℕ
buffer_len = 4096

abbrev pub min_writable_size : ℕ
min_writable_size = 512

-- The constructor. `lastWrite_` is not initialised, so it is any number.
unfoldable pub new : ℕ → ℕ → ℕ → TcpConnection
unfolding Buffer.new
new loop id junk = record {
  id = id;
  loop = loop;
  state = connecting;
  buf = Buffer.new buffer_len;
  output_buf = Buffer.new initial_size;
  is_last_write = false;
  bytes_read = 0;
  bytes_written = 0;
  last_write = junk;
  reading = false;
  written = [];
  in_flight = 0;
  connection_calls = 0;
  close_calls = 0;
}

unfoldable pub set_state : TcpConnection → StateE → TcpConnection
set_state c s = record c { state = s }

unfoldable pub is_connected : TcpConnection → Bool
is_connected c = is_state c.state connected

unfoldable pub is_disconnected : TcpConnection → Bool
is_disconnected c = is_state c.state disconnected

unfoldable pub start_read : TcpConnection → TcpConnection
start_read c = record c { reading = true }

unfoldable pub stop_read : TcpConnection → TcpConnection
stop_read c = record c { reading = false }

-- `connectionEstablished`
unfoldable pub connection_established : TcpConnection → TcpConnection
unfolding set_state
connection_established c =
    let c' = set_state c connected in record c' { connection_calls = c'.connection_calls + 1 }

-- `writeToUv`. The bytes are those that the request points to at the time of the call.
unfoldable pub write_to_uv : TcpConnection → List ℕ → TcpConnection
write_to_uv c bytes = record c { written = c.written ++ bytes; in_flight = c.in_flight + 1 }

-- `send(const char *, size_t)`
unfoldable pub send : TcpConnection → List ℕ → Outcome TcpConnection
unfolding set_state write_to_uv
send c bytes =
    if is_state c.state writting
    then ok (record c { output_buf = write c.output_buf bytes })
    else (do
      assert (is_state c.state connected)
      let noted : TcpConnection = record c { last_write = length bytes }
      ok (write_to_uv (set_state noted writting) bytes))

-- `send(Buffer&)`: the connection, and the buffer after its bytes are taken.
unfoldable pub send_buffer : TcpConnection → Buffer → Outcome (TcpConnection × Buffer)
send_buffer c b = do c' ← send c (contents b); b' ← retrieve b (readable_bytes b); ok (c', b')

-- `send(Buffer& header, String&& body)`
unfoldable pub send_message : TcpConnection → Buffer → List ℕ → Outcome (TcpConnection × Buffer)
unfolding write_to_uv
send_message c header body =
    if is_state c.state writting
    then (do
      (out, header') ← write_all c.output_buf header
      ok (record c { output_buf = write out body }, header'))
    else (do
      header' ← retrieve header (readable_bytes header)
      ok (write_to_uv c (contents header ++ body), header'))

-- `handleClose`, and `close`, which only calls it.
unfoldable pub handle_close : TcpConnection → Outcome TcpConnection
unfolding set_state stop_read
handle_close c = if is_state c.state writting then ok (set_state c disconnecting) else (do
  assert (is_state c.state connected || is_state c.state connecting)
  let stopped = stop_read (set_state c disconnected)
  ok (record stopped {
    connection_calls = stopped.connection_calls + 1;
    close_calls = stopped.close_calls + 1;
  }))

abbrev pub close : TcpConnection → Outcome TcpConnection
close = handle_close

-- `handleWrite` and `resetLastWrite`
unfoldable pub handle_write : TcpConnection → TcpConnection
handle_write c = record c { bytes_written = c.bytes_written + c.last_write; last_write = 0 }

-- The end of the callback: what was queued while a write was under way is sent in one piece.
unfoldable pub flush : TcpConnection → Outcome TcpConnection
flush c =
    if ltb 0 (readable_bytes c.output_buf)
    then (do
      c' ← send c (contents c.output_buf)
      out ← retrieve c'.output_buf (readable_bytes c'.output_buf)
      ok (record c' { output_buf = out }))
    else ok c

-- The body of the callback once the write is counted.
unfoldable pub after_write : TcpConnection → Outcome TcpConnection
unfolding set_state
after_write c =
    if c.is_last_write
    then (do c' ← handle_close (set_state c connected); ok (record c' { is_last_write = false }))
    else if is_state c.state disconnecting
    then (let open_again = set_state c connected in
        if ltb 0 (readable_bytes c.output_buf)
        then flush (set_state (record open_again { is_last_write = true }) connected)
        else handle_close open_again)
    else flush (set_state c connected)

-- The callback of `uv_write`; `failed` is `status < 0`.
unfoldable pub write_done : TcpConnection → Bool → Outcome TcpConnection
unfolding handle_write
write_done c failed =
    let landed : TcpConnection = record c { in_flight = c.in_flight - 1 } in
    if failed then handle_close landed else after_write (handle_write landed)

-- `on_uv_alloc`: the room offered to libuv for its next read.
unfoldable pub uv_alloc : TcpConnection → TcpConnection × ℕ
uv_alloc c = let (b, n) = ensure_space c.buf min_writable_size in (record c { buf = b }, n)

-- What libuv reports of a read: bytes stored in the room that `on_uv_alloc` offered, nothing, or
-- the end or an error of the stream.
pub data Nread : Type 0 where
  stored : List ℕ → Nread
  nothing failed : Nread

-- `on_uv_read` for at least one byte, up to the call of the message callback in `handleMessage`.
unfoldable pub receive : TcpConnection → List ℕ → Outcome TcpConnection
receive c got = do
  b ←
      update_write_index (record c.buf { buf = overwrite c.buf.buf c.buf.write_index got })
        (pos (length got))
  ok (record c { buf = b; bytes_read = c.bytes_read + length got })

-- `on_uv_read`. `messaged` is the rest of `handleMessage`: what the message callback does.
unfoldable pub uv_read :
    (TcpConnection → Outcome TcpConnection) → TcpConnection → Nread → Outcome TcpConnection
uv_read messaged c failed = handle_close c
uv_read messaged c nothing = close c
uv_read messaged c (stored got) = do c' ← receive c got; messaged c'

-- `attachToLoop`: the handle of the same descriptor is opened again in another loop.
unfoldable pub attach_to_loop : TcpConnection → ℕ → TcpConnection
attach_to_loop c new_loop =
    if c.loop == new_loop then c else record c { loop = new_loop; reading = false }
