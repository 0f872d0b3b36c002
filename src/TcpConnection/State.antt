-- ===== src/TcpConnection/State.antt =====
-- src/TcpConnection.cpp: what each operation of a connection does in each state, as equations.
use websocket_engine.Base.{
  ℕ, ◌+◌, ◌-◌, ◌<◌, ◌≡◌, ◌≢◌, refl, ◌⊎◌, inl, true, false, List, ◌++◌, arith, length, take_all, ok,
  abort, lt→ltb, le→ltb_false,
}
use websocket_engine.Buffer.{Buffer, readable_bytes, contents, write}
use websocket_engine.Buffer.Space.{IsValid, length-contents}
use websocket_engine.Buffer.Queue.{advance, retrieve_ok, write_from_ok}
use websocket_engine.TcpConnection.{
  TcpConnection, connecting, connected, disconnected, disconnecting, writting, write_to_uv, send,
  send_buffer, send_message, handle_close, flush, after_write, write_done,
}

-- The connection once `bytes` are handed to libuv by `send`.
abbrev pub started : TcpConnection → List ℕ → TcpConnection
started c bytes = record c {
  last_write = length bytes;
  state = writting;
  written = c.written ++ bytes;
  in_flight = c.in_flight + 1;
}

-- The connection once it is closed and its owners are told.
abbrev pub shut : TcpConnection → TcpConnection
shut c = record c {
  state = disconnected;
  reading = false;
  connection_calls = c.connection_calls + 1;
  close_calls = c.close_calls + 1;
}

-- The queued bytes are handed to libuv in one piece.
abbrev pub flushed : TcpConnection → TcpConnection
flushed c = record (started c (contents c.output_buf)) {
  output_buf = advance c.output_buf (readable_bytes c.output_buf);
}

-- The connection when its write has completed and is counted.
abbrev pub landed : TcpConnection → TcpConnection
landed c = record c {
  in_flight = c.in_flight - 1;
  bytes_written = c.bytes_written + c.last_write;
  last_write = 0;
}

pub send_connected :
    (c : TcpConnection) (bytes : List ℕ) → c.state ≡ connected → send c bytes ≡ ok (started c bytes)
unfolding send
send_connected c bytes h = ground arith

pub send_writting :
    (c : TcpConnection) (bytes : List ℕ)
    → c.state ≡ writting
    → send c bytes ≡ ok (record c { output_buf = write c.output_buf bytes })
unfolding send
send_writting c bytes h = ground arith

pub handle_close_writting :
    (c : TcpConnection)
    → c.state ≡ writting
    → handle_close c ≡ ok (record c { state = disconnecting })
unfolding handle_close
handle_close_writting c h = ground arith

pub handle_close_open :
    (c : TcpConnection)
    → (c.state ≡ connected) ⊎ (c.state ≡ connecting)
    → handle_close c ≡ ok (shut c)
unfolding handle_close
handle_close_open c h = ground arith

pub handle_close_gone :
    (c : TcpConnection)
    → (c.state ≡ disconnected) ⊎ (c.state ≡ disconnecting)
    → handle_close c ≡ abort
unfolding handle_close
handle_close_gone c h = ground arith

pub send_gone :
    (c : TcpConnection) (bytes : List ℕ)
    → (c.state ≡ disconnected) ⊎ (c.state ≡ disconnecting) ⊎ (c.state ≡ connecting)
    → send c bytes ≡ abort
unfolding send
send_gone c bytes h = ground arith

pub flush_empty : (c : TcpConnection) → readable_bytes c.output_buf ≡ 0 → flush c ≡ ok c
unfolding flush
flush_empty c e = rw (le→ltb_false 0 (readable_bytes c.output_buf) (omega arith))

pub flush_queued :
    (c : TcpConnection)
    → IsValid c.output_buf
    → c.state ≡ connected
    → 0 < readable_bytes c.output_buf
    → flush c ≡ ok (flushed c)
unfolding flush
flush_queued c v s h = rw (
  lt→ltb 0 (readable_bytes c.output_buf) h,
  send_connected c (contents c.output_buf) s,
  retrieve_ok (readable_bytes c.output_buf) v (omega arith),
)

-- The five ways in which the completion of a write goes on.
pub write_done_last :
    (c : TcpConnection)
    → c.is_last_write ≡ true
    → write_done c false ≡ ok (record (shut (landed c)) { is_last_write = false })
unfolding write_done after_write
write_done_last c l =
    ground (arith, handle_close_open (record (landed c) { state = connected }) (inl refl))

module _ (c : TcpConnection) (more : c.is_last_write ≡ false) where
  pub write_done_closing :
      c.state ≡ disconnecting
      → readable_bytes c.output_buf ≡ 0
      → write_done c false ≡ ok (shut (landed c))
  unfolding write_done after_write
  write_done_closing s e =
      ground (arith, more, handle_close_open (record (landed c) { state = connected }) (inl refl))

  pub write_done_closing_queued :
      IsValid c.output_buf
      → c.state ≡ disconnecting
      → 0 < readable_bytes c.output_buf
      → write_done c false
        ≡ ok (flushed (record (landed c) { is_last_write = true; state = connected }))
  unfolding write_done after_write
  write_done_closing_queued v s h = ground (
    arith,
    more,
    flush_queued (record (landed c) { is_last_write = true; state = connected }) v refl h,
  )

  pub write_done_empty :
      c.state ≡ writting
      → readable_bytes c.output_buf ≡ 0
      → write_done c false ≡ ok (record (landed c) { state = connected })
  unfolding write_done after_write
  write_done_empty s e =
      ground (arith, more, flush_empty (record (landed c) { state = connected }) e)

  pub write_done_queued :
      IsValid c.output_buf
      → c.state ≡ writting
      → 0 < readable_bytes c.output_buf
      → write_done c false ≡ ok (flushed (record (landed c) { state = connected }))
  unfolding write_done after_write
  write_done_queued v s h =
      ground (arith, more, flush_queued (record (landed c) { state = connected }) v refl h)

pub send_message_writting :
    (c : TcpConnection) {header : Buffer} (body : List ℕ)
    → IsValid header
    → c.state ≡ writting
    → send_message c header body
      ≡ ok (
        record c { output_buf = write (write c.output_buf (contents header)) body },
        advance header (readable_bytes header),
      )
unfolding send_message
send_message_writting c {header} body v s = ground (
  arith,
  write_from_ok c.output_buf (readable_bytes header) v (omega arith),
  take_all (readable_bytes header) (contents header) (omega (arith, length-contents v)),
)

pub send_message_idle :
    (c : TcpConnection) {header : Buffer} (body : List ℕ)
    → IsValid header
    → c.state ≢ writting
    → send_message c header body
      ≡ ok (write_to_uv c (contents header ++ body), advance header (readable_bytes header))
unfolding send_message write_to_uv
send_message_idle c {header} body v s =
    ground (arith, retrieve_ok (readable_bytes header) v (omega arith))

pub send_buffer_lem :
    (c : TcpConnection) {b : Buffer} {c' : TcpConnection}
    → IsValid b
    → send c (contents b) ≡ ok c'
    → send_buffer c b ≡ ok (c', advance b (readable_bytes b))
unfolding send_buffer
send_buffer_lem c {b} v e = rw (e, retrieve_ok (readable_bytes b) v (omega arith))
