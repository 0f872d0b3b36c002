-- ===== src/TcpConnection/Callbacks.antt =====
-- include/ws/TcpConnection.h and src/TcpConnection.cpp: a connection with the callbacks set on it.
-- A callback is a value of some type `C` that the owner of the connection gives a meaning to, so that
-- one callback can replace another while the connection runs.
pub mod Quiet
pub mod Keeps
mod Tests
use websocket_engine.Base.{
  ℕ, ◌+◌, ◌-◌, Bool, false, ◌||◌, Option, none, some, List, length, ltb, if◌then◌else◌, Outcome, ok,
  abort, assert, ◌>>=◌, ◌>>◌,
}
use websocket_engine.Buffer
use websocket_engine.Buffer.{initial_size, readable_bytes, contents, retrieve}
use websocket_engine.TcpConnection
use websocket_engine.TcpConnection.{
  TcpConnection, StateE, connected, connecting, writting, disconnecting, disconnected, is_state,
  set_state, stop_read, receive, flush, Nread, stored, nothing, failed,
}

-- The four callbacks; each may be unset.
pub record Callbacks (C : Type 0) : Type 0 where
  pub connection : Option C
  pub message : Option C
  pub close : Option C
  pub write_complete : Option C

-- The two ghosts say which descriptor libuv has open for the handle, and whether it was asked to shut
-- the writing side down.
pub record Connection (C : Type 0) : Type 0 where
  pub conn : TcpConnection
  pub calls : Callbacks C
  pub fd : Option ℕ
  pub shutting : Bool

-- `ConnectionCallback` and the three other types of callbacks: what a call does to the connection and
-- to the state of its owner. The buffer that a message callback gets is the connection's.
abbrev pub Callback : Type 0 → Type 0 → Type 0
Callback C S = Connection C → S → Outcome (Connection C × S)

module _ {C : Type 0} where
  abbrev pub unset : Callbacks C
  unset = record { connection = none; message = none; close = none; write_complete = none }

  -- `TcpConnection(loop, id)`
  unfoldable pub create : ℕ → ℕ → ℕ → Connection C
  create loop id junk = record {
    conn = TcpConnection.new loop id junk;
    calls = unset;
    fd = none;
    shutting = false;
  }

  -- `TcpConnection(loop, fd, id)`
  unfoldable pub create_open : ℕ → ℕ → ℕ → ℕ → Connection C
  unfolding create
  create_open loop fd id junk = record (create loop id junk) { fd = some fd }

  -- `TcpConnection(loop)`
  unfoldable pub create_first : ℕ → ℕ → Connection C
  unfolding create
  create_first loop junk = create loop 0 junk

  -- `TcpConnection(loop, ptr, id)` on a handle that has the descriptor `fd`. `buf` gets its default
  -- size here.
  unfoldable pub adopt : ℕ → Option ℕ → ℕ → ℕ → Connection C
  unfolding create Buffer.new
  adopt loop fd id junk =
      let made : Connection C = create loop id junk in
      record made { conn = record made.conn { buf = Buffer.new initial_size }; fd = fd }

  -- `TcpConnection(loop, ptr)`
  unfoldable pub adopt_first : ℕ → Option ℕ → ℕ → Connection C
  unfolding adopt
  adopt_first loop fd junk = adopt loop fd 0 junk

  -- The setters, each with its overload for an rvalue. The argument may be an empty `std::function`.
  abbrev pub set_close_callback : Connection C → Option C → Connection C
  set_close_callback p cb = record p { calls = record p.calls { close = cb } }

  abbrev pub set_connection_callback : Connection C → Option C → Connection C
  set_connection_callback p cb = record p { calls = record p.calls { connection = cb } }

  abbrev pub set_message_callback : Connection C → Option C → Connection C
  set_message_callback p cb = record p { calls = record p.calls { message = cb } }

  abbrev pub set_write_complete_callback : Connection C → Option C → Connection C
  set_write_complete_callback p cb = record p { calls = record p.calls { write_complete = cb } }

  abbrev pub with_conn : Connection C → TcpConnection → Connection C
  with_conn p c = record p { conn = c }

  -- `~TcpConnection`: closing the handle closes its descriptor.
  unfoldable pub destroy : Connection C → Connection C
  destroy p = record p { fd = none }

  -- `stream`; the handle stands for the descriptor that it has open
  abbrev pub stream : Connection C → Option ℕ
  stream p = p.fd

  abbrev pub id : Connection C → ℕ
  id p = p.conn.id

  abbrev pub bytes_read : Connection C → ℕ
  bytes_read p = p.conn.bytes_read

  abbrev pub bytes_written : Connection C → ℕ
  bytes_written p = p.conn.bytes_written

  abbrev pub last_write : Connection C → ℕ
  last_write p = p.conn.last_write

  abbrev pub reset_last_write : Connection C → Connection C
  reset_last_write p = with_conn p (record p.conn { last_write = 0 })

  -- `send(const std::string&)`
  unfoldable pub send_string : Connection C → List ℕ → Outcome (Connection C)
  send_string p text = do c ← TcpConnection.send p.conn text; ok (with_conn p c)

  -- `shutdown`; its callback only logs
  unfoldable pub shutdown : Connection C → Connection C
  shutdown p = record p { shutting = Bool.true }

  -- `attachToLoop`, with the descriptor asked from the old handle and opened in the new one.
  unfoldable pub attach_to_loop : Connection C → ℕ → Connection C
  unfolding TcpConnection.attach_to_loop
  attach_to_loop p loop = with_conn p (TcpConnection.attach_to_loop p.conn loop)

  -- `run` says what a call of a callback does to the connection and to the state of its owner.
  module _ {S : Type 0} (run : C → Callback C S) where
    -- `if (callback_) callback_(shared_from_this())`
    abbrev pub call_if_set : Option C → Connection C → S → Outcome (Connection C × S)
    call_if_set none p s = ok (p, s)
    call_if_set (some cb) p s = run cb p s

    -- The call of a callback without that test: an unset one throws, which ends the program.
    abbrev pub call : Option C → Connection C → S → Outcome (Connection C × S)
    call none p s = abort
    call (some cb) p s = run cb p s

    unfoldable pub connection_established : Connection C → S → Outcome (Connection C × S)
    connection_established p s =
        call_if_set p.calls.connection (with_conn p (TcpConnection.connection_established p.conn)) s

    -- `handleMessage`, behind the `updateWriteIndex` of `on_uv_read`
    unfoldable pub handle_message : Connection C → List ℕ → S → Outcome (Connection C × S)
    handle_message p got s = do
      c ← receive p.conn got
      call_if_set p.calls.message (with_conn p c) s

    unfoldable pub handle_write : Connection C → ℕ → S → Outcome (Connection C × S)
    handle_write p len s =
        call_if_set p.calls.write_complete
          (with_conn p (record p.conn { bytes_written = p.conn.bytes_written + len })) s

    -- The last two lines of `handleClose`; the ghosts count their calls.
    unfoldable pub run_close_callbacks : Connection C → S → Outcome (Connection C × S)
    run_close_callbacks p s = do
      (p', s') ←
          call p.calls.connection
            (with_conn p (record p.conn { connection_calls = p.conn.connection_calls + 1 })) s
      call p'.calls.close (with_conn p' (record p'.conn { close_calls = p'.conn.close_calls + 1 }))
          s'

    unfoldable pub handle_close : Connection C → S → Outcome (Connection C × S)
    unfolding run_close_callbacks
    handle_close p s =
        if is_state p.conn.state writting
        then ok (with_conn p (set_state p.conn disconnecting), s)
        else (do
          assert (is_state p.conn.state connected || is_state p.conn.state connecting)
          run_close_callbacks (with_conn p (stop_read (set_state p.conn disconnected))) s)

    -- `flush` of the connection itself
    abbrev pub flush_output : Connection C → S → Outcome (Connection C × S)
    flush_output p s = do c ← flush p.conn; ok (with_conn p c, s)

    -- The callback of `uv_write` behind `resetLastWrite`.
    unfoldable pub after_write : Connection C → S → Outcome (Connection C × S)
    unfolding handle_close
    after_write p s =
        let open_again : Connection C = with_conn p (set_state p.conn connected) in
        if p.conn.is_last_write
        then (do
          (p', s') ← handle_close open_again s
          ok (with_conn p' (record p'.conn { is_last_write = false }), s'))
        else if is_state p.conn.state disconnecting
        then (if ltb 0 (readable_bytes p.conn.output_buf)
            then flush_output (with_conn p (record open_again.conn { is_last_write = Bool.true })) s
            else handle_close open_again s)
        else flush_output open_again s

    -- The callback of `uv_write`; `bad` is `status < 0`.
    unfoldable pub write_done : Connection C → Bool → S → Outcome (Connection C × S)
    unfolding handle_close handle_write after_write
    write_done p bad s =
        let landed : Connection C =
          with_conn p (record p.conn { in_flight = p.conn.in_flight - 1 }) in
        if bad then handle_close landed s else (do
          (p', s') ← handle_write landed (last_write landed) s
          after_write (reset_last_write p') s')

    -- `on_uv_read`
    unfoldable pub uv_read : Connection C → Nread → S → Outcome (Connection C × S)
    unfolding handle_close handle_message
    uv_read p failed s = handle_close p s
    uv_read p nothing s = handle_close p s
    uv_read p (stored got) s = handle_message p got s
