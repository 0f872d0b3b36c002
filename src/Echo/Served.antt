-- ===== src/Echo/Served.antt =====
-- main.cpp, from the bytes that libuv reads to those that it is given: src/TcpConnection.cpp,
-- src/WebSocketServer.cpp and src/WebSocketConnection.cpp together.
use mathlib.Core.Path.{subst}
use mathlib.Core.List.{append-nil}
use websocket_engine.Base.{
  Outcome, ℕ, suc, ◌+◌, ◌^◌, ◌≤◌, ◌<◌, ◌≡◌, refl, sym, ◌∙◌, ◌⊎◌, Bool, true, false, List, [], ◌∷◌,
  ◌++◌, some, arith, le→ltb_false, length, All, length-overwrite, ok,
}
use websocket_engine.Base.Table.{lookup, has_key, lookup-assign_self}
use websocket_engine.Buffer.{Buffer, update_write_index, append_at, ensure_space}
use websocket_engine.Buffer.Numbers.{IsByte}
use websocket_engine.Buffer.Space.{ensure_space-HasRoom}
use websocket_engine.Buffer.Queue.{Holds, append_at-Holds, readable-Holds}
use websocket_engine.TcpConnection.{
  TcpConnection, connected, writting, receive, uv_alloc, min_writable_size, stored,
}
use websocket_engine.TcpConnection.Stream.{stream, Inv}
use websocket_engine.TcpConnection.Callbacks
use websocket_engine.TcpConnection.Callbacks.{Connection, with_conn, set_close_callback}
use websocket_engine.TcpServer.{on_event, finish}
use websocket_engine.WebSocketConnection.Types.{WebSocketConnection, connect, message}
use websocket_engine.WebSocketConnection.Send.{opcode_for}
use websocket_engine.WebSocketConnection.Decode.{decode_step, decode}
use websocket_engine.WebSocketConnection.Handshake.{HttpParser, Digests, parse}
use websocket_engine.WebSocketConnection.Frames.{client_frame}
use websocket_engine.WebSocketConnection.Outgoing.{frame}
use websocket_engine.WebSocketServer.{
  Handler, messages, socket_closed, Server, put_socket, socket_for, after_parse, handle_message,
  run, read_event, on_read, same_id,
}
use websocket_engine.Echo.{app, memory}
use websocket_engine.Echo.Answer.{Answered, echo_step}

-- `p` and `w` are a connection of `s` between two messages.
pub record IsServed (s : Server) (p : Connection Handler) (w : WebSocketConnection) : Type 0 where
  pub there : lookup p.conn.id s.connection_map ≡ some p
  pub known : lookup p.conn.id s.more.ws_conns ≡ some w
  pub message_set : p.calls.message ≡ some messages
  pub sound : Inv p.conn
  pub able : (p.conn.state ≡ connected) ⊎ (p.conn.state ≡ writting)
  pub input : Holds p.conn.buf []
  pub status : w.status ≡ connect
  pub wanted : w.wanted ≡ 0
  pub fresh : w.header_read ≡ false
  pub whole : w.fragmented_op_code ≡ 0
  pub kept : Holds w.decode_buf []
  pub clean : Holds w.output_buf []

-- The read, exactly.
received :
    (c : TcpConnection) (got : List ℕ)
    → Holds c.buf []
    → length got ≤ (uv_alloc c).1
    → (b : Buffer) × (receive (uv_alloc c).0 got
        ≡ ok (record c { buf = b; bytes_read = c.bytes_read + length got }))
      × Holds b got
      × (length b.buf ≡ length (uv_alloc c).0.buf.buf)
unfolding receive uv_alloc update_write_index append_at
received c got v h =
    let room = ensure_space-HasRoom min_writable_size v.valid in
    let grown = (ensure_space c.buf min_writable_size).0 in
    (
      append_at grown got,
      ground (arith, length-overwrite grown.buf grown.write_index got, room),
      subst (λ t. Holds (append_at grown got) (t ++ got)) (room.kept ∙ v.held)
          (append_at-Holds got room.valid (omega (arith, room.inside))),
      length-overwrite grown.buf grown.write_index got,
    )

decode_one :
    (fuel : ℕ) (w w' : WebSocketConnection)
    → decode_step app w ≡ ok (w', true)
    → Holds w'.conn.buf []
    → decode app (suc fuel) w ≡ ok w'
unfolding decode
decode_one fuel w w' e k = rw e (ground (arith, readable-Holds k))

socket_for_known :
    (s : Server) (p : Connection Handler) (w : WebSocketConnection)
    (reads : TcpConnection → TcpConnection → Outcome TcpConnection)
    → lookup p.conn.id s.more.ws_conns ≡ some w
    → reads w.conn p.conn ≡ ok p.conn
    → socket_for app (memory reads) p s ≡ ok (record w { conn = p.conn })
unfolding socket_for
socket_for_known s p w reads e r = rw (socket_for, e, r)

module _ (reads : TcpConnection → TcpConnection → Outcome TcpConnection) (execute : HttpParser)
    (d : Digests) (fuel : ℕ) where
  parse_open :
      (w : WebSocketConnection)
      → w.status ≡ connect
      → w.wanted ≡ 0
      → parse execute d app fuel w ≡ decode app fuel w
  unfolding parse
  parse_open w e f = ground arith

  -- What `handleMessage` does after `parse`, if the connection was not closed in it.
  after_open :
      (s : Server) (p : Connection Handler) (w : WebSocketConnection)
      → w.status ≡ connect
      → w.conn.close_calls ≡ p.conn.close_calls
      → after_parse app (memory reads) execute d fuel p s w
        ≡ ok (set_close_callback (same_id p w.conn) (some socket_closed), put_socket s p.conn.id w)
  unfolding after_parse app
  after_open s p w e f = rw (e, f, le→ltb_false p.conn.close_calls p.conn.close_calls (omega arith))

  -- The end of the handler.
  stays :
      (s : Server) (p q : Connection Handler) (w : WebSocketConnection)
      → lookup q.conn.id s.connection_map ≡ some p
      → (lookup q.conn.id (finish q (put_socket s q.conn.id w)).connection_map ≡ some q)
        × (lookup q.conn.id (finish q (put_socket s q.conn.id w)).more.ws_conns ≡ some w)
  unfolding finish
  stays s p q w there =
      rw (has_key, there)
        (
          lookup-assign_self q.conn.id q s.connection_map,
          lookup-assign_self q.conn.id w s.more.ws_conns,
        )

  -- The handler as a whole, for bytes that leave the connection `c`.
  handled :
      (s : Server) (p : Connection Handler) (w w' : WebSocketConnection) (got : List ℕ)
      (c : TcpConnection)
      → receive (uv_alloc p.conn).0 got ≡ ok c
      → c.id ≡ p.conn.id
      → p.calls.message ≡ some messages
      → socket_for app (memory reads) (with_conn p c) s ≡ ok w
      → parse execute d app fuel w ≡ ok w'
      → read_event app (memory reads) execute d fuel (stored got) p s
        ≡ after_parse app (memory reads) execute d fuel (with_conn p c) s w'
  unfolding read_event Callbacks.uv_read run handle_message
  handled s p w w' got c e same set there parsed = rw (e, set, there, parsed)

-- One read brings a whole text or binary frame with a key of four bytes, and there is room for it.
pub record IsFrameRead (p : Connection Handler) (key payload got : List ℕ) : Type 0 where
  pub bytes : All IsByte got
  pub room : length got ≤ (uv_alloc p.conn).1
  pub capacity : length (uv_alloc p.conn).0.buf.buf < 2 ^ 63
  pub size : length payload < 2 ^ 64
  pub key_size : length key ≡ 4

module _ (reads : TcpConnection → TcpConnection → Outcome TcpConnection) (execute : HttpParser)
    (d : Digests) (fuel : ℕ) (s : Server) (p : Connection Handler) (w : WebSocketConnection)
    (v : IsServed s p w) (reached : (c : TcpConnection) → reads w.conn c ≡ ok c) where
  opened :
      (is_binary : Bool) (key payload : List ℕ) (b : Buffer) (n : ℕ)
      → IsFrameRead p key payload (client_frame true (opcode_for is_binary) key payload)
      → Holds b (client_frame true (opcode_for is_binary) key payload)
      → length b.buf ≡ length (uv_alloc p.conn).0.buf.buf
      → (w' : WebSocketConnection) × (decode_step app
            (record w { conn = record p.conn { buf = b; bytes_read = n } })
          ≡ ok (w', true))
        × Answered
            (record w { conn = record p.conn { buf = b; bytes_read = n } })
            is_binary
            payload
            []
            w'
  opened is_binary key payload b n f k e =
      let got = client_frame true (opcode_for is_binary) key payload in
      echo_step (record w { conn = record p.conn { buf = b; bytes_read = n } }) is_binary key
        payload []
        (record {
          fresh = v.fresh;
          input = subst (Holds b) (sym (append-nil got)) k;
          bytes = subst (All IsByte) (sym (append-nil got)) f.bytes;
          capacity = rw e f.capacity;
          size = f.size;
          key_size = f.key_size;
        })
        v.kept v.whole
        (record {
          sound = record {
            output = v.sound.output;
            busy = v.sound.busy;
            idle = v.sound.idle;
            gone = v.sound.gone;
            quiet = v.sound.quiet;
            first = v.sound.first;
            untold = v.sound.untold;
            told = v.sound.told;
          };
          able = v.able;
          clean = v.clean;
        })

  -- The echo server, with at least one unit of fuel for `decode`, as long as the reference `conn_` of
  -- the WebSocket connection reaches the TCP connection that is handled: libuv reads exactly one whole
  -- frame of a client, text or binary, masked with a key of four bytes, on a connection that is between
  -- two messages, has nothing buffered and may send. The server takes the message and hands one frame
  -- of the same kind with the same payload over for sending, behind everything before it, and keeps the
  -- connection and its WebSocket connection, which has noted the message and none else.
  pub echoes :
      (is_binary : Bool) (key payload : List ℕ)
      → IsFrameRead p key payload (client_frame true (opcode_for is_binary) key payload)
      → (s' : Server) × (p' : Connection Handler) × (w' : WebSocketConnection) × (on_read app
            (memory reads)
            execute
            d
            (suc fuel)
            p.conn.id
            (stored (client_frame true (opcode_for is_binary) key payload))
            s
          ≡ ok s')
        × (lookup p.conn.id s'.connection_map ≡ some p')
        × (lookup p.conn.id s'.more.ws_conns ≡ some w')
        × (stream p'.conn ≡ stream p.conn ++ frame (opcode_for is_binary) payload)
        × (w'.events ≡ w.events ++ (message payload is_binary ∷ []))
  unfolding on_read on_event
  echoes is_binary key payload f =
      let got = client_frame true (opcode_for is_binary) key payload in
      let (b, e, k, m) = received p.conn got v.input f.room in
      let c : TcpConnection = record p.conn {
        buf = b;
        bytes_read = p.conn.bytes_read + length got;
      } in
      let (w', t, a) = opened is_binary key payload b (p.conn.bytes_read + length got) f k m in
      let ready = parse_open reads execute d (suc fuel) (record w { conn = c }) v.status v.wanted in
      let q : Connection Handler =
        set_close_callback (same_id (with_conn p c) w'.conn) (some socket_closed) in
      (
        finish q (put_socket s p.conn.id w'),
        q,
        w',
        rw (
          on_event,
          v.there,
          handled reads execute d (suc fuel) s p (record w { conn = c }) w' got c e refl
              v.message_set (socket_for_known s (with_conn p c) w reads v.known (reached c))
              (ready ∙ decode_one fuel (record w { conn = c }) w' t a.left),
          after_open reads execute d (suc fuel) s (with_conn p c) w' (a.status ∙ v.status) a.closes,
        ),
        (stays reads execute d fuel s p q w' v.there).0,
        (stays reads execute d fuel s p q w' v.there).1,
        a.sent,
        a.noted,
      )
