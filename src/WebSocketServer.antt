-- ===== src/WebSocketServer.antt =====
-- include/ws/WebSocketServer.h and src/WebSocketServer.cpp: the server that gives each TCP connection
-- a WebSocket connection. The callbacks that the application sets in `connCb_` are the parameter
-- `app`, whose `on_connection` is `connCb_` itself.
pub mod Isolation
pub mod Events
pub mod Ends
pub mod Samples
mod Tests
use websocket_engine.Base.{
  ℕ, ◌+◌, Bool, true, false, not, ◌&&◌, ◌||◌, List, [], ◌∷◌, ◌++◌, Option, none, some, ltb,
  if◌then◌else◌, Outcome, ok, ◌>>=◌, ◌>>◌,
}
use websocket_engine.Base.Table.{lookup, assign, erase}
use websocket_engine.TcpConnection.{TcpConnection, is_disconnected, uv_alloc, Nread}
use websocket_engine.TcpConnection.Callbacks
use websocket_engine.TcpConnection.Callbacks.{Connection, with_conn, set_close_callback, call}
use websocket_engine.TcpServer
use websocket_engine.TcpServer.{
  TcpServer, Incoming, set_messages, set_connections, close_connection, on_event, on_uv_connection,
  listen,
}
use websocket_engine.WebSocketConnection.Types
use websocket_engine.WebSocketConnection.Types.{WebSocketConnection, Callbacks, is_initial}
use websocket_engine.WebSocketConnection.Handshake.{HttpParser, Digests, parse}

-- The functions that the server and its connections register with a TCP connection.
pub data Handler : Type 0 where
  messages connections closing socket_closed : Handler

-- `wsConns_`. The ghosts: the objects that the map has given up, and the numbers of the connections
-- whose object was used after it was destroyed.
pub record Sockets : Type 0 where
  pub ws_conns : List (ℕ × WebSocketConnection)
  pub given_up : List (ℕ × WebSocketConnection)
  pub dangling : List ℕ

abbrev pub Server : Type 0
Server = TcpServer Handler Sockets

-- The constructor
unfoldable pub new : ℕ → ℕ → Server
unfolding TcpServer.new
new loop junk =
    let made : Server =
      TcpServer.new loop junk (record { ws_conns = []; given_up = []; dangling = [] }) in
    set_connections (set_messages made (some messages)) (some connections)

-- `onConnection`
abbrev pub on_connection :
    Callbacks → Option (WebSocketConnection → Outcome WebSocketConnection) → Callbacks
on_connection app cb = record app { on_connection = cb }

abbrev pub put_socket : Server → ℕ → WebSocketConnection → Server
put_socket s id w = record s { more = record s.more { ws_conns = assign id w s.more.ws_conns } }

abbrev pub give_up : Server → ℕ → Server
give_up s id = elim (lookup id s.more.ws_conns) [
  | none ↦ s
  | some w ↦ record s {
    more = record s.more {
      ws_conns = erase id s.more.ws_conns;
      given_up = assign id w s.more.given_up;
    };
  }
]

-- `WebSocketServer::handleConnection`
unfoldable pub handle_connection : Connection Handler → Server → Connection Handler × Server
unfolding is_disconnected
handle_connection p s = if is_disconnected p.conn then (p, give_up s p.conn.id) else (p, s)

-- The number of a connection has no setter: what the application's callbacks leave has the same.
abbrev pub same_id : Connection Handler → TcpConnection → Connection Handler
same_id p c = with_conn p (record c { id = p.conn.id })

-- What is up to the application and to the memory. `keeps` says whether the application holds a pointer to
-- each WebSocket connection, as a callback that captures one does. `conn_` is a reference to the pointer
-- that `shared_from_this()` made for the first call of `handleMessage`, so it dangles in every later one:
-- `conn_reads` says what a use of it comes to, from the connection as the WebSocket connection last
-- left it and as it is now.
pub record Memory : Type 0 where
  pub keeps : Bool
  pub conn_reads : TcpConnection → TcpConnection → Outcome TcpConnection

module _ (app : Callbacks) (memory : Memory) where
  -- `WebSocketConnection::handleClose`, which is bound to a plain pointer. `held` says whether the
  -- caller itself holds the object.
  unfoldable pub socket_close :
      Bool → Connection Handler → Server → Outcome (Connection Handler × Server)
  unfolding Types.handle_close
  socket_close held p s = elim (lookup p.conn.id s.more.ws_conns) [
    | some w ↦ do
      w' ← Types.handle_close app (record w { conn = p.conn })
      ok (same_id p w'.conn, put_socket s p.conn.id w')
    | none ↦ elim (lookup p.conn.id s.more.given_up) [
      | none ↦ ok (p, s)
      | some w ↦ do
        w' ← Types.handle_close app (record w { conn = p.conn })
        ok (
          same_id p w'.conn,
          record s {
            more = record s.more {
              given_up = assign p.conn.id w' s.more.given_up;
              dangling =
                  if held || memory.keeps
                  then s.more.dangling
                  else s.more.dangling ++ (p.conn.id ∷ []);
            };
          },
        )
    ]
  ]

  -- The callbacks other than that for messages, which is not registered for these events.
  unfoldable pub run_simple :
      Bool → Handler → Connection Handler → Server → Outcome (Connection Handler × Server)
  unfolding handle_connection socket_close
  run_simple held messages p s = ok (p, s)
  run_simple held connections p s = ok (handle_connection p s)
  run_simple held closing p s = close_connection p s
  run_simple held socket_closed p s = socket_close held p s

  -- The callbacks of a close within `parse`. They run behind it, since nothing that `parse` does
  -- after a close looks at the server.
  unfoldable pub run_closed : Connection Handler → Server → Outcome (Connection Handler × Server)
  unfolding run_simple
  run_closed p s = do
    (p', s') ← call (run_simple true) p.calls.connection p s
    call (run_simple true) p'.calls.close p' s'

  -- `onClose`, which the application calls in `connCb_`, once the handshake is done, replaces the
  -- close callback of the TCP connection.
  abbrev pub registers : WebSocketConnection → Bool
  registers w = elim app.on_close [ none ↦ false | some cb ↦ not (is_initial w.status) ]

  -- The connection that the callback works on: a new one, whose `conn_` is still good, or what the map has.
  unfoldable pub socket_for : Connection Handler → Server → Outcome WebSocketConnection
  unfolding Types.new
  socket_for p s = elim (lookup p.conn.id s.more.ws_conns) [
    | none ↦ ok (Types.new p.conn)
    | some w ↦ do conn ← memory.conn_reads w.conn p.conn; ok (record w { conn = conn })
  ]

  module _ (execute : HttpParser) (d : Digests) (fuel : ℕ) where
    -- What is left of `handleMessage` once `parse` has returned `w`.
    unfoldable pub after_parse :
        Connection Handler → Server → WebSocketConnection → Outcome (Connection Handler × Server)
    unfolding run_closed
    after_parse p s w =
        let parsed = same_id p w.conn in
        let bound =
          if registers w then set_close_callback parsed (some socket_closed) else parsed in
        let stored = put_socket s p.conn.id w in
        if ltb p.conn.close_calls w.conn.close_calls
        then run_closed bound stored
        else ok (bound, stored)

    -- `WebSocketServer::handleMessage`
    unfoldable pub handle_message :
        Connection Handler → Server → Outcome (Connection Handler × Server)
    unfolding socket_for after_parse
    handle_message p s = do w ← socket_for p s; w' ← parse execute d app fuel w; after_parse p s w'

    unfoldable pub run :
        Handler → Connection Handler → Server → Outcome (Connection Handler × Server)
    unfolding handle_message run_simple
    run messages p s = handle_message p s
    run connections p s = run_simple false connections p s
    run closing p s = run_simple false closing p s
    run socket_closed p s = run_simple false socket_closed p s

    -- A read: libuv asks for room, then reports.
    unfoldable pub read_event :
        Nread → Connection Handler → Server → Outcome (Connection Handler × Server)
    unfolding run
    read_event n p s = Callbacks.uv_read run (with_conn p (uv_alloc p.conn).0) n s

    unfoldable pub on_read : ℕ → Nread → Server → Outcome Server
    unfolding read_event
    on_read id n s = on_event (read_event n) id s

    unfoldable pub on_written : ℕ → Bool → Server → Outcome Server
    unfolding run
    on_written id bad s = on_event (λ p t. Callbacks.write_done run p bad t) id s

    unfoldable pub on_incoming : Bool → Incoming → Server → Outcome Server
    unfolding run
    on_incoming bad uv s = on_uv_connection run closing bad uv s

  -- `Listen`
  abbrev pub listen_on : ℕ → (Server → Outcome (ℕ × Server)) → Server → Outcome (ℕ × Server)
  listen_on ret uv_run s = listen ret uv_run s

-- What libuv reports to the server.
pub data Event : Type 0 where
  incoming : Bool → Incoming → Event
  read : ℕ → Nread → Event
  written : ℕ → Bool → Event

-- The number of the connection that an event is about; a new one gets the next.
abbrev pub number_of : Event → Server → ℕ
number_of (incoming bad uv) s = s.next_id
number_of (read id n) s = id
number_of (written id bad) s = id

unfoldable pub step :
    Callbacks → Memory → HttpParser → Digests → ℕ → Event → Server → Outcome Server
unfolding on_incoming on_read on_written
step app memory execute d fuel (incoming bad uv) s = on_incoming app memory execute d fuel bad uv s
step app memory execute d fuel (read id n) s = on_read app memory execute d fuel id n s
step app memory execute d fuel (written id bad) s = on_written app memory execute d fuel id bad s
