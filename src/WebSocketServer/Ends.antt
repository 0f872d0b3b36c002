-- ===== src/WebSocketServer/Ends.antt =====
-- src/TcpServer.cpp and src/WebSocketServer.cpp: how a connection begins and ends.

use websocket_engine.Base.{
  ℕ, ◌+◌, ◌≡◌, refl, ap, inl, inr, true, false, [], ◌∷◌, ◌++◌, none, some, Option-cases,
  if◌then◌else◌, Outcome, ok,
}
use websocket_engine.Base.Table.{
  lookup, has_key, assign, erase, lookup-assign_self, assign-assign, lookup-erase_self,
}
use websocket_engine.TcpConnection.{
  TcpConnection, connected, disconnected, set_state, stop_read, is_disconnected, uv_alloc, failed,
  start_read,
}
use websocket_engine.TcpConnection
use websocket_engine.TcpConnection.Callbacks
use websocket_engine.TcpConnection.Callbacks.{
  Connection, with_conn, run_close_callbacks, call, destroy, create,
}
use websocket_engine.TcpServer.{
  close_connection, finish, on_event, Incoming, is_single_thread, accept_connection,
  on_uv_connection,
}
use websocket_engine.WebSocketConnection.Types
use websocket_engine.WebSocketConnection.Types.{WebSocketConnection, Callbacks, shut_down, closed}
use websocket_engine.WebSocketConnection.Handshake.{HttpParser, Digests}
use websocket_engine.WebSocketServer.{
  Memory, Handler, messages, on_incoming, connections, closing, socket_closed, Server, give_up,
  handle_connection, socket_close, run, read_event, on_read,
}

-- The connection as `handleClose` has left it when it calls the close callback.
abbrev pub shut : Connection Handler → Connection Handler
shut p = with_conn p (record (uv_alloc p.conn).0 {
  state = disconnected;
  reading = false;
  connection_calls = p.conn.connection_calls + 1;
  close_calls = p.conn.close_calls + 1;
})

-- The connection `p` of `s` is open with nothing under way, and `close` is its close callback.
pub record IsIdle (s : Server) (p : Connection Handler) (close : Handler) : Type 0 where
  pub there : lookup p.conn.id s.connection_map ≡ some p
  pub state : p.conn.state ≡ connected
  pub connection_set : p.calls.connection ≡ some connections
  pub close_set : p.calls.close ≡ some close

give_up-absent : (s : Server) (n : ℕ) → lookup n (give_up s n).more.ws_conns ≡ none
give_up-absent s n = elim (Option-cases (lookup n s.more.ws_conns)) [
  | inl absent ↦ rw (give_up, absent) absent
  | inr found ↦ rw (give_up, found.1) (lookup-erase_self n s.more.ws_conns)
]

give_up-map : (s : Server) (n : ℕ) → (give_up s n).connection_map ≡ s.connection_map
give_up-map s n = elim (Option-cases (lookup n s.more.ws_conns)) [
  | inl absent ↦ rw (give_up, absent)
  | inr found ↦ rw (give_up, found.1)
]

give_up-kept :
    (s : Server) (n : ℕ)
    → ((give_up s n).released ≡ s.released) × ((give_up s n).more.dangling ≡ s.more.dangling)
give_up-kept s n = elim (Option-cases (lookup n s.more.ws_conns)) [
  | inl absent ↦ rw (give_up, absent) (refl, refl)
  | inr found ↦ rw (give_up, found.1) (refl, refl)
]

give_up-given :
    (s : Server) (n : ℕ) (w : WebSocketConnection)
    → lookup n s.more.ws_conns ≡ some w
    → lookup n (give_up s n).more.given_up ≡ some w
give_up-given s n w e = rw (give_up, e) (lookup-assign_self n w s.more.given_up)

-- A connection that was put into the map while it was being made stands there as it ends up.
finish_there :
    (p made : Connection Handler) (s : Server)
    → finish p (record s { connection_map = assign p.conn.id made s.connection_map })
      ≡ record s { connection_map = assign p.conn.id p s.connection_map }
unfolding finish
finish_there p made s = rw (
  has_key,
  lookup-assign_self p.conn.id made s.connection_map,
  assign-assign p.conn.id p made s.connection_map,
)

module _ (app : Callbacks) (memory : Memory) (execute : HttpParser) (d : Digests) (fuel : ℕ) where
  closes :
      (s : Server) (p : Connection Handler) (close : Handler)
      → IsIdle s p close
      → read_event app memory execute d fuel failed p s
        ≡ run app memory execute d fuel close (shut p) (give_up s p.conn.id)
  unfolding read_event Callbacks.uv_read Callbacks.handle_close set_state stop_read uv_alloc run
      handle_connection is_disconnected
  closes s p close idle = rw (idle.state, idle.connection_set, idle.close_set)

  abbrev forgotten : Server → Connection Handler → Server
  forgotten s p =
      let given : Server = give_up s p.conn.id in
      record given {
        connection_map = erase p.conn.id given.connection_map;
        released = given.released ++ (destroy (shut p) ∷ []);
      }

  -- The end of the stream of a connection that is open with nothing under way, and whose close
  -- callback is the server's: both maps lose its number, and the object is destroyed, in the state
  -- `kDisconnected` and with its descriptor closed.
  pub end_forgets :
      (s : Server) (p : Connection Handler)
      → IsIdle s p closing
      → (s' : Server) × (on_read app memory execute d fuel p.conn.id failed s ≡ ok s')
        × (lookup p.conn.id s'.connection_map ≡ none)
        × (lookup p.conn.id s'.more.ws_conns ≡ none)
        × (q : Connection Handler) × (s'.released ≡ s.released ++ (q ∷ []))
        × (q.conn.id ≡ p.conn.id)
        × (q.conn.state ≡ disconnected)
        × (q.fd ≡ none)
  unfolding on_read on_event run close_connection finish destroy uv_alloc
  end_forgets s p idle = (
    forgotten s p,
    rw (
      on_event,
      idle.there,
      closes s p closing idle,
      give_up-map s p.conn.id,
      has_key,
      idle.there,
      lookup-erase_self p.conn.id s.connection_map,
    ),
    lookup-erase_self p.conn.id (give_up s p.conn.id).connection_map,
    give_up-absent s p.conn.id,
    destroy (shut p),
    ap (λ t. t ++ (destroy (shut p) ∷ [])) (give_up-kept s p.conn.id).0,
    refl,
    refl,
    refl,
  )

  -- The server `g`, once the close callback has run for `q` on the object `w` that the map gave up.
  abbrev after_close : Server → Connection Handler → WebSocketConnection → Server
  after_close g q w = record g {
    more = record g.more {
      given_up =
          assign q.conn.id
            (record w { conn = q.conn; status = closed; events = w.events ++ (shut_down ∷ []) })
            g.more.given_up;
      dangling = if memory.keeps then g.more.dangling else g.more.dangling ++ (q.conn.id ∷ []);
    };
  }

  socket_gone :
      (g : Server) (q : Connection Handler) (w : WebSocketConnection)
      (cb : WebSocketConnection → Outcome WebSocketConnection)
      → lookup q.conn.id g.more.ws_conns ≡ none
      → lookup q.conn.id g.more.given_up ≡ some w
      → app.on_close ≡ some cb
      → ((v : WebSocketConnection) → cb v ≡ ok v)
      → run app memory execute d fuel socket_closed q g ≡ ok (q, after_close g q w)
  unfolding run socket_close Types.handle_close
  socket_gone g q w cb absent known registered polite = rw (
    socket_close,
    absent,
    known,
    registered,
    polite (record w { conn = q.conn; status = closed; events = w.events ++ (shut_down ∷ []) }),
  )

  abbrev leaked : Server → Connection Handler → WebSocketConnection → Server
  leaked s p w =
      let after : Server = after_close (give_up s p.conn.id) (shut p) w in
      record after { connection_map = assign p.conn.id (shut p) after.connection_map }

  -- The end of the stream of a connection that is open with nothing under way, once the application
  -- has called `onClose` with a callback that leaves the connection alone: the
  -- map of WebSocket connections loses the number, the callback runs on the object that the map gave
  -- up, whose status is then CLOSED, but the server keeps the connection, in the state
  -- `kDisconnected` and with its descriptor open, and destroys nothing. Unless the application holds
  -- a pointer to the WebSocket connection, it was used after it was destroyed.
  pub end_leaks :
      (s : Server) (p : Connection Handler) (w : WebSocketConnection)
      (cb : WebSocketConnection → Outcome WebSocketConnection)
      → IsIdle s p socket_closed
      → lookup p.conn.id s.more.ws_conns ≡ some w
      → app.on_close ≡ some cb
      → ((v : WebSocketConnection) → cb v ≡ ok v)
      → (s' : Server) × (on_read app memory execute d fuel p.conn.id failed s ≡ ok s')
        × (lookup p.conn.id s'.connection_map ≡ some (shut p))
        × (lookup p.conn.id s'.more.ws_conns ≡ none)
        × (s'.released ≡ s.released)
        × (w' : WebSocketConnection) × (lookup p.conn.id s'.more.given_up ≡ some w')
        × (w'.events ≡ w.events ++ (shut_down ∷ []))
        × (w'.status ≡ closed)
        × (s'.more.dangling
            ≡ (if memory.keeps then s.more.dangling else s.more.dangling ++ (p.conn.id ∷ [])))
  unfolding on_read on_event finish uv_alloc
  end_leaks s p w cb idle known registered polite = (
    leaked s p w,
    rw (on_event, idle.there, closes s p socket_closed idle)
        (rw (
          socket_gone (give_up s p.conn.id) (shut p) w cb (give_up-absent s p.conn.id)
              (give_up-given s p.conn.id w known) registered polite,
          has_key,
          give_up-map s p.conn.id,
          idle.there,
        )),
    lookup-assign_self p.conn.id (shut p) (give_up s p.conn.id).connection_map,
    give_up-absent s p.conn.id,
    (give_up-kept s p.conn.id).0,
    record w { conn = (shut p).conn; status = closed; events = w.events ++ (shut_down ∷ []) },
    lookup-assign_self p.conn.id _ (give_up s p.conn.id).more.given_up,
    refl,
    refl,
    ap (λ t. if memory.keeps then t else t ++ (p.conn.id ∷ [])) (give_up-kept s p.conn.id).1,
  )

  -- The connection object that a single-threaded server makes for a new connection.
  abbrev opened : Server → Incoming → Connection Handler
  opened s uv =
      let made : Connection Handler = create s.loop s.next_id uv.junk in
      record made {
        conn = record made.conn { state = connected; reading = true; connection_calls = 1 };
        calls = record {
          connection = some connections;
          message = some messages;
          close = some closing;
          write_complete = none;
        };
        fd = uv.accepted;
      }

  -- An incoming connection at a single-threaded server, as the constructor sets its callbacks up: the
  -- map has, under the next number, a connection in the state `kConnected` that is read, has the
  -- descriptor that `uv_accept` opened and runs the server's callbacks; nothing else changes but the
  -- next number.
  pub accept_lem :
      (s : Server) (uv : Incoming)
      → is_single_thread s ≡ true
      → s.message_callback ≡ some messages
      → s.connection_callback ≡ some connections
      → (p : Connection Handler) × (on_incoming app memory execute d fuel false uv s
          ≡ ok (record s {
            next_id = s.next_id + 1;
            connection_map = assign s.next_id p s.connection_map;
          }))
        × (p.conn.id ≡ s.next_id)
        × (p.conn.state ≡ connected)
        × (p.conn.reading ≡ true)
        × (p.fd ≡ uv.accepted)
        × (p.calls ≡ record {
          connection = some connections;
          message = some messages;
          close = some closing;
          write_complete = none;
        })
  unfolding on_incoming on_uv_connection accept_connection TcpConnection.new run handle_connection
      TcpConnection.connection_established set_state start_read finish
  accept_lem s uv single heard watched = (
    opened s uv,
    rw (single, heard, watched)
        (ap ok (
          finish_there (opened s uv) (record (create s.loop s.next_id uv.junk) { fd = uv.accepted })
            (record s {
              next_id = s.next_id + 1;
              message_callback = some messages;
              connection_callback = some connections;
            }))),
    refl,
    refl,
    refl,
    refl,
    refl,
  )
