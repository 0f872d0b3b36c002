-- ===== src/WebSocketServer/Tests.antt =====
-- The theorems on the server at concrete inputs.
use websocket_engine.Base.{◌≡◌, refl, true, false, [], ◌∷◌, ◌++◌, none, some, ok}
use websocket_engine.Base.Table.{lookup, assign}
use websocket_engine.TcpConnection.{connected, disconnected, failed}
use websocket_engine.TcpConnection.Callbacks.{Connection}
use websocket_engine.TcpServer.{is_single_thread}
use websocket_engine.WebSocketConnection.Types.{WebSocketConnection, Callbacks, shut_down, closed}
use websocket_engine.WebSocketServer.{
  Handler, messages, connections, closing, socket_closed, Server, on_read, on_incoming,
}
use websocket_engine.WebSocketServer.Samples.{
  careless, parser, digests, peer, fresh_peer, socket, server, newcomer,
}
use websocket_engine.WebSocketServer.Ends.{IsIdle, shut, end_forgets, end_leaks, accept_lem}

-- An application that only sets a close callback.
abbrev app : Callbacks
app = record {
  on_connection = some λ w. ok w;
  on_close = some λ w. ok w;
  on_message = none;
  on_ping = none;
  on_pong = none;
}

fresh-IsIdle : IsIdle server fresh_peer closing
fresh-IsIdle = record { there = refl; state = refl; connection_set = refl; close_set = refl }

peer-IsIdle : IsIdle server peer socket_closed
peer-IsIdle = record { there = refl; state = refl; connection_set = refl; close_set = refl }

end_forgets_example :
    (s' : Server) × (on_read app careless parser digests 5 4 failed server ≡ ok s')
    × (lookup 4 s'.connection_map ≡ none)
    × (lookup 4 s'.more.ws_conns ≡ none)
    × (q : Connection Handler) × (s'.released ≡ [] ++ (q ∷ []))
    × (q.conn.id ≡ 4)
    × (q.conn.state ≡ disconnected)
    × (q.fd ≡ none)
end_forgets_example = end_forgets app careless parser digests 5 server fresh_peer fresh-IsIdle

end_leaks_example :
    (s' : Server) × (on_read app careless parser digests 5 3 failed server ≡ ok s')
    × (lookup 3 s'.connection_map ≡ some (shut peer))
    × (lookup 3 s'.more.ws_conns ≡ none)
    × (s'.released ≡ [])
    × (w' : WebSocketConnection) × (lookup 3 s'.more.given_up ≡ some w')
    × (w'.events ≡ shut_down ∷ [])
    × (w'.status ≡ closed)
    × (s'.more.dangling ≡ 3 ∷ [])
end_leaks_example =
    end_leaks app careless parser digests 5 server peer socket (λ w. ok w) peer-IsIdle refl refl
      λ v. refl

single : is_single_thread server ≡ true
unfolding is_single_thread
single = refl

accept_lem_example :
    (p : Connection Handler) × (on_incoming app careless parser digests 5 false newcomer server
      ≡ ok (record server { next_id = 6; connection_map = assign 5 p server.connection_map }))
    × (p.conn.id ≡ 5)
    × (p.conn.state ≡ connected)
    × (p.conn.reading ≡ true)
    × (p.fd ≡ some 14)
    × (p.calls ≡ record {
      connection = some connections;
      message = some messages;
      close = some closing;
      write_complete = none;
    })
accept_lem_example = accept_lem app careless parser digests 5 server newcomer single refl refl

abbrev after_end : (s' : Server) × (on_read app careless parser digests 5 4 failed server ≡ ok s')
after_end =
    let done = end_forgets app careless parser digests 5 server fresh_peer fresh-IsIdle in
    (done.0, done.1)
