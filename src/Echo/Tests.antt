-- ===== src/Echo/Tests.antt =====
-- The echo server at a concrete input.
use websocket_engine.Base.{
  Outcome, ℕ, ◌≡◌, ◌≢◌, ◌⊎◌, stuck, refl, inl, true, false, List, [], ◌∷◌, ◌++◌, some, arith, ok,
}
use websocket_engine.Base.Table.{lookup}
use websocket_engine.Buffer.{ensure_space}
use websocket_engine.Buffer.Queue.{Holds}
use websocket_engine.TcpConnection.{TcpConnection, uv_alloc, stored}
use websocket_engine.TcpConnection.Callbacks.{Connection}
use websocket_engine.TcpConnection.Stream.{stream, Inv}
use websocket_engine.WebSocketConnection.Types.{WebSocketConnection, message, set_input}
use websocket_engine.WebSocketConnection.Decode.{decode}
use websocket_engine.WebSocketConnection.Termination.{Hangs, decode_lem}
use websocket_engine.WebSocketConnection.Frames.{client_frame}
use websocket_engine.WebSocketConnection.Outgoing.{frame}
use websocket_engine.WebSocketServer
use websocket_engine.WebSocketServer.{Handler, Server, on_read}
use websocket_engine.WebSocketServer.Samples.{
  parser, digests, empty_buffer, conn, peer, socket, server,
}
use websocket_engine.Echo.{app, memory, main}
use websocket_engine.Echo.Polite.{app-IsPolite}
use websocket_engine.Echo.Served.{IsServed, IsFrameRead, echoes}

abbrev reaching : TcpConnection → TcpConnection → Outcome TcpConnection
reaching last now = ok now

abbrev key : List ℕ
key = 1 ∷ 2 ∷ 3 ∷ 4 ∷ []

abbrev payload : List ℕ
payload = 72 ∷ 105 ∷ []

nothing : Holds empty_buffer []
nothing = record { valid = record { order = omega arith; fits = omega arith }; held = refl }

conn-Inv : Inv conn
conn-Inv = ground (arith, nothing.valid)

served : IsServed server peer socket
served = record {
  there = refl;
  known = refl;
  message_set = refl;
  sound = conn-Inv;
  able = inl refl;
  input = nothing;
  status = refl;
  wanted = refl;
  fresh = refl;
  whole = refl;
  kept = nothing;
  clean = nothing;
}

frame_read : IsFrameRead peer key payload (client_frame true 1 key payload)
unfolding uv_alloc ensure_space
frame_read = record {
  bytes = (
    omega arith,
    (
      omega arith,
      (omega arith, (omega arith, (omega arith, (omega arith, (omega arith, (omega arith, tt)))))),
    ),
  );
  room = omega arith;
  capacity = omega arith;
  size = omega arith;
  key_size = refl;
}

echoes_example :
    (s' : Server) × (p' : Connection Handler) × (w' : WebSocketConnection) × (on_read app
        (memory reaching)
        parser
        digests
        3
        3
        (stored (client_frame true 1 key payload))
        server
      ≡ ok s')
    × (lookup 3 s'.connection_map ≡ some p')
    × (lookup 3 s'.more.ws_conns ≡ some w')
    × (stream p'.conn ≡ stream conn ++ frame 1 payload)
    × (w'.events ≡ [] ++ (message payload false ∷ []))
echoes_example =
    echoes reaching parser digests 2 server peer socket served (λ c. refl) false key payload
      frame_read

-- `main` returns 0 even if it cannot listen.
refused : main reaching 0 98 (λ s. ok (0, s)) ≡ ok (0, WebSocketServer.new 0 0)
unfolding main
refused = refl

-- A text, and a part of the next frame
abbrev arrived : WebSocketConnection
arrived = set_input socket (record {
  buf = client_frame true 1 key payload ++ (0x81 ∷ []);
  read_index = 0;
  write_index = 9;
  last_expand = 0;
})

decode_lem_example : (decode app 11 arrived ≢ stuck) ⊎ Hangs app arrived
decode_lem_example = decode_lem app 11 arrived app-IsPolite (omega arith)
