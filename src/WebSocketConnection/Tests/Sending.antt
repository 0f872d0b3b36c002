-- ===== src/WebSocketConnection/Tests/Sending.antt =====
-- What a connection sends in concrete cases.

use websocket_engine.Base.{◌≡◌, refl, inl, true, [], ◌∷◌, ◌++◌, arith, ok}
use websocket_engine.TcpConnection.Stream.{stream}
use websocket_engine.WebSocketConnection.Requests.{
  copy_message, send_ping, send_pong, perform_all, requests_sent,
}
use websocket_engine.WebSocketConnection.Types.{WebSocketConnection, going_away}
use websocket_engine.WebSocketConnection.Send.{opcode_for, send_message_move, close}
use websocket_engine.WebSocketConnection.Outgoing.{
  IsReady, Sent, SendsClose, frame, send_message_move_lem, close_lem,
}
use websocket_engine.WebSocketConnection.Tests.{
  holding-Holds, opened, opened-IsReady, hi, socket-Inv,
}

abbrev ready : WebSocketConnection
ready = opened [] []

ready-IsReady : IsReady ready
ready-IsReady = opened-IsReady [] []

send_message_move_lem_example :
    (w' : WebSocketConnection) × (send_message_move ready hi true ≡ ok w')
    × Sent ready (frame (opcode_for true) hi) w'
send_message_move_lem_example = send_message_move_lem ready hi true ready-IsReady (omega arith)

close_lem_example : SendsClose ready going_away (close ready going_away)
close_lem_example = close_lem ready going_away (socket-Inv []) (inl refl) (holding-Holds []).valid

requests_sent_example :
    (w' : WebSocketConnection) × (perform_all
        (copy_message hi true ∷ send_ping hi ∷ send_pong [] ∷ [])
        ready
      ≡ ok w')
    × IsReady w'
    × (stream w'.conn
        ≡ stream ready.conn ++ (frame (opcode_for true) hi ++ (frame 9 hi ++ (frame 10 [] ++ []))))
requests_sent_example =
    requests_sent (copy_message hi true ∷ send_ping hi ∷ send_pong [] ∷ []) ready
      (omega arith, (omega arith, (omega arith, tt))) ready-IsReady
