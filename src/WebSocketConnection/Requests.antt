-- ===== src/WebSocketConnection/Requests.antt =====
-- include/ws/WebSocketConnection.h: what an application may ask of a connection, any number of times.
use mathlib.Core.List.{append_assoc, append-nil}
use websocket_engine.Base.{
  ℕ, ◌^◌, ◌<◌, ◌≡◌, refl, sym, ap, ◌∙◌, Bool, List, [], ◌∷◌, ◌++◌, length, All, Outcome, ok, ◌>>=◌,
}
use websocket_engine.TcpConnection.Stream.{stream}
use websocket_engine.WebSocketConnection.Types.{WebSocketConnection, StatusCode}
use websocket_engine.WebSocketConnection.Send.{
  send_message_move, send_message_copy, ping, pong, close, opcode_for,
}
use websocket_engine.WebSocketConnection.Outgoing.{
  IsReady, frame, send_message_copy_lem, ping_lem, pong_lem,
}

-- The calls of `sendMessage`, which has two overloads, `ping`, `pong` and `close`.
pub data Request : Type 0 where
  move_message copy_message : List ℕ → Bool → Request
  send_ping send_pong : List ℕ → Request
  send_close : StatusCode → Request

unfoldable pub perform : Request → WebSocketConnection → Outcome WebSocketConnection
perform (move_message text is_binary) w = send_message_move w text is_binary
perform (copy_message text is_binary) w = send_message_copy w text is_binary
perform (send_ping text) w = ping w text
perform (send_pong text) w = pong w text
perform (send_close code) w = close w code

unfoldable pub perform_all : List Request → WebSocketConnection → Outcome WebSocketConnection
unfolding perform
perform_all [] w = ok w
perform_all (r ∷ rs) w = do w' ← perform r w; perform_all rs w'

-- A message that is copied, or a ping or pong, of a size that a frame can have.
abbrev pub IsFramed : Request → Type 0
IsFramed (copy_message text is_binary) = length text < 2 ^ 64
IsFramed (send_ping text) = length text < 126
IsFramed (send_pong text) = length text < 126
IsFramed _ = ⊥

-- What a peer is to get for it.
abbrev pub frame_of : Request → List ℕ
frame_of (copy_message text is_binary) = frame (opcode_for is_binary) text
frame_of (send_ping text) = frame 9 text
frame_of (send_pong text) = frame 10 text
frame_of _ = []

abbrev pub frames_of : List Request → List ℕ
frames_of [] = []
frames_of (r ∷ rs) = frame_of r ++ frames_of rs

framed :
    (r : Request) (w : WebSocketConnection)
    → IsFramed r
    → IsReady w
    → (w' : WebSocketConnection) × (perform r w ≡ ok w')
      × IsReady w'
      × (stream w'.conn ≡ stream w.conn ++ frame_of r)
unfolding perform
framed (copy_message text is_binary) w h i =
    let (w', e, ready, sent) = send_message_copy_lem w text is_binary i h in (w', e, ready, sent.0)
framed (send_ping text) w h i =
    let (c, out, e, ready, sent, same) = ping_lem w text i h in
    (record w { conn = c; output_buf = out }, e, ready, sent.0)
framed (send_pong text) w h i =
    let (c, out, e, ready, sent, same) = pong_lem w text i h in
    (record w { conn = c; output_buf = out }, e, ready, sent.0)
framed (move_message text is_binary) w h i = absurd h
framed (send_close code) w h i = absurd h

-- An application that copies messages and sends pings and pongs, in any order and number and each of a
-- size that a frame can have, on a connection that may send with nothing in `outputBuf_`: the connection
-- takes for sending, behind all that it had taken before, exactly the whole frames of these calls in
-- their order, and it may send on.
pub requests_sent :
    (rs : List Request) (w : WebSocketConnection)
    → All IsFramed rs
    → IsReady w
    → (w' : WebSocketConnection) × (perform_all rs w ≡ ok w')
      × IsReady w'
      × (stream w'.conn ≡ stream w.conn ++ frames_of rs)
unfolding perform_all
requests_sent [] w h i = (w, refl, i, sym (append-nil (stream w.conn)))
requests_sent (r ∷ rs) w h i =
    let (v, e, ready, sent) = framed r w h.0 i in
    let (u, f, still, rest) = requests_sent rs v h.1 ready in
    (
      u,
      rw (e, f),
      still,
      rest
          ∙ ap (λ t. t ++ frames_of rs) sent
          ∙ append_assoc (stream w.conn) (frame_of r) (frames_of rs),
    )
