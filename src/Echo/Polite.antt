-- ===== src/Echo/Polite.antt =====
-- main.cpp: the callbacks of the echo server leave the input of the connection alone.
use websocket_engine.Base.{ℕ, refl, Bool, List, length, Lands, Lands-bind, Lands-if, Lands-assert}
use websocket_engine.Buffer.{Buffer, readable_bytes, retrieve, empty, write_from}
use websocket_engine.TcpConnection.{TcpConnection, is_state, writting, send_message}
use websocket_engine.WebSocketConnection.Types.{WebSocketConnection}
use websocket_engine.WebSocketConnection.Send.{opcode_for, write_header, send_message_move}
use websocket_engine.WebSocketConnection.Progress.{
  Leaves, Ignored, SameBuf, retrieve-Leaves, write_from-Leaves,
}
use websocket_engine.WebSocketConnection.Progress.Switch.{SameRest, IsPolite}
use websocket_engine.Echo.{app}

send_message-SameBuf :
    (c : TcpConnection) (header : Buffer) (body : List ℕ)
    → Lands (λ out. SameBuf c out.0) (send_message c header body)
unfolding send_message
send_message-SameBuf c header body =
    let n = readable_bytes header in
    let same = λ (out : TcpConnection × Buffer). SameBuf c out.0 in
    Lands-if same (is_state c.state writting) _ _
      (λ s.
        Lands-bind (λ (out : Buffer × Buffer). Leaves header n out.1) same
          (write_from c.output_buf header n) _ (write_from-Leaves c.output_buf header n)
          λ out k. refl)
      λ s.
        Lands-bind (Leaves header n) same (retrieve header n) _ (retrieve-Leaves header n)
          λ b k. refl

write_header-Lands :
    (out : Buffer) (payload_length opcode : ℕ)
    → Lands (Ignored Buffer) (write_header out payload_length opcode)
unfolding write_header
write_header-Lands out payload_length opcode = Lands-assert (Ignored Buffer) (empty out) _ λ e. tt

send_message_move-SameRest :
    (w : WebSocketConnection) (text : List ℕ) (is_binary : Bool)
    → Lands (SameRest w) (send_message_move w text is_binary)
unfolding send_message_move
send_message_move-SameRest w text is_binary = Lands-assert (SameRest w) (empty w.output_buf) _ λ e.
    Lands-bind (Ignored Buffer) (SameRest w)
      (write_header w.output_buf (length text) (opcode_for is_binary)) _
      (write_header-Lands w.output_buf (length text) (opcode_for is_binary))
      λ out k.
        Lands-bind (λ (sent : TcpConnection × Buffer). SameBuf w.conn sent.0) (SameRest w)
          (send_message w.conn out text) _ (send_message-SameBuf w.conn out text) λ sent same. same

pub app-IsPolite : IsPolite app
unfolding app
app-IsPolite = record {
  message = λ text is_binary w. send_message_move-SameRest w text is_binary;
  ping = λ text w. refl;
  pong = λ text w. refl;
}
