-- ===== src/Echo/Answer.antt =====
-- main.cpp over the whole of the server: what comes in goes out again.

use mathlib.Core.Path.{subst}
use websocket_engine.Base.{
  ℕ, ◌≡◌, refl, sym, ap, ◌∙◌, Bool, true, List, [], ◌∷◌, ◌++◌, length, ok, Ends, Ends-eq, Ends-any,
  Ends-bind, Ends-if, Ends-assert,
}
use websocket_engine.Buffer.{Buffer, readable_bytes, retrieve, empty, write_all}
use websocket_engine.Buffer.Queue.{Holds}
use websocket_engine.TcpConnection.{TcpConnection, is_state, writting, send_message, write_to_uv}
use websocket_engine.TcpConnection.Stream.{stream}
use websocket_engine.WebSocketConnection.Types.{WebSocketConnection, message, clear_decode_status}
use websocket_engine.WebSocketConnection.Send.{opcode_for, write_header, send_message_move}
use websocket_engine.WebSocketConnection.Decode.{decode_step}
use websocket_engine.WebSocketConnection.Messages.{HasFrame, message_arrives}
use websocket_engine.WebSocketConnection.Outgoing.{IsReady, frame, send_message_move_lem}
use websocket_engine.WebSocketConnection.Control.{still_ready}
use websocket_engine.Echo.{app}

-- What sending a message leaves as it was.
record SameInput (w w' : WebSocketConnection) : Type 0 where
  buf : w'.conn.buf ≡ w.conn.buf
  closes : w'.conn.close_calls ≡ w.conn.close_calls
  id : w'.conn.id ≡ w.conn.id
  events : w'.events ≡ w.events
  status : w'.status ≡ w.status

abbrev SameConn : {B : Type 0} → TcpConnection → TcpConnection × B → Type 0
SameConn c out = (out.0.buf ≡ c.buf) × (out.0.close_calls ≡ c.close_calls) × (out.0.id ≡ c.id)

send_message-SameConn :
    (c : TcpConnection) (header : Buffer) (body : List ℕ)
    → Ends (SameConn c) (send_message c header body)
unfolding send_message write_to_uv
send_message-SameConn c header body =
    Ends-if (SameConn c) (is_state c.state writting) _ _
      (Ends-any (SameConn c) (write_all c.output_buf header) _ λ out. (refl, refl, refl))
      (Ends-any (SameConn c) (retrieve header (readable_bytes header)) _ λ h. (refl, refl, refl))

send_message_move-SameInput :
    (w : WebSocketConnection) (text : List ℕ) (is_binary : Bool)
    → Ends (SameInput w) (send_message_move w text is_binary)
unfolding send_message_move
send_message_move-SameInput w text is_binary = Ends-assert (SameInput w) (empty w.output_buf) _ (
    Ends-any (SameInput w) (write_header w.output_buf (length text) (opcode_for is_binary)) _ λ out.
      Ends-bind (SameConn w.conn) (SameInput w) (send_message w.conn out text) _
        (send_message-SameConn w.conn out text)
        λ sent k. record { buf = k.0; closes = k.1; id = k.2; events = refl; status = refl })

-- `w'` has answered: it took one message, sent it back, and waits for the next header.
pub record Answered (w : WebSocketConnection) (is_binary : Bool) (payload rest : List ℕ)
    (w' : WebSocketConnection) : Type 0 where
  pub sent : stream w'.conn ≡ stream w.conn ++ frame (opcode_for is_binary) payload
  pub noted : w'.events ≡ w.events ++ (message payload is_binary ∷ [])
  pub left : Holds w'.conn.buf rest
  pub closes : w'.conn.close_calls ≡ w.conn.close_calls
  pub id : w'.conn.id ≡ w.conn.id
  pub status : w'.status ≡ w.status

pub echo_step :
    (w : WebSocketConnection) (is_binary : Bool) (key payload rest : List ℕ)
    → HasFrame w true (opcode_for is_binary) key payload rest
    → Holds w.decode_buf []
    → w.fragmented_op_code ≡ 0
    → IsReady w
    → (w' : WebSocketConnection) × (decode_step app w ≡ ok (w', true))
      × Answered w is_binary payload rest w'
unfolding app clear_decode_status
echo_step w is_binary key payload rest f d g r =
    let (v, e, h) =
      message_arrives app {call = λ t b u. send_message_move u t b} refl w is_binary key payload
        rest f d g in
    let (ready, same) = still_ready w v r h.out h.conn in
    let (u, sends, sent) = send_message_move_lem v payload is_binary ready f.size in
    let kept = Ends-eq (SameInput v) (send_message_move-SameInput v payload is_binary) sends in
    (
      clear_decode_status u,
      e ∙ rw sends,
      record {
        sent = sent.0 ∙ ap (λ t. t ++ frame (opcode_for is_binary) payload) same;
        noted = kept.events ∙ h.noted;
        left = subst (λ b. Holds b rest) (sym kept.buf) h.left;
        closes = kept.closes ∙ ap (λ c. c.close_calls) h.conn;
        id = kept.id ∙ ap (λ c. c.id) h.conn;
        status = kept.status ∙ h.status;
      },
    )
