-- ===== src/WebSocketConnection/Endless.antt =====
-- What follows an empty close frame, or a ping on an empty `decodeBuf_`: src/WebSocketConnection.cpp,
-- `decode`.

use websocket_engine.Base.{
  ℕ, zero, suc, ◌^◌, ◌<◌, ◌≡◌, refl, ap, ◌∙◌, Bool, true, List, [], ◌++◌, some, arith, length,
  Outcome, ok, stuck, ◌>>=◌,
}
use websocket_engine.Buffer.{readable_bytes}
use websocket_engine.Buffer.Queue.{Holds, readable-Holds}
use websocket_engine.WebSocketConnection.Types.{
  WebSocketConnection, Callbacks, Event, pinged, clear_decode_status, connect, is_connect,
}
use websocket_engine.WebSocketConnection.Send.{opcode_for}
use websocket_engine.WebSocketConnection.Decode.{decode_step, decode}
use websocket_engine.WebSocketConnection.Outgoing.{IsReady}
use websocket_engine.WebSocketConnection.Termination.{Spins-decode}
use websocket_engine.WebSocketConnection.Messages.{HasFrame, message_behind}
use websocket_engine.WebSocketConnection.Fragments.{decode_goes, All-behind}
use websocket_engine.WebSocketConnection.Frames.{client_frame}
use websocket_engine.WebSocketConnection.Control.{ReturnsNoting, ping_arrives}
use websocket_engine.WebSocketConnection.Refusals.{close_arrives}

-- A close frame without a payload that arrives at an open connection with at least one byte behind
-- it: `decode` calls itself without end, whatever its fuel.
pub empty_close_hangs :
    (app : Callbacks) (w : WebSocketConnection) (fuel : ℕ) (fin : Bool) (old key rest : List ℕ)
    → HasFrame w fin 8 key [] rest
    → Holds w.decode_buf old
    → IsReady w
    → w.status ≡ connect
    → 0 < length rest
    → decode app fuel w ≡ stuck
unfolding decode
empty_close_hangs app w zero fin old key rest f d r s h = refl
empty_close_hangs app w (suc fuel) fin old key rest f d r s h =
    let (w', e, c, k, n, _) = close_arrives app w fin old key [] rest f d r s in
    let more : 0 < readable_bytes w'.conn.buf = omega (arith, readable-Holds c.left) in
    decode_goes app w fuel e more
    ∙ Spins-decode app fuel w' (record {
      read = c.read;
      kind = c.kind;
      size = n;
      status = ap (λ t. is_connect t) c.status;
      more = more;
    })

-- A whole ping of less than 126 bytes, with a whole text or binary frame directly behind it, at a
-- connection that may send, while `decodeBuf_` is empty and no message is under way, where the
-- application's callback for pings, if any, leaves the connection as it is: the message callback gets
-- the ping's payload in front of the text.
pub ping_leaks :
    (app : Callbacks) {notes : List ℕ → List Event}
    {call : List ℕ → Bool → WebSocketConnection → Outcome WebSocketConnection}
    (w : WebSocketConnection) (is_binary : Bool) (key payload next_key text rest : List ℕ)
    → ReturnsNoting pinged notes app.on_ping
    → app.on_message ≡ some call
    → HasFrame w true 9 key payload (client_frame true (opcode_for is_binary) next_key text ++ rest)
    → Holds w.decode_buf []
    → IsReady w
    → w.fragmented_op_code ≡ 0
    → length payload < 126
    → (length next_key ≡ 4) × (length text < 2 ^ 64)
    → (w1 w2 : WebSocketConnection) × (decode_step app w ≡ ok (w1, true))
      × (decode_step app w1
          ≡ (call (payload ++ text) is_binary w2 >>= λ v. ok (clear_decode_status v, true)))
ping_leaks app w is_binary key payload next_key text rest polite heard f d r z h n =
    let (w1, e, g, _, _) = ping_arrives app w [] key payload _ polite f d r h in
    let (w2, e', _) =
      message_behind app heard w1 is_binary payload next_key text rest
        (record {
          fresh = g.fresh;
          input = g.left;
          bytes = All-behind (client_frame true 9 key payload) _ f.bytes;
          capacity = omega (arith, f.capacity, g.capacity);
          size = n.1;
          key_size = n.0;
        })
        g.kept (g.fragmented ∙ z) in
    (w1, w2, e, e')
