-- ===== src/WebSocketConnection/Refusals.antt =====
-- Frames that `decode` refuses, and the close frame: src/WebSocketConnection.cpp, `decode`.
use mathlib.Core.Path.{subst}
use websocket_engine.Base.{
  ℕ, ◌<◌, ◌≡◌, ◌≢◌, refl, sym, ap, ◌∙◌, ◌⊎◌, inl, inr, Bool, true, false, List, ◌++◌, arith, length,
  ok, ◌>>=◌,
}
use websocket_engine.Buffer.Queue.{Holds}
use websocket_engine.TcpConnection
use websocket_engine.Base.{Ends, Ends-bind, Ends-eq, ltb, if◌then◌else◌}
use websocket_engine.TcpConnection.Closing.{ClosesWritten, closes_written, send-last}
use websocket_engine.TcpConnection.{stop_read, send}
use websocket_engine.Buffer.{readable_bytes, peek, clear, put_byte, put_uint16}
use websocket_engine.WebSocketConnection.Types.{StatusCode, code_of, is_failure}
use websocket_engine.TcpConnection.{TcpConnection, connected, writting, disconnecting}
use websocket_engine.TcpConnection.State.{handle_close_writting}
use websocket_engine.TcpConnection.Stream.{Inv, stream}
use websocket_engine.WebSocketConnection.Types.{
  WebSocketConnection, Callbacks, normal_close, protocol_error, closing, closed, connect,
}
use websocket_engine.WebSocketConnection.Send.{close}
use websocket_engine.WebSocketConnection.Decode.{dispatch, decode_step}
use websocket_engine.WebSocketConnection.Outgoing.{IsReady, close_frame_bytes, close_lem}
use websocket_engine.WebSocketConnection.Messages.{HasFrame, frame_step}
use websocket_engine.WebSocketConnection.Control.{still_ready}

-- The frames that RFC 6455 forbids where a message of the kind `fragmented` is under way, or none
-- for 0: a continuation of no message; a new message within another; a fragmented ping or pong; an
-- opcode that is not defined.
abbrev pub IsForbidden : ℕ → Bool → ℕ → Type 0
IsForbidden fragmented fin opcode =
    ((opcode ≡ 0) × (fragmented ≡ 0))
    ⊎ (((opcode ≡ 1) ⊎ (opcode ≡ 2)) × (fragmented ≢ 0))
    ⊎ (((opcode ≡ 9) ⊎ (opcode ≡ 10)) × (fin ≡ false))
    ⊎ ((2 < opcode) × (opcode < 8))
    ⊎ (10 < opcode)

dispatch_forbidden :
    (app : Callbacks) (w : WebSocketConnection) (fin : Bool) (opcode origin : ℕ)
    → IsForbidden w.fragmented_op_code fin opcode
    → w.opcode ≡ opcode
    → w.is_fin ≡ fin
    → dispatch app w origin ≡ (close w protocol_error >>= λ v. ok (v, false))
unfolding dispatch
dispatch_forbidden app w fin opcode origin (inl h) o f = ground arith
dispatch_forbidden app w fin opcode origin (inr (inl h)) o f = ground arith
dispatch_forbidden app w fin opcode origin (inr (inr (inl h))) o f = ground arith
dispatch_forbidden app w fin opcode origin (inr (inr (inr (inl h)))) o f = ground arith
dispatch_forbidden app w fin opcode origin (inr (inr (inr (inr h)))) o f = ground arith

-- A connection after `decode` has refused a frame.
pub record Refused (w w' : WebSocketConnection) : Type 0 where
  pub told : stream w'.conn ≡ stream w.conn ++ close_frame_bytes protocol_error
  pub status : w'.status ≡ closing
  pub paused : w'.conn.reading ≡ false
  pub events : w'.events ≡ w.events
  pub sound : Inv w'.conn

-- A frame that RFC 6455 forbids where it arrives (a continuation of no message, a new message
-- within one, a fragmented ping or pong, an opcode that is not defined), whole and with any
-- payload, at a connection that may send with nothing in `outputBuf_`: the peer is sent a close
-- frame with code 1002, nothing more is read, no callback of the application runs, and decoding
-- stops.
pub forbidden-Refused :
    (app : Callbacks) (w : WebSocketConnection) (fin : Bool) (opcode : ℕ)
    (old key payload rest : List ℕ)
    → IsForbidden w.fragmented_op_code fin opcode
    → HasFrame w fin opcode key payload rest
    → Holds w.decode_buf old
    → opcode < 16
    → IsReady w
    → (w' : WebSocketConnection) × (decode_step app w ≡ ok (w', false)) × Refused w w'
forbidden-Refused app w fin opcode old key payload rest bad f d o r =
    let (v, e, a) = frame_step app w fin opcode old key payload rest f d o in
    let (q, same) = still_ready w v r a.out a.conn in
    let (c, out, g, i, _, s, _, _, p) = close_lem v protocol_error q.sound q.able q.clean.valid in
    (
      record v { conn = c; output_buf = out; status = closing },
      e
          ∙ dispatch_forbidden app v fin opcode (length old)
              (subst (λ n. IsForbidden n fin opcode) (sym a.fragmented) bad) a.code a.final
          ∙ ap (λ t. t >>= λ u. ok (u, false)) g,
      record {
        told = s ∙ ap (λ t. t ++ close_frame_bytes protocol_error) same;
        status = refl;
        paused = p;
        events = a.events;
        sound = i;
      },
    )

dispatch-close :
    (app : Callbacks) (w : WebSocketConnection) (origin : ℕ)
    → w.opcode ≡ 8
    → w.status ≡ connect
    → dispatch app w origin ≡ (
        close w normal_close >>= λ u.
        TcpConnection.close u.conn >>= λ c. ok (record u { conn = c; status = closed }, true))
unfolding dispatch
dispatch-close app w origin o s = ground arith

-- A connection after a close frame: it has answered, and closes once its last write is done.
pub record Closed (w : WebSocketConnection) (rest : List ℕ) (w' : WebSocketConnection)
    : Type 0 where
  pub answered : stream w'.conn ≡ stream w.conn ++ close_frame_bytes normal_close
  pub status : w'.status ≡ closed
  pub state : w'.conn.state ≡ disconnecting
  pub events : w'.events ≡ w.events
  pub left : Holds w'.conn.buf rest
  pub read : w'.header_read ≡ true
  pub kind : w'.opcode ≡ 8

close-last :
    (w : WebSocketConnection) (code : StatusCode)
    → Ends (λ v. v.conn.is_last_write ≡ w.conn.is_last_write) (close w code)
unfolding close stop_read
close-last w code =
    let cleared =
      if ltb 0 (readable_bytes w.output_buf) then clear w.output_buf else w.output_buf in
    let out = put_uint16 (put_byte (put_byte cleared 0x88) 0x02) (code_of code) in
    let c = if is_failure code then stop_read w.conn else w.conn in
    Ends-bind (λ (d : TcpConnection). d.is_last_write ≡ c.is_last_write)
      (λ (v : WebSocketConnection). v.conn.is_last_write ≡ w.conn.is_last_write)
      (send c (peek out 4)) _ (send-last c (peek out 4))
      λ d e. e ∙ paused-last w.conn (is_failure code)
  where
    paused-last :
        (c : TcpConnection) (test : Bool)
        → (if test then stop_read c else c).is_last_write ≡ c.is_last_write
    paused-last c true = refl
    paused-last c false = refl

pub close_arrives :
    (app : Callbacks) (w : WebSocketConnection) (fin : Bool) (old key payload rest : List ℕ)
    → HasFrame w fin 8 key payload rest
    → Holds w.decode_buf old
    → IsReady w
    → w.status ≡ connect
    → (w' : WebSocketConnection) × (decode_step app w ≡ ok (w', true))
      × Closed w rest w'
      × Holds w'.decode_buf (old ++ payload)
      × (w'.payload_length ≡ length payload)
      × (w.conn.is_last_write ≡ false → ClosesWritten w'.conn)
close_arrives app w fin old key payload rest f d r s =
    let (v, e, a) = frame_step app w fin 8 old key payload rest f d (omega arith) in
    let (q, same) = still_ready w v r a.out a.conn in
    let (c, out, g, j, b, h, _, u, _) = close_lem v normal_close q.sound q.able q.clean.valid in
    (
      record v { conn = record c { state = disconnecting }; output_buf = out; status = closed },
      e
          ∙ dispatch-close app v (length old) a.code (a.status ∙ s)
          ∙ ap
              (λ t. t >>= λ u. TcpConnection.close u.conn >>= λ c.
                ok (record u { conn = c; status = closed }, true))
              g
          ∙ ap (λ t. t >>= λ c. ok (record v { conn = c; output_buf = out; status = closed }, true))
              (handle_close_writting c b),
      record {
        answered = h ∙ ap (λ t. t ++ close_frame_bytes normal_close) same;
        status = refl;
        state = refl;
        events = a.events;
        left = subst (λ t. Holds t rest) (sym u) a.left;
        read = a.read;
        kind = a.code;
      },
      a.kept,
      a.size,
      λ last. closes_written c j b (
          Ends-eq (λ (u : WebSocketConnection). u.conn.is_last_write ≡ v.conn.is_last_write)
            (close-last v normal_close) g
          ∙ ap (λ (t : TcpConnection). t.is_last_write) a.conn
          ∙ last),
    )

-- A close frame that arrives whole, with any payload, at an open connection that may send with nothing
-- in `outputBuf_`, is answered with a close frame of code 1000, taken for sending behind all that was
-- before, and the status is CLOSED. If the TCP connection is not at its last write, at most two
-- completions of a write without failure hand over all that was taken and close it.
pub close_frame_closes :
    (app : Callbacks) (w : WebSocketConnection) (fin : Bool) (old key payload rest : List ℕ)
    → HasFrame w fin 8 key payload rest
    → Holds w.decode_buf old
    → IsReady w
    → w.status ≡ connect
    → w.conn.is_last_write ≡ false
    → (w' : WebSocketConnection) × (decode_step app w ≡ ok (w', true))
      × Closed w rest w'
      × ClosesWritten w'.conn
close_frame_closes app w fin old key payload rest f d r s last =
    let (w', e, c, _, _, closes) = close_arrives app w fin old key payload rest f d r s in
    (w', e, c, closes last)
