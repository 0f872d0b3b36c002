-- ===== src/WebSocketConnection/Control.antt =====
-- Control frames: src/WebSocketConnection.cpp, the cases 8 to 10 of `decode`, for frames that arrive
-- whole.

use mathlib.Core.Path.{subst, ap₂}
use websocket_engine.Base.{
  ℕ, ◌<◌, ◌≡◌, refl, sym, ap, ◌∙◌, ◌⊎◌, true, false, List, [], ◌∷◌, ◌++◌, Option, arith, length,
  take, drop, Outcome, ok, ◌>>=◌, length-append, drop-length-append, take_all, take-length-append,
}
use websocket_engine.Buffer.{Buffer}
use websocket_engine.Buffer.Queue.{Holds, readable-Holds, cut, unwrite_ok, cut-Holds}
use websocket_engine.TcpConnection.{TcpConnection, connected, writting}
use websocket_engine.TcpConnection.Stream.{Inv, stream}
use websocket_engine.WebSocketConnection.Types.{
  WebSocketConnection, Callbacks, Event, pinged, ponged, clear_decode_status,
}
use websocket_engine.WebSocketConnection.Send.{pong}
use websocket_engine.WebSocketConnection.Decode.{
  Handled, dispatch, decode_step, notify_with, control_payload, drop_payload,
}
use websocket_engine.WebSocketConnection.Outgoing.{IsReady, frame, pong_lem}
use websocket_engine.WebSocketConnection.Messages.{HasFrame, frame_step}

-- The payload of a control frame is what stands behind the bytes gathered before it.
control_payload_lem :
    (w : WebSocketConnection) (old payload : List ℕ)
    → Holds w.decode_buf (old ++ payload)
    → w.payload_length ≡ length payload
    → control_payload w (length old) ≡ payload
control_payload_lem w old payload k s =
    ap₂ (λ n t. take n (drop (length old) t)) s k.held
    ∙ ap (take (length payload)) (drop-length-append old payload)
    ∙ take_all (length payload) payload (omega arith)

drop_payload_lem :
    (w : WebSocketConnection) (old payload : List ℕ)
    → Holds w.decode_buf (old ++ payload)
    → w.payload_length ≡ length payload
    → 0 < length old
    → drop_payload w (length old)
      ≡ ok (clear_decode_status (record w { decode_buf = cut w.decode_buf w.payload_length }), true)
unfolding drop_payload
drop_payload_lem w old payload k s h = ground (arith, unwrite_ok w.payload_length k.valid)

drop_payload_none : (w : WebSocketConnection) → drop_payload w 0 ≡ ok (clear_decode_status w, true)
unfolding drop_payload
drop_payload_none w = refl

cut_last :
    {b : Buffer} (old payload : List ℕ) (n : ℕ)
    → Holds b (old ++ payload)
    → n ≡ length payload
    → Holds (cut b n) old
cut_last {b} old payload n k s =
    let h = cut-Holds n k.valid in
    record {
      valid = h.valid;
      held =
          h.held
          ∙ ap₂ take (omega (arith, readable-Holds k, length-append old payload)) k.held
          ∙ take-length-append old payload;
    }

-- What `decodeBuf_` holds once a control frame is handled.
abbrev pub left_over : List ℕ → List ℕ → List ℕ
left_over [] payload = payload
left_over (x ∷ old) payload = x ∷ old

drop_payload_any :
    (w : WebSocketConnection) (old payload : List ℕ)
    → Holds w.decode_buf (old ++ payload)
    → w.payload_length ≡ length payload
    → (b : Buffer) × (drop_payload w (length old)
        ≡ ok (clear_decode_status (record w { decode_buf = b }), true))
      × Holds b (left_over old payload)
drop_payload_any w [] payload k s = (w.decode_buf, drop_payload_none w, k)
drop_payload_any w (x ∷ old) payload k s = (
  cut w.decode_buf w.payload_length,
  drop_payload_lem w (x ∷ old) payload k s (omega arith),
  cut_last (x ∷ old) payload w.payload_length k s,
)

-- A callback of the application, if there is one, that leaves every connection as it is; its call is
-- noted as `notes` says.
abbrev pub ReturnsNoting :
    (List ℕ → Event)
    → (List ℕ → List Event)
    → Option (List ℕ → WebSocketConnection → Outcome WebSocketConnection)
    → Type 0
ReturnsNoting e notes call =
    (text : List ℕ) (w : WebSocketConnection)
    → notify_with call e text w ≡ ok (record w { events = w.events ++ notes text })

-- `case 0x09` once the application's callback has returned.
abbrev answer : ℕ → WebSocketConnection → Outcome Handled
answer origin w = pong w (control_payload w origin) >>= λ w'. drop_payload w' origin

to_ping :
    (app : Callbacks) (w : WebSocketConnection) (origin : ℕ)
    → w.opcode ≡ 9
    → w.is_fin ≡ true
    → dispatch app w origin
      ≡ (notify_with app.on_ping pinged (control_payload w origin) w >>= answer origin)
unfolding dispatch
to_ping app w origin o f = rw (o, f)

to_pong :
    (app : Callbacks) (w : WebSocketConnection) (origin : ℕ)
    → w.opcode ≡ 10
    → w.is_fin ≡ true
    → dispatch app w origin ≡ (
        notify_with app.on_pong ponged (control_payload w origin) w >>= λ w'.
        drop_payload w' origin)
unfolding dispatch
to_pong app w origin o f = rw (o, f)

ping_dispatch :
    (app : Callbacks) {notes : List ℕ → List Event} (w : WebSocketConnection) (old payload : List ℕ)
    → ReturnsNoting pinged notes app.on_ping
    → w.opcode ≡ 9
    → w.is_fin ≡ true
    → Holds w.decode_buf (old ++ payload)
    → w.payload_length ≡ length payload
    → {w2 : WebSocketConnection}
    → pong (record w { events = w.events ++ notes payload }) payload ≡ ok w2
    → dispatch app w (length old) ≡ drop_payload w2 (length old)
ping_dispatch app {notes} w old payload polite o f k s {w2} e =
    to_ping app w (length old) o f
    ∙ ap (λ t. notify_with app.on_ping pinged t w >>= answer (length old))
        (control_payload_lem w old payload k s)
    ∙ ap (λ t. t >>= answer (length old)) (polite payload w)
    ∙ ap (λ t. pong noted t >>= λ w'. drop_payload w' (length old))
        (control_payload_lem noted old payload k s)
    ∙ ap (λ t. t >>= λ w'. drop_payload w' (length old)) e
  where
    noted : WebSocketConnection
    noted = record w { events = w.events ++ notes payload }

-- `w'` is `w` after a control frame: ready to read the next header, with `kept` in `decodeBuf_`.
pub record Handles (w : WebSocketConnection) (notes : List Event) (held rest : List ℕ)
    (w' : WebSocketConnection) : Type 0 where
  pub noted : w'.events ≡ w.events ++ notes
  pub kept : Holds w'.decode_buf held
  pub left : Holds w'.conn.buf rest
  pub capacity : length w'.conn.buf.buf ≡ length w.conn.buf.buf
  pub fresh : w'.header_read ≡ false
  pub status : w'.status ≡ w.status
  pub fragmented : w'.fragmented_op_code ≡ w.fragmented_op_code

Inv-input : {c : TcpConnection} {b : Buffer} → Inv (record c { buf = b }) → Inv c
Inv-input v = record {
  output = v.output;
  busy = v.busy;
  idle = v.idle;
  gone = v.gone;
  quiet = v.quiet;
  first = v.first;
  untold = v.untold;
  told = v.told;
}

-- A connection may still send when only its input has changed.
pub still_ready :
    (w v : WebSocketConnection)
    → IsReady w
    → v.output_buf ≡ w.output_buf
    → record v.conn { buf = w.conn.buf } ≡ w.conn
    → IsReady v × (stream v.conn ≡ stream w.conn)
still_ready w v r out conn = (
  record {
    sound = Inv-input (subst Inv (sym conn) r.sound);
    able =
        subst (λ (c : TcpConnection). (c.state ≡ connected) ⊎ (c.state ≡ writting)) (sym conn)
          r.able;
    clean = subst (λ t. Holds t []) (sym out) r.clean;
  },
  ap (λ t. stream t) conn,
)

-- A whole ping of less than 126 bytes, at a connection that may send with nothing in `outputBuf_`,
-- where the application's callback for pings, if any, leaves the connection as it is: it gets the
-- payload, a pong with the same payload is sent behind all that was sent before, and the kind of the
-- message under way and the status stay. The bytes gathered for the message stay too; if there are
-- none, the ping's payload stays in `decodeBuf_`.
pub ping_arrives :
    (app : Callbacks) {notes : List ℕ → List Event} (w : WebSocketConnection)
    (old key payload rest : List ℕ)
    → ReturnsNoting pinged notes app.on_ping
    → HasFrame w true 9 key payload rest
    → Holds w.decode_buf old
    → IsReady w
    → length payload < 126
    → (w' : WebSocketConnection) × (decode_step app w ≡ ok (w', true))
      × Handles w (notes payload) (left_over old payload) rest w'
      × IsReady w'
      × (stream w'.conn ≡ stream w.conn ++ frame 10 payload)
unfolding clear_decode_status
ping_arrives app {notes} w old key payload rest polite f d r h =
    let (v, e, a) = frame_step app w true 9 old key payload rest f d (omega arith) in
    let (ready, same) = still_ready w v r a.out a.conn in
    let noted : WebSocketConnection = record v { events = v.events ++ notes payload } in
    let (c, out, p, q, s, u) =
      pong_lem noted payload
        (record { sound = ready.sound; able = ready.able; clean = ready.clean }) h in
    let (b, g, k) =
      drop_payload_any (record noted { conn = c; output_buf = out }) old payload a.kept a.size in
    (
      clear_decode_status (record noted { conn = c; output_buf = out; decode_buf = b }),
      e ∙ ping_dispatch app v old payload polite a.code a.final a.kept a.size p ∙ g,
      record {
        noted = ap (λ t. t ++ notes payload) a.events;
        kept = k;
        left = subst (λ t. Holds t rest) (sym u) a.left;
        capacity = ap (λ b. length b.buf) u ∙ a.capacity;
        fresh = refl;
        status = a.status;
        fragmented = a.fragmented;
      },
      record { sound = q.sound; able = q.able; clean = q.clean },
      s.0 ∙ ap (λ t. t ++ frame 10 payload) same,
    )

pong_dispatch :
    (app : Callbacks) {notes : List ℕ → List Event} (w : WebSocketConnection) (old payload : List ℕ)
    → ReturnsNoting ponged notes app.on_pong
    → w.opcode ≡ 10
    → w.is_fin ≡ true
    → Holds w.decode_buf (old ++ payload)
    → w.payload_length ≡ length payload
    → dispatch app w (length old)
      ≡ drop_payload (record w { events = w.events ++ notes payload }) (length old)
pong_dispatch app w old payload polite o f k s =
    to_pong app w (length old) o f
    ∙ ap (λ t. notify_with app.on_pong ponged t w >>= λ w'. drop_payload w' (length old))
        (control_payload_lem w old payload k s)
    ∙ ap (λ t. t >>= λ w'. drop_payload w' (length old)) (polite payload w)

-- A whole pong, where the application's callback for pongs, if any, leaves the connection as it is: it
-- gets the payload, nothing is sent, and the kind of the message under way and the status stay. The
-- bytes gathered for the message stay too; if there are none, the pong's payload stays in `decodeBuf_`.
pub pong_arrives :
    (app : Callbacks) {notes : List ℕ → List Event} (w : WebSocketConnection)
    (old key payload rest : List ℕ)
    → ReturnsNoting ponged notes app.on_pong
    → HasFrame w true 10 key payload rest
    → Holds w.decode_buf old
    → (w' : WebSocketConnection) × (decode_step app w ≡ ok (w', true))
      × Handles w (notes payload) (left_over old payload) rest w'
      × (w'.output_buf ≡ w.output_buf)
      × (record w'.conn { buf = w.conn.buf } ≡ w.conn)
unfolding clear_decode_status
pong_arrives app {notes} w old key payload rest polite f d =
    let (v, e, a) = frame_step app w true 10 old key payload rest f d (omega arith) in
    let noted : WebSocketConnection = record v { events = v.events ++ notes payload } in
    let (b, g, k) = drop_payload_any noted old payload a.kept a.size in
    (
      clear_decode_status (record noted { decode_buf = b }),
      e ∙ pong_dispatch app v old payload polite a.code a.final a.kept a.size ∙ g,
      record {
        noted = ap (λ t. t ++ notes payload) a.events;
        kept = k;
        left = a.left;
        capacity = a.capacity;
        fresh = refl;
        status = a.status;
        fragmented = a.fragmented;
      },
      a.out,
      a.conn,
    )
