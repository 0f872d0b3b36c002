-- ===== src/WebSocketConnection/Progress/Switch.antt =====
-- How much of the input a frame takes: src/WebSocketConnection.cpp, the second part of `decode`.

use websocket_engine.Base.{
  ℕ, ◌+◌, ◌<◌, ◌≤◌, ◌≡◌, refl, ap, ◌∙◌, Bool, true, false, List, Option, none, some, arith, ltb, ok,
  Lands, Lands-bind, Lands-if, inl, inr, not, ◌==◌, ◌||◌, ==_iff, if◌then◌else◌, ◌⊎◌,
}
use websocket_engine.Buffer.{Buffer, readable_bytes, retrieve, read_string, unwrite, write_from}
use websocket_engine.TcpConnection
use websocket_engine.WebSocketConnection.Types.{
  WebSocketConnection, Callbacks, MessageCallback, PingCallback, Event, protocol_error,
  normal_close, is_connect, set_input, clear_decode_status, pinged, ponged,
}
use websocket_engine.WebSocketConnection.Send.{close, pong}
use websocket_engine.WebSocketConnection.Decode.{
  HeaderEnd, parsed, short, refused, Handled, refuse, deliver, continuation, message_frame,
  close_frame, drop_payload, control_payload, notify_with, ping_frame, pong_frame, dispatch,
  unmask_buf, read_payload, read_header, decode_step,
}
use websocket_engine.WebSocketConnection.Progress.{
  Leaves, Ignored, retrieve-Leaves, read_string-Lands, write_from-Leaves, unwrite-Lands, SameBuf,
  handle_close-SameBuf, SameInput, close-SameInput, pong-SameInput,
}
use websocket_engine.WebSocketConnection.Progress.Reading.{Shorter, read_header-Shorter}

-- A callback that returns or aborts, and that leaves what has arrived to `decode`.
abbrev pub SameRest : WebSocketConnection → WebSocketConnection → Type 0
SameRest w w' = w'.conn.buf ≡ w.conn.buf

abbrev pub IsCourteous : Option PingCallback → Type 0
IsCourteous none = Unit
IsCourteous (some call) =
    (text : List ℕ) (w : WebSocketConnection) → Lands (SameRest w) (call text w)

abbrev pub HeedsMessage : Option MessageCallback → Type 0
HeedsMessage none = Unit
HeedsMessage (some call) =
    (text : List ℕ) (is_binary : Bool) (w : WebSocketConnection)
    → Lands (SameRest w) (call text is_binary w)

pub record IsPolite (app : Callbacks) : Type 0 where
  pub message : HeedsMessage app.on_message
  pub ping : IsCourteous app.on_ping
  pub pong : IsCourteous app.on_pong

-- The next header is to be read; or the frame is a close frame, and the connection is not open.
abbrev pub Settled : WebSocketConnection → Type 0
Settled w = (w.header_read ≡ false) ⊎ ((w.opcode ≡ 8) × (is_connect w.status ≡ false))

-- What goes on has less than `n` bytes to read.
abbrev pub Goes : ℕ → Handled → Type 0
Goes n (w, true) = (readable_bytes w.conn.buf < n) × Settled w
Goes n (w, false) = Unit

still_less : {n : ℕ} {b b' : Buffer} → b' ≡ b → readable_bytes b < n → readable_bytes b' < n
still_less e h = omega (arith, h, ap (λ b. readable_bytes b) e)

deliver-SameRest :
    (app : Callbacks) (o : Option MessageCallback) (w : WebSocketConnection)
    (wanted is_binary : Bool)
    → HeedsMessage o
    → Lands (SameRest w) (deliver (record app { on_message = o }) w wanted is_binary)
unfolding deliver
deliver-SameRest app none w wanted is_binary k =
    Lands-bind (Leaves w.decode_buf (readable_bytes w.decode_buf)) (SameRest w)
      (retrieve w.decode_buf (readable_bytes w.decode_buf)) _
      (retrieve-Leaves w.decode_buf (readable_bytes w.decode_buf)) λ b e. refl
deliver-SameRest app (some call) w wanted is_binary k =
    Lands-if (SameRest w) wanted _ _
      (λ t.
        Lands-bind (Ignored (List ℕ × Buffer)) (SameRest w) (read_string w.decode_buf) _
          (read_string-Lands w.decode_buf) λ out i. k out.0 is_binary _)
      λ t. refl

notify_with-SameRest :
    (o : Option PingCallback) (e : List ℕ → Event) (text : List ℕ) (w : WebSocketConnection)
    → IsCourteous o
    → Lands (SameRest w) (notify_with o e text w)
notify_with-SameRest none e text w k = refl
notify_with-SameRest (some call) e text w k = k text _

refuse-Goes : (n : ℕ) (w : WebSocketConnection) → Lands (Goes n) (refuse w)
unfolding refuse
refuse-Goes n w =
    Lands-bind (SameInput w) (Goes n) (close w protocol_error) _ (close-SameInput w protocol_error)
      λ v i. tt

module _ (app : Callbacks) (polite : IsPolite app) (n : ℕ) where
  continuation-Goes :
      (w : WebSocketConnection)
      → readable_bytes w.conn.buf < n
      → Lands (Goes n) (continuation app w)
  unfolding continuation clear_decode_status
  continuation-Goes w h =
      Lands-if (Goes n) (w.fragmented_op_code == 0) _ _ (λ z. refuse-Goes n w)
        λ z.
          Lands-if (Goes n) w.is_fin _ _
            (λ f.
              Lands-bind (SameRest w) (Goes n)
                (deliver app w (w.fragmented_op_code == 1 || w.fragmented_op_code == 2)
                  (w.fragmented_op_code == 2))
                _
                (deliver-SameRest app app.on_message w
                  (w.fragmented_op_code == 1 || w.fragmented_op_code == 2)
                  (w.fragmented_op_code == 2) polite.message)
                λ v e. (still_less e h, inl refl))
            λ f. (h, inl refl)

  message_frame-Goes :
      (w : WebSocketConnection)
      → readable_bytes w.conn.buf < n
      → Lands (Goes n) (message_frame app w)
  unfolding message_frame clear_decode_status
  message_frame-Goes w h =
      Lands-if (Goes n) (not (w.fragmented_op_code == 0)) _ _ (λ z. refuse-Goes n w)
        λ z.
          Lands-if (Goes n) w.is_fin _ _
            (λ f.
              Lands-bind (SameRest w) (Goes n) (deliver app w true (w.opcode == 2)) _
                (deliver-SameRest app app.on_message w true (w.opcode == 2) polite.message)
                λ v e. (still_less e h, inl refl))
            λ f. (h, inl refl)

  close_frame-Goes :
      (w : WebSocketConnection)
      → w.opcode ≡ 8
      → readable_bytes w.conn.buf < n
      → Lands (Goes n) (close_frame w)
  unfolding close_frame
  close_frame-Goes w o h =
      Lands-if (Goes n) (is_connect w.status) _ _
        (λ s.
          Lands-bind (SameInput w) (Goes n) (close w normal_close) _
            (close-SameInput w normal_close)
            λ v i.
              Lands-bind (SameBuf v.conn) (Goes n) (TcpConnection.close v.conn) _
                (handle_close-SameBuf v.conn)
                λ c e. (still_less (e ∙ i.buf) h, inr (i.opcode ∙ o, refl)))
        λ s. (h, inr (o, s))

  drop_payload-Goes :
      (w : WebSocketConnection) (origin : ℕ)
      → readable_bytes w.conn.buf < n
      → Lands (Goes n) (drop_payload w origin)
  unfolding drop_payload clear_decode_status
  drop_payload-Goes w origin h =
      Lands-bind (Ignored Buffer) (Goes n)
        (if not (origin == 0) then unwrite w.decode_buf w.payload_length else ok w.decode_buf) _
        (Lands-if (Ignored Buffer) (not (origin == 0)) _ _
          (λ z. unwrite-Lands w.decode_buf w.payload_length) λ z. tt)
        λ b i. (h, inl refl)

  ping_frame-Goes :
      (w : WebSocketConnection) (origin : ℕ)
      → readable_bytes w.conn.buf < n
      → Lands (Goes n) (ping_frame app w origin)
  unfolding ping_frame
  ping_frame-Goes w origin h =
      Lands-if (Goes n) (not w.is_fin) _ _ (λ f. refuse-Goes n w)
        λ f.
          Lands-bind (SameRest w) (Goes n)
            (notify_with app.on_ping pinged (control_payload w origin) w) _
            (notify_with-SameRest app.on_ping pinged (control_payload w origin) w polite.ping)
            λ v e.
              Lands-bind (SameInput v) (Goes n) (pong v (control_payload v origin)) _
                (pong-SameInput v (control_payload v origin))
                λ u i. drop_payload-Goes u origin (still_less (i.buf ∙ e) h)

  pong_frame-Goes :
      (w : WebSocketConnection) (origin : ℕ)
      → readable_bytes w.conn.buf < n
      → Lands (Goes n) (pong_frame app w origin)
  unfolding pong_frame
  pong_frame-Goes w origin h =
      Lands-if (Goes n) (not w.is_fin) _ _ (λ f. refuse-Goes n w)
        λ f.
          Lands-bind (SameRest w) (Goes n)
            (notify_with app.on_pong ponged (control_payload w origin) w) _
            (notify_with-SameRest app.on_pong ponged (control_payload w origin) w polite.pong)
            λ v e. drop_payload-Goes v origin (still_less e h)

  dispatch-Goes :
      (w : WebSocketConnection) (origin : ℕ)
      → readable_bytes w.conn.buf < n
      → Lands (Goes n) (dispatch app w origin)
  unfolding dispatch
  dispatch-Goes w origin h =
      Lands-if (Goes n) (w.opcode == 0) _ _ (λ a. continuation-Goes w h)
        λ a.
          Lands-if (Goes n) (w.opcode == 1 || w.opcode == 2) _ _ (λ b. message_frame-Goes w h)
            λ b.
              Lands-if (Goes n) (w.opcode == 8) _ _
                (λ c. close_frame-Goes w ((==_iff w.opcode 8).0 c) h)
                λ c.
                  Lands-if (Goes n) (w.opcode == 9) _ _ (λ d. ping_frame-Goes w origin h)
                    λ d.
                      Lands-if (Goes n) (w.opcode == 10) _ _ (λ f. pong_frame-Goes w origin h)
                        λ f. refuse-Goes n w

  -- The payload of a frame whose header is read
  read_payload-Goes :
      (w : WebSocketConnection)
      → readable_bytes w.conn.buf < n + w.payload_length
      → Lands (Goes n) (read_payload app w)
  unfolding read_payload
  read_payload-Goes w h =
      Lands-if (Goes n) (ltb (readable_bytes w.conn.buf) w.payload_length) _ _ (λ s. tt)
        λ s.
          Lands-bind (λ (out : Buffer × Buffer). Leaves w.conn.buf w.payload_length out.1) (Goes n)
            (write_from w.decode_buf w.conn.buf w.payload_length) _
            (write_from-Leaves w.decode_buf w.conn.buf w.payload_length)
            λ out k.
              let filled =
                if w.masked
                then unmask_buf out.0 w.mask_key (readable_bytes w.decode_buf)
                else out.0 in
              dispatch-Goes (set_input (record w { header_read = true; decode_buf = filled }) out.1)
                (readable_bytes w.decode_buf) (omega (arith, h, k))

  after_header :
      (w : WebSocketConnection) (end : HeaderEnd)
      → Shorter n (w, end)
      → Lands (Goes n) (elim end [
        | parsed ↦ read_payload app w
        | short ↦ ok (w, false)
        | refused ↦ ok (w, false)
      ])
  after_header w parsed k = read_payload-Goes w (omega (arith, k))
  after_header w short k = tt
  after_header w refused k = tt

-- One run of the body of `decode`: it returns or aborts, and if it goes on, then with less than `n` bytes
-- to read, and with the next header or after a close frame.
pub decode_step-Goes :
    (app : Callbacks) (w : WebSocketConnection) (n : ℕ)
    → IsPolite app
    → readable_bytes w.conn.buf ≤ n
    → (w.header_read ≡ true → readable_bytes w.conn.buf < n + w.payload_length)
    → Lands (Goes n) (decode_step app w)
unfolding decode_step
decode_step-Goes app w n polite le h =
    let here = readable_bytes w.conn.buf in
    Lands-if (Goes n) w.header_read _ _ (λ r. read_payload-Goes app polite n w (h r))
      λ r.
        Lands-bind (Shorter here) (Goes n) (read_header w) _ (read_header-Shorter w)
          λ out k. after_header app polite n out.0 out.1 (longer n out.0 out.1 le k)
  where
    longer :
        {m : ℕ} (n : ℕ) (v : WebSocketConnection) (end : HeaderEnd)
        → m ≤ n
        → Shorter m (v, end)
        → Shorter n (v, end)
    longer n v parsed le k = omega (arith, le, k)
    longer n v short le k = tt
    longer n v refused le k = tt
