-- ===== src/WebSocketConnection/Outgoing.antt =====
-- src/WebSocketConnection.cpp, `writeHeader` to `close`: the frames that a connection sends.
use mathlib.Core.List.{append-nil}
use mathlib.Core.Path.{ap₂}
use websocket_engine.Base.{
  ℕ, ◌+◌, ◌^◌, ◌<◌, bit_and, bit_or, ◌≡◌, refl, sym, ap, ◌∙◌, ◌⊎◌, inl, inr, Bool, true, false,
  List, [], ◌∷◌, ◌++◌, arith, ltb, if◌then◌else◌, Bool-cases, length, Outcome, ok, lt→ltb,
  lt→leb_false,
}
use websocket_engine.Buffer.{
  Buffer, readable_bytes, contents, peek, empty, network, write, clear, put_byte, put_uint16,
}
use websocket_engine.Buffer.Space.{IsValid}
use websocket_engine.Buffer.Queue.{Holds, readable-Holds, advance, retrieve_ok}
use websocket_engine.Buffer.Trim.{clear-Holds}
use websocket_engine.TcpConnection
use websocket_engine.TcpConnection.{TcpConnection, connected, writting, stop_read, write_to_uv}
use websocket_engine.TcpConnection.State.{send_buffer_lem, send_message_idle}
use websocket_engine.TcpConnection.Stream.{
  stream, Inv, send-Inv, send_message-Inv, nothing_left, advance_all,
}
use websocket_engine.WebSocketConnection.Types.{
  WebSocketConnection, StatusCode, normal_close, going_away, protocol_error, unexpect_payload,
  code_of, is_failure, closing,
}
use websocket_engine.WebSocketConnection.Send.{
  write_header, opcode_for, send_message_move, send_message_copy, close, control_frame, ping, pong,
}
use websocket_engine.WebSocketConnection.Layout.{
  append_byte, append_word, append_text, write_header_lem,
}
pub use websocket_engine.WebSocketConnection.Layout.{frame, length_field}

-- A connection that may send: sound, connected or writing, with nothing in `outputBuf_`.
pub record IsReady (w : WebSocketConnection) : Type 0 where
  pub sound : Inv w.conn
  pub able : (w.conn.state ≡ connected) ⊎ (w.conn.state ≡ writting)
  pub clean : Holds w.output_buf []

-- `w'` has sent `bytes` more than `w`, and has nothing in `outputBuf_`.
abbrev pub Sent : WebSocketConnection → List ℕ → WebSocketConnection → Type 0
Sent w bytes w' = (stream w'.conn ≡ stream w.conn ++ bytes) × Holds w'.output_buf []

text_opcode :
    (is_binary : Bool)
    → bit_and 0x8f (bit_or 0x80 (opcode_for is_binary)) ≡ 128 + opcode_for is_binary
text_opcode true = refl
text_opcode false = refl

-- A connection that may send hands the bytes on.
pub ready_send :
    (c : TcpConnection) (bytes : List ℕ)
    → Inv c
    → (c.state ≡ connected) ⊎ (c.state ≡ writting)
    → (c' : TcpConnection) × (TcpConnection.send c bytes ≡ ok c')
      × Inv c'
      × (stream c' ≡ stream c ++ bytes)
      × (c'.state ≡ writting)
      × (c'.buf ≡ c.buf)
      × (c'.reading ≡ c.reading)
ready_send c bytes v able = elim (send-Inv bytes v) [
  | inl (c', e, i, s, _, b, u, t) ↦ (c', e, i, s, b, u, t)
  | inr (_, p, q) ↦ elim able [ inl on ↦ absurd (p on) | inr busy ↦ absurd (q busy) ]
]

header_of :
    (w : WebSocketConnection) (text : List ℕ) (is_binary : Bool)
    → IsReady w
    → length text < 2 ^ 64
    → (out : Buffer) × (write_header w.output_buf (length text) (opcode_for is_binary) ≡ ok out)
      × Holds out ((128 + opcode_for is_binary) ∷ length_field (length text))
header_of w text is_binary r h =
    write_header_lem (length text) (opcode_for is_binary) r.clean h (text_opcode is_binary)
      (ground arith)

-- The copying `sendMessage`, on a connection that may send with nothing in `outputBuf_`, sends exactly
-- one whole frame, with the opcode for text or binary and all of the message, behind everything that
-- was sent before, and the connection may send on.
pub send_message_copy_lem :
    (w : WebSocketConnection) (text : List ℕ) (is_binary : Bool)
    → IsReady w
    → length text < 2 ^ 64
    → (w' : WebSocketConnection) × (send_message_copy w text is_binary ≡ ok w')
      × IsReady w'
      × Sent w (frame (opcode_for is_binary) text) w'
unfolding send_message_copy
send_message_copy_lem w text is_binary r h =
    let (out, e, k) = header_of w text is_binary r h in
    let whole = append_text text k in
    let (c, f, i, s, b, u, t) = ready_send w.conn (contents (write out text)) r.sound r.able in
    let left = advance_all whole.valid in
    (
      record w {
        conn = c;
        output_buf = advance (write out text) (readable_bytes (write out text));
      },
      rw (e, send_buffer_lem w.conn whole.valid f),
      record { sound = i; able = inr b; clean = left },
      (s ∙ ap (◌++◌ (stream w.conn)) whole.held, left),
    )

message_stream :
    (w : WebSocketConnection) {out : Buffer} {head : List ℕ}
    → Holds out head
    → (text : List ℕ) → IsReady w
    → (c : TcpConnection) × (TcpConnection.send_message w.conn out text
        ≡ ok (c, advance out (readable_bytes out)))
      × (stream c ≡ stream w.conn ++ (head ++ text))
unfolding write_to_uv
message_stream w {out} {head} k text r = elim r.able [
  | inl on ↦ (
    write_to_uv w.conn (contents out ++ text),
    send_message_idle w.conn text k.valid (ground arith),
    ap (λ t. (w.conn.written ++ (contents out ++ text)) ++ t)
          (nothing_left w.conn.output_buf (r.sound.quiet (inl on)))
        ∙ append-nil (w.conn.written ++ (contents out ++ text))
        ∙ ap (λ t. w.conn.written ++ (t ++ text)) k.held
        ∙ sym (
            ap (λ t. t ++ (head ++ text))
              (ap (◌++◌ w.conn.written) (nothing_left w.conn.output_buf (r.sound.quiet (inl on)))
                ∙ append-nil w.conn.written)),
  )
  | inr busy ↦
      let (c, e, _, s) = send_message-Inv text r.sound k.valid busy in
      (c, e, s ∙ ap (λ t. stream w.conn ++ (t ++ text)) k.held)
]

-- The moving `sendMessage`, which hands header and message over in two pieces, on a connection that may
-- send with nothing in `outputBuf_`, and for a message of less than 2^64 bytes, sends exactly one whole
-- frame with the opcode for text or binary and all of the message, behind everything that was sent
-- before, and leaves nothing in `outputBuf_`.
pub send_message_move_lem :
    (w : WebSocketConnection) (text : List ℕ) (is_binary : Bool)
    → IsReady w
    → length text < 2 ^ 64
    → (w' : WebSocketConnection) × (send_message_move w text is_binary ≡ ok w')
      × Sent w (frame (opcode_for is_binary) text) w'
unfolding send_message_move
send_message_move_lem w text is_binary r h =
    let (out, e, k) = header_of w text is_binary r h in
    let (c, f, s) = message_stream w k text r in
    (
      record w { conn = c; output_buf = advance out (readable_bytes out) },
      rw (nothing, e, f),
      (s, advance_all k.valid),
    )
  where
    nothing : empty w.output_buf ≡ true
    nothing = ground (arith, readable-Holds r.clean)

short_field : (n : ℕ) → n < 126 → n ∷ [] ≡ length_field n
short_field n h = rw (lt→ltb n 126 h)

-- `w` sends one whole frame, and nothing else of it changes.
abbrev pub SendsFrame : WebSocketConnection → ℕ → List ℕ → Outcome WebSocketConnection → Type 0
SendsFrame w opcode text o =
    (c : TcpConnection) × (out : Buffer) × (o ≡ ok (record w { conn = c; output_buf = out }))
    × IsReady (record w { conn = c; output_buf = out })
    × Sent w (frame opcode text) (record w { conn = c; output_buf = out })
    × (c.buf ≡ w.conn.buf)

-- A ping or pong with less than 126 bytes is one whole frame; its opcode is 9 for a ping, 10 for a pong.
control_frame_lem :
    (w : WebSocketConnection) (mask opcode : ℕ) (text : List ℕ)
    → IsReady w
    → length text < 126
    → opcode < 16
    → bit_and (bit_and 0xff 0x8f) mask ≡ 128 + opcode
    → SendsFrame w opcode text (control_frame w mask text)
unfolding control_frame
control_frame_lem w mask opcode text r h o m =
    let out = write (put_byte (put_byte w.output_buf (128 + opcode)) (length text)) text in
    let whole = append_text text (
      append_byte (length text) (append_byte (128 + opcode) r.clean (omega arith)) (omega arith)) in
    let (c, f, i, s, b, u, t) = ready_send w.conn (contents out) r.sound r.able in
    let left = advance_all whole.valid in
    (
      c,
      advance out (readable_bytes out),
      rw (
        lt→leb_false 126 (length text) h,
        m,
        f,
        retrieve_ok (readable_bytes out) whole.valid (omega arith),
      ),
      record { sound = i; able = inr b; clean = left },
      (
        s
            ∙ ap (◌++◌ (stream w.conn))
                (whole.held ∙ ap (λ t. (128 + opcode) ∷ t ++ text) (short_field (length text) h)),
        left,
      ),
      u,
    )

-- `ping`, with less than 126 bytes, on a connection that may send with nothing in `outputBuf_`, sends
-- one whole frame with opcode 9 and the payload, behind all that was sent before. The connection may
-- send on, and nothing else of it changes.
pub ping_lem :
    (w : WebSocketConnection) (text : List ℕ)
    → IsReady w
    → length text < 126
    → SendsFrame w 9 text (ping w text)
unfolding ping
ping_lem w text r h = control_frame_lem w 0xf9 9 text r h (omega arith) refl

-- `pong`, with less than 126 bytes, on a connection that may send with nothing in `outputBuf_`,
-- sends one whole frame with opcode 10 and the payload, behind all that was sent before. The
-- connection may send on, and nothing else of it changes.
pub pong_lem :
    (w : WebSocketConnection) (text : List ℕ)
    → IsReady w
    → length text < 126
    → SendsFrame w 10 text (pong w text)
unfolding pong
pong_lem w text r h = control_frame_lem w 0xfa 10 text r h (omega arith) refl

-- A close frame: two bytes of payload, the status code.
abbrev pub close_frame_bytes : StatusCode → List ℕ
close_frame_bytes code = 0x88 ∷ 0x02 ∷ network 2 (code_of code)

abbrev cleared : Buffer → Buffer
cleared b = if ltb 0 (readable_bytes b) then clear b else b

cleared-Holds : {b : Buffer} → IsValid b → Holds (cleared b) []
cleared-Holds {b} v = elim (Bool-cases (ltb 0 (readable_bytes b))) [
  | inl some_left ↦ rw some_left (clear-Holds b).0
  | inr none_left ↦ rw none_left (record { valid = v; held = nothing_left b (ground arith) })
]

code_small : (code : StatusCode) → code_of code < 2 ^ 16
code_small normal_close = omega arith
code_small going_away = omega arith
code_small protocol_error = omega arith
code_small unexpect_payload = omega arith

-- `w` sends a close frame and is CLOSING; nothing else of it changes but for what it sends from, and
-- whether it is read.
abbrev pub SendsClose : WebSocketConnection → StatusCode → Outcome WebSocketConnection → Type 0
SendsClose w code o =
    (c : TcpConnection) × (out : Buffer) × (o
      ≡ ok (record w { conn = c; output_buf = out; status = closing }))
    × Inv c
    × (c.state ≡ writting)
    × (stream c ≡ stream w.conn ++ close_frame_bytes code)
    × Holds out (close_frame_bytes code)
    × (c.buf ≡ w.conn.buf)
    × (c.reading ≡ (if is_failure code then false else w.conn.reading))

abbrev pause : TcpConnection → Bool → TcpConnection
pause c stop = if stop then stop_read c else c

paused :
    (c : TcpConnection) (stop : Bool)
    → Inv c
    → (c.state ≡ connected) ⊎ (c.state ≡ writting)
    → Inv (pause c stop)
      × (stream (pause c stop) ≡ stream c)
      × (((pause c stop).state ≡ connected) ⊎ ((pause c stop).state ≡ writting))
      × ((pause c stop).buf ≡ c.buf)
      × ((pause c stop).reading ≡ (if stop then false else c.reading))
unfolding stop_read
paused c true v able = (ground (arith, v), refl, able, refl, refl)
paused c false v able = (v, refl, able, refl, refl)

-- `close`, on a TCP connection that may send, drops what `outputBuf_` held and sends a close frame
-- with the code. The status is CLOSING; after a code other than 1000 nothing more is read. The
-- frame's four bytes stay in `outputBuf_`.
pub close_lem :
    (w : WebSocketConnection) (code : StatusCode)
    → Inv w.conn
    → (w.conn.state ≡ connected) ⊎ (w.conn.state ≡ writting)
    → IsValid w.output_buf
    → SendsClose w code (close w code)
unfolding close
close_lem w code v able o =
    let out = put_uint16 (put_byte (put_byte (cleared w.output_buf) 0x88) 0x02) (code_of code) in
    let k =
      append_word (code_of code)
        (append_byte 0x02 (append_byte 0x88 (cleared-Holds o) (omega arith)) (omega arith))
        (code_small code) in
    let (p, q, a, m, n) = paused w.conn (is_failure code) v able in
    let (c, f, i, s, b, u, t) = ready_send (pause w.conn (is_failure code)) (peek out 4) p a in
    (
      c,
      out,
      rw f,
      i,
      b,
      s ∙ ap₂ ◌++◌ q (ap (peek out) (sym (readable-Holds k)) ∙ k.held),
      k,
      u ∙ m,
      t ∙ n,
    )
