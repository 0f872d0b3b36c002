-- ===== src/WebSocketConnection/Progress.antt =====
-- How much of the input each part of `decode` takes: src/WebSocketConnection.cpp.
pub mod Reading
pub mod Switch
use websocket_engine.Base.{
  ℕ, ◌+◌, ◌^◌, ◌<◌, ◌≡◌, refl, sym, ap, ◌∙◌, Bool, true, false, List, Option, none, some, arith,
  ltb, if◌then◌else◌, leb, length, Outcome, ok, Lands, Lands-bind, Lands-if, Lands-assert, inl, inr,
  bit_and, ◌==◌, not, ◌&&◌, ◌||◌, ◌%◌, ◌-◌,
}
use websocket_engine.Base.Int.{ℤ, pos, negsuc}
use websocket_engine.Buffer.{
  Buffer, Width, size_of, readable_bytes, contents, peek, read, retrieve, read_string,
  read_typed_number, unread, unwrite, update_write_index, write_from, available, clear, put_byte,
  put_uint16, write_string,
}
use websocket_engine.TcpConnection
use websocket_engine.TcpConnection.{
  TcpConnection, stop_read, connecting, connected, writting, is_state, send, handle_close,
}
use websocket_engine.WebSocketConnection.Types.{
  WebSocketConnection, StatusCode, protocol_error, code_of, is_failure,
}
use websocket_engine.WebSocketConnection.Send.{close, pong}

-- What a call leaves to be read
abbrev pub Leaves : Buffer → ℕ → Buffer → Type 0
Leaves b len b' = readable_bytes b' + len ≡ readable_bytes b

abbrev pub Ignored {ℓ} : (A : Type ℓ) → A → Type 0
Ignored A a = Unit

pub retrieve-Leaves : (b : Buffer) (len : ℕ) → Lands (Leaves b len) (retrieve b len)
unfolding retrieve
retrieve-Leaves b len =
    Lands-assert (Leaves b len) (leb (b.read_index + len) b.write_index) _ λ h. ground arith

pub read-Leaves : (b : Buffer) (len : ℕ) → Lands (λ out. Leaves b len out.1) (read b len)
unfolding read
read-Leaves b len =
    Lands-assert (λ (out : List ℕ × Buffer). Leaves b len out.1) (leb len (readable_bytes b)) _
      λ h.
        Lands-bind (Leaves b len) (λ (out : List ℕ × Buffer). Leaves b len out.1) (retrieve b len) _
          (retrieve-Leaves b len) λ b' k. k

pub read_typed_number-Leaves :
    (k : Width) (b : Buffer) → Lands (λ out. Leaves b (size_of k) out.1) (read_typed_number k b)
unfolding read_typed_number
read_typed_number-Leaves k b =
    Lands-assert (λ (out : ℕ × Buffer). Leaves b (size_of k) out.1)
      (leb (size_of k) (readable_bytes b)) _
      λ h.
        Lands-bind (Leaves b (size_of k)) (λ (out : ℕ × Buffer). Leaves b (size_of k) out.1)
          (retrieve b (size_of k)) _ (retrieve-Leaves b (size_of k)) λ b' e. e

pub write_from-Leaves :
    (b src : Buffer) (len : ℕ) → Lands (λ out. Leaves src len out.1) (write_from b src len)
unfolding write_from
write_from-Leaves b src len =
    Lands-bind (Leaves src len) (λ (out : Buffer × Buffer). Leaves src len out.1) (retrieve src len)
      _ (retrieve-Leaves src len) λ b' e. e

pub read_string-Lands : (b : Buffer) → Lands (Ignored (List ℕ × Buffer)) (read_string b)
unfolding read_string
read_string-Lands b =
    Lands-bind (Leaves b (readable_bytes b)) (Ignored (List ℕ × Buffer))
      (retrieve b (readable_bytes b)) _ (retrieve-Leaves b (readable_bytes b)) λ b' e. tt

pub unread-Lands : (b : Buffer) (len : ℕ) → Lands (Ignored Buffer) (unread b len)
unfolding unread
unread-Lands b len =
    let rest = (b.read_index + 2 ^ 64 - len) % 2 ^ 64 in
    Lands-assert (Ignored Buffer) (leb 0 rest && leb rest b.write_index) _ λ h. tt

update-Lands : (b : Buffer) (z : ℤ) → Lands (Ignored Buffer) (update_write_index b z)
unfolding update_write_index
update-Lands b (negsuc n) = tt
update-Lands b (pos n) =
    Lands-assert (Ignored Buffer) (leb n (available b) && leb b.read_index (b.write_index + n)) _
      λ h. tt

pub unwrite-Lands : (b : Buffer) (len : ℕ) → Lands (Ignored Buffer) (unwrite b len)
unfolding unwrite
unwrite-Lands b len =
    Lands-if (Ignored Buffer) (ltb (readable_bytes b) len) _ _ (λ h. update-Lands b _)
      (λ h. update-Lands b _)

-- A TCP connection that sends or is closed keeps what it has received.
abbrev pub SameBuf : TcpConnection → TcpConnection → Type 0
SameBuf c c' = c'.buf ≡ c.buf

send-SameBuf : (c : TcpConnection) (bytes : List ℕ) → Lands (SameBuf c) (send c bytes)
unfolding send
send-SameBuf c bytes =
    Lands-if (SameBuf c) (is_state c.state writting) _ _ (λ h. refl)
      λ h. Lands-assert (SameBuf c) (is_state c.state connected) _ λ k. refl

pub handle_close-SameBuf : (c : TcpConnection) → Lands (SameBuf c) (handle_close c)
unfolding handle_close
handle_close-SameBuf c =
    Lands-if (SameBuf c) (is_state c.state writting) _ _ (λ h. refl)
      λ h.
        Lands-assert (SameBuf c) (is_state c.state connected || is_state c.state connecting) _
          λ k. refl

-- What `decode` leaves to be read after a send or a close, and the opcode that it has
pub record SameInput (w w' : WebSocketConnection) : Type 0 where
  pub buf : w'.conn.buf ≡ w.conn.buf
  pub opcode : w'.opcode ≡ w.opcode

pub close-SameInput :
    (w : WebSocketConnection) (code : StatusCode) → Lands (SameInput w) (close w code)
unfolding close stop_read
close-SameInput w code =
    let cleared =
      if ltb 0 (readable_bytes w.output_buf) then clear w.output_buf else w.output_buf in
    let out = put_uint16 (put_byte (put_byte cleared 0x88) 0x02) (code_of code) in
    let c = if is_failure code then stop_read w.conn else w.conn in
    Lands-bind (SameBuf c) (SameInput w) (send c (peek out 4)) _ (send-SameBuf c (peek out 4))
      λ c' e. record { buf = e ∙ stop_read-SameBuf w.conn (is_failure code); opcode = refl }
  where
    stop_read-SameBuf :
        (c : TcpConnection) (test : Bool) → SameBuf c (if test then stop_read c else c)
    stop_read-SameBuf c true = refl
    stop_read-SameBuf c false = refl

pub pong-SameInput : (w : WebSocketConnection) (text : List ℕ) → Lands (SameInput w) (pong w text)
unfolding pong
pong-SameInput w text =
    Lands-if (SameInput w) (leb 126 (length text)) _ _ (λ h. close-SameInput w protocol_error)
      λ h.
        let out =
          write_string
            (put_byte (put_byte w.output_buf (bit_and (bit_and 0xff 0x8f) 0xfa)) (length text))
            text in
        Lands-bind (SameBuf w.conn) (SameInput w) (send w.conn (contents out)) _
          (send-SameBuf w.conn (contents out))
          λ c e.
            Lands-bind (Leaves out (readable_bytes out)) (SameInput w)
              (retrieve out (readable_bytes out)) _ (retrieve-Leaves out (readable_bytes out))
              λ b k. record { buf = e; opcode = refl }
