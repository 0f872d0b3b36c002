-- ===== src/WebSocketConnection/Progress/Reading.antt =====
-- How much of the input a header takes: src/WebSocketConnection.cpp, the first part of `decode`.
use websocket_engine.Base.{
  ℕ, ◌+◌, ◌^◌, ◌/◌, ◌<◌, List, arith, ltb, Lands, Lands-bind, Lands-if, bit_and, ◌==◌, not,
}
use websocket_engine.Buffer.{
  Buffer, readable_bytes, read, read_typed_number, uint8, uint16, uint64, unread,
}
use websocket_engine.WebSocketConnection.Types.{WebSocketConnection, protocol_error, set_input}
use websocket_engine.WebSocketConnection.Send.{close}
use websocket_engine.WebSocketConnection.Decode.{
  HeaderEnd, parsed, short, refused, wait_for, read_mask, read_length, read_second, read_header,
}
use websocket_engine.WebSocketConnection.Progress.{
  Leaves, Ignored, read-Leaves, read_typed_number-Leaves, unread-Lands, SameInput, close-SameInput,
}

-- A header that is read has taken a byte of `n` at least.
abbrev pub Shorter : ℕ → WebSocketConnection × HeaderEnd → Type 0
Shorter n (w, parsed) = readable_bytes w.conn.buf < n
Shorter n (w, short) = Unit
Shorter n (w, refused) = Unit

wait_for-Shorter :
    (n : ℕ) (w : WebSocketConnection) (want read_size : ℕ)
    → Lands (Shorter n) (wait_for w want read_size)
unfolding wait_for
wait_for-Shorter n w want read_size =
    Lands-bind (Ignored Buffer) (Shorter n) (unread w.conn.buf read_size) _
      (unread-Lands w.conn.buf read_size) λ b k. tt

read_mask-Shorter :
    (n : ℕ) (w : WebSocketConnection) (read_size : ℕ)
    → readable_bytes w.conn.buf < n
    → Lands (Shorter n) (read_mask w read_size)
unfolding read_mask
read_mask-Shorter n w read_size h =
    Lands-if (Shorter n) w.masked _ _
      (λ m.
        Lands-if (Shorter n) (ltb (readable_bytes w.conn.buf) 4) _ _
          (λ s. wait_for-Shorter n w (read_size + 4) read_size)
          λ s.
            Lands-bind (λ (out : List ℕ × Buffer). Leaves w.conn.buf 4 out.1) (Shorter n)
              (read w.conn.buf 4) _ (read-Leaves w.conn.buf 4) λ out k. omega arith)
      λ m. h

read_length-Shorter :
    (n : ℕ) (w : WebSocketConnection)
    → readable_bytes w.conn.buf < n
    → Lands (Shorter n) (read_length w)
unfolding read_length
read_length-Shorter n w h =
    Lands-if (Shorter n) (w.payload_length == 126) _ _
      (λ a.
        Lands-if (Shorter n) (ltb (readable_bytes w.conn.buf) 2) _ _ (λ s. wait_for-Shorter n w 4 2)
          λ s.
            Lands-bind (λ (out : ℕ × Buffer). Leaves w.conn.buf 2 out.1) (Shorter n)
              (read_typed_number uint16 w.conn.buf) _ (read_typed_number-Leaves uint16 w.conn.buf)
              λ out k.
                read_mask-Shorter n (set_input (record w { payload_length = out.0 }) out.1) 4
                  (omega arith))
      λ a.
        Lands-if (Shorter n) (w.payload_length == 127) _ _
          (λ c.
            Lands-if (Shorter n) (ltb (readable_bytes w.conn.buf) 8) _ _
              (λ s. wait_for-Shorter n w 10 2)
              λ s.
                Lands-bind (λ (out : ℕ × Buffer). Leaves w.conn.buf 8 out.1) (Shorter n)
                  (read_typed_number uint64 w.conn.buf) _
                  (read_typed_number-Leaves uint64 w.conn.buf)
                  λ out k.
                    read_mask-Shorter n (set_input (record w { payload_length = out.0 }) out.1) 10
                      (omega arith))
          λ c. read_mask-Shorter n w 2 h

read_second-Shorter :
    (n : ℕ) (w : WebSocketConnection)
    → readable_bytes w.conn.buf < n
    → Lands (Shorter n) (read_second w)
unfolding read_second
read_second-Shorter n w h =
    Lands-if (Shorter n) (ltb (readable_bytes w.conn.buf) 1) _ _ (λ s. wait_for-Shorter n w 2 1)
      λ s.
        Lands-bind (λ (out : ℕ × Buffer). Leaves w.conn.buf 1 out.1) (Shorter n)
          (read_typed_number uint8 w.conn.buf) _ (read_typed_number-Leaves uint8 w.conn.buf)
          λ out k.
            let size = bit_and out.0 0x7f in
            read_length-Shorter n
              (set_input
                (record w { masked = out.0 / 2 ^ 7 == 1; payload_length = size; wanted = size })
                out.1)
              (omega arith)

pub read_header-Shorter :
    (w : WebSocketConnection) → Lands (Shorter (readable_bytes w.conn.buf)) (read_header w)
unfolding read_header
read_header-Shorter w =
    let n = readable_bytes w.conn.buf in
    Lands-bind (λ (out : ℕ × Buffer). Leaves w.conn.buf 1 out.1) (Shorter n)
      (read_typed_number uint8 w.conn.buf) _ (read_typed_number-Leaves uint8 w.conn.buf)
      λ out k.
        let w' = set_input w out.1 in
        Lands-if (Shorter n) (not (bit_and out.0 0x70 == 0)) _ _
          (λ r.
            Lands-bind (SameInput w') (Shorter n) (close w' protocol_error) _
              (close-SameInput w' protocol_error) λ v i. tt)
          λ r.
            read_second-Shorter n
              (record w' { is_fin = not (out.0 / 2 ^ 7 == 0); opcode = bit_and out.0 0x0f })
              (omega arith)
