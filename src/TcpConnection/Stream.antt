-- ===== src/TcpConnection/Stream.antt =====
-- src/TcpConnection.cpp: the bytes that a connection has taken for sending, in order: first those that
-- libuv has, then those that wait for the write under way.
use mathlib.Core.List.{append_assoc, append-nil}
use websocket_engine.Base.{
  ℕ, ◌<◌, ◌≡◌, ◌≢◌, refl, sym, ap, ◌∙◌, ◌⊎◌, inl, inr, true, false, List, [], ◌++◌, arith, ok,
  abort, take, drop, drop_all,
}
use websocket_engine.Buffer.{Buffer, readable_bytes, contents, write}
use websocket_engine.Buffer.Space.{IsValid, length-contents}
use websocket_engine.Buffer.Queue.{Holds, write-Holds, advance, advance-Holds}
use websocket_engine.TcpConnection.{
  TcpConnection, StateE, connecting, connected, disconnected, disconnecting, writting, send,
  send_message, handle_close, write_done,
}
use websocket_engine.TcpConnection.State.{
  started, shut, flushed, landed, send_connected, send_writting, send_gone, send_message_writting,
  handle_close_writting, handle_close_open, write_done_last, write_done_closing,
  write_done_closing_queued, write_done_empty, write_done_queued,
}

abbrev pub stream : TcpConnection → List ℕ
stream c = c.written ++ contents c.output_buf

-- A write is under way.
abbrev pub IsBusy : TcpConnection → Type 0
IsBusy c = (c.state ≡ writting) ⊎ (c.state ≡ disconnecting)

abbrev pub IsOpen : TcpConnection → Type 0
IsOpen c = (c.state ≡ connected) ⊎ (c.state ≡ connecting)

-- Exactly one request is with libuv while the state says so, none otherwise; and an open
-- connection that is not writing has nothing queued and is not on its last write. The owner's close
-- callback has run once when the connection is gone, and not before.
pub record Inv (c : TcpConnection) : Type 0 where
  pub output : IsValid c.output_buf
  pub busy : IsBusy c → c.in_flight ≡ 1
  pub idle : IsOpen c → c.in_flight ≡ 0
  pub gone : c.state ≡ disconnected → c.in_flight ≡ 0
  pub quiet : IsOpen c → readable_bytes c.output_buf ≡ 0
  pub first : IsOpen c → c.is_last_write ≡ false
  pub untold : (IsBusy c) ⊎ (IsOpen c) → c.close_calls ≡ 0
  pub told : c.state ≡ disconnected → c.close_calls ≡ 1

pub nothing_left : (b : Buffer) → readable_bytes b ≡ 0 → contents b ≡ []
nothing_left b e = ap (λ n. take n (drop b.read_index b.buf)) e

-- The five completions of a write, and what each asks of the connection before.
pub WriteDone-cases :
    (c : TcpConnection)
    → IsValid c.output_buf
    → IsBusy c
    → (c.is_last_write ≡ true)
      ⊎ ((c.is_last_write ≡ false) × (c.state ≡ disconnecting) × (readable_bytes c.output_buf ≡ 0))
      ⊎ ((c.is_last_write ≡ false) × (c.state ≡ disconnecting) × (0 < readable_bytes c.output_buf))
      ⊎ ((c.is_last_write ≡ false) × (c.state ≡ writting) × (readable_bytes c.output_buf ≡ 0))
      ⊎ ((c.is_last_write ≡ false) × (c.state ≡ writting) × (0 < readable_bytes c.output_buf))
WriteDone-cases c v b = grind arith

pub advance_all : {b : Buffer} → IsValid b → Holds (advance b (readable_bytes b)) []
advance_all {b} v =
    let h = advance-Holds (readable_bytes b) v (omega arith) in
    record {
      valid = h.valid;
      held = h.held ∙ drop_all (readable_bytes b) (contents b) (omega (arith, length-contents v));
    }

stream-flushed :
    (c : TcpConnection)
    → IsValid c.output_buf
    → c.written
        ++ contents c.output_buf
        ++ contents (advance c.output_buf (readable_bytes c.output_buf))
      ≡ stream c
stream-flushed c v = rw ((advance_all v).held, append-nil)

-- A write that completes adds nothing and loses nothing of what was taken for sending, and the
-- invariant holds after it.
pub write_done-Inv :
    {c : TcpConnection}
    → Inv c
    → IsBusy c
    → (c' : TcpConnection) × (write_done c false ≡ ok c') × Inv c' × (stream c' ≡ stream c)
write_done-Inv {c} v b = elim (WriteDone-cases c v.output b) [
  | inl last ↦ (
    record (shut (landed c)) { is_last_write = false },
    write_done_last c last,
    ground (arith, v.output, v.busy b, v.untold (inl b)),
    refl,
  )
  | inr (inl (more, s, e)) ↦ (
    shut (landed c),
    write_done_closing c more s e,
    ground (arith, v.output, v.busy b, v.untold (inl b)),
    refl,
  )
  | inr (inr (inl (more, s, h))) ↦ (
    flushed (record (landed c) { is_last_write = true; state = connected }),
    write_done_closing_queued c more v.output s h,
    ground (arith, (advance_all v.output).valid, v.busy b, v.untold (inl b)),
    stream-flushed c v.output,
  )
  | inr (inr (inr (inl (more, s, e)))) ↦ (
    record (landed c) { state = connected },
    write_done_empty c more s e,
    ground (arith, v.output, v.busy b, v.untold (inl b)),
    refl,
  )
  | inr (inr (inr (inr (more, s, h)))) ↦ (
    flushed (record (landed c) { state = connected }),
    write_done_queued c more v.output s h,
    ground (arith, (advance_all v.output).valid, v.busy b, v.untold (inl b)),
    stream-flushed c v.output,
  )
]

-- `send` on a connection that is connected or writing takes the bytes, behind all that it took
-- before, keeps the invariant, leaves it writing, and its input and whether it is read as they were; in
-- any other state it fails its assertion.
pub send-Inv :
    {c : TcpConnection} (bytes : List ℕ)
    → Inv c
    → ((c' : TcpConnection) × (send c bytes ≡ ok c')
        × Inv c'
        × (stream c' ≡ stream c ++ bytes)
        × ((c.state ≡ connected) ⊎ (c.state ≡ writting))
        × (c'.state ≡ writting)
        × (c'.buf ≡ c.buf)
        × (c'.reading ≡ c.reading))
      ⊎ ((send c bytes ≡ abort) × (c.state ≢ connected) × (c.state ≢ writting))
send-Inv {c} bytes v = elim (state_cases c.state) [
  | inl on ↦ inl (
    started c bytes,
    send_connected c bytes on,
    ground (arith, v.output, v.idle (inl on), v.untold (inr (inl on))),
    taken on,
    inl on,
    refl,
    refl,
    refl,
  )
  | inr (inl busy) ↦
      let h = write-Holds bytes v.output in
      inl (
        record c { output_buf = write c.output_buf bytes },
        send_writting c bytes busy,
        ground (arith, h.valid, v.busy (inl busy), v.untold (inl (inl busy))),
        ap (◌++◌ c.written) h.held ∙ sym (append_assoc c.written (contents c.output_buf) bytes),
        inr busy,
        busy,
        refl,
        refl,
      )
  | inr (inr other) ↦ inr (send_gone c bytes other, ground arith, ground arith)
]
  where
    state_cases :
        (s : StateE)
        → (s ≡ connected)
          ⊎ (s ≡ writting)
          ⊎ ((s ≡ disconnected) ⊎ (s ≡ disconnecting) ⊎ (s ≡ connecting))
    state_cases connecting = inr (inr (inr (inr refl)))
    state_cases connected = inl refl
    state_cases disconnected = inr (inr (inl refl))
    state_cases disconnecting = inr (inr (inr (inl refl)))
    state_cases writting = inr (inl refl)

    taken : c.state ≡ connected → (c.written ++ bytes) ++ contents c.output_buf ≡ stream c ++ bytes
    taken on = rw (
      nothing_left c.output_buf (v.quiet (inl on)),
      append-nil (c.written ++ bytes),
      append-nil c.written,
    )

-- Closing an open connection, or one that is writing, drops none of the bytes taken for sending.
pub handle_close-Inv :
    {c : TcpConnection}
    → Inv c
    → (IsOpen c) ⊎ (c.state ≡ writting)
    → (c' : TcpConnection) × (handle_close c ≡ ok c') × Inv c' × (stream c' ≡ stream c)
handle_close-Inv {c} v (inl o) =
    (shut c, handle_close_open c o, ground (arith, v.output, v.idle o, v.untold (inr o)), refl)
handle_close-Inv {c} v (inr w) = (
  record c { state = disconnecting },
  handle_close_writting c w,
  ground (arith, v.output, v.busy (inl w), v.untold (inl (inl w))),
  refl,
)

-- `sendMessage`'s `send(Buffer&, String&&)` while a write is under way queues the header and the
-- body behind it, in this order, and empties the header.
pub send_message-Inv :
    {c : TcpConnection} {header : Buffer} (body : List ℕ)
    → Inv c
    → IsValid header
    → c.state ≡ writting
    → (c' : TcpConnection) × (send_message c header body
        ≡ ok (c', advance header (readable_bytes header)))
      × Inv c'
      × (stream c' ≡ stream c ++ (contents header ++ body))
send_message-Inv {c} {header} body v hv w =
    let one = write-Holds (contents header) v.output in
    let two = write-Holds body one.valid in
    (
      record c { output_buf = write (write c.output_buf (contents header)) body },
      send_message_writting c body hv w,
      ground (arith, two.valid, v.busy (inl w), v.untold (inl (inl w))),
      ap (◌++◌ c.written)
            (two.held ∙ ap (λ t. t ++ body) one.held ∙ append_assoc _ (contents header) body)
          ∙ sym (append_assoc c.written (contents c.output_buf) (contents header ++ body)),
    )
