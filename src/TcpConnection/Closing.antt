-- ===== src/TcpConnection/Closing.antt =====
-- src/TcpConnection.cpp: how a connection comes to its end.
use websocket_engine.Base.{
  ℕ, ◌-◌, ◌<◌, ◌≡◌, refl, sym, ap, ◌∙◌, ◌⊎◌, inl, inr, true, false, List, ◌++◌, arith, Outcome, ok,
  abort, ◌>>=◌, Bool-cases, ltb, Ends, Ends-if, Ends-assert,
}
use mathlib.Core.List.{append-nil}
use websocket_engine.Buffer.{Buffer, readable_bytes, contents}
use websocket_engine.Buffer.Space.{IsValid}
use websocket_engine.Buffer.Queue.{advance}
use websocket_engine.TcpConnection.{
  TcpConnection, connected, disconnected, disconnecting, writting, is_state, send, send_message,
  handle_close, write_done, uv_read, write_to_uv, nothing, failed,
}
use websocket_engine.TcpConnection.State.{
  shut, flushed, landed, handle_close_writting, handle_close_open, handle_close_gone, send_gone,
  send_message_idle, write_done_last, write_done_closing, write_done_closing_queued,
}
use websocket_engine.TcpConnection.Stream.{stream, Inv, nothing_left}

-- `close` on a connection that is writing its first piece; then its writes complete without
-- failure. If nothing is queued, one completion closes the connection; otherwise one hands over
-- all that is queued, and the next closes. Every byte taken for sending has then been handed to
-- libuv, the request has completed, and the owners are told.
pub close_flushes :
    (c : TcpConnection)
    → Inv c
    → c.state ≡ writting
    → c.is_last_write ≡ false
    → ((d : TcpConnection) × ((handle_close c >>= λ x. write_done x false) ≡ ok d)
        × (readable_bytes c.output_buf ≡ 0)
        × (d.state ≡ disconnected)
        × (d.written ≡ stream c)
        × (d.in_flight ≡ 0)
        × (d.close_calls ≡ 1))
      ⊎ ((d : TcpConnection) × ((handle_close c >>= λ x.
              write_done x false >>= λ y. write_done y false)
            ≡ ok d)
          × (0 < readable_bytes c.output_buf)
          × (d.state ≡ disconnected)
          × (d.written ≡ stream c)
          × (d.in_flight ≡ 0)
          × (d.close_calls ≡ 1))
close_flushes c v w l = elim (Bool-cases (ltb 0 (readable_bytes c.output_buf))) [
  | inl queued ↦
      let x : TcpConnection = record c { state = disconnecting } in
      let y : TcpConnection =
        flushed (record (landed x) { is_last_write = true; state = connected }) in
      inr (
        record (shut (landed y)) { is_last_write = false },
        rw (handle_close_writting c w, write_done_closing_queued x l v.output refl (ground arith))
            (write_done_last y refl),
        ground arith,
        refl,
        refl,
        omega (arith, v.busy (inl w)),
        omega (arith, v.untold (inl (inl w))),
      )
  | inr empty ↦
      let x : TcpConnection = record c { state = disconnecting } in
      inl (
        shut (landed x),
        rw (handle_close_writting c w) (write_done_closing x l refl (ground arith)),
        ground arith,
        refl,
        sym (ap (◌++◌ c.written) (nothing_left c.output_buf (ground arith)) ∙ append-nil c.written),
        omega (arith, v.busy (inl w)),
        omega (arith, v.untold (inl (inl w))),
      )
]

-- Every byte taken for sending is with libuv, no request is outstanding, and the owners are told.
abbrev pub IsOver : TcpConnection → TcpConnection → Type 0
IsOver x d =
    (d.state ≡ disconnected) × (d.written ≡ stream x) × (d.in_flight ≡ 0) × (d.close_calls ≡ 1)

-- The next completion closes the connection, or it hands over what is queued and the one after it closes.
abbrev pub ClosesWritten : TcpConnection → Type 0
ClosesWritten x =
    ((d : TcpConnection) × (write_done x false ≡ ok d) × IsOver x d)
    ⊎ ((d : TcpConnection) × ((write_done x false >>= λ y. write_done y false) ≡ ok d) × IsOver x d)

pub closes_written :
    (c : TcpConnection)
    → Inv c
    → c.state ≡ writting
    → c.is_last_write ≡ false
    → ClosesWritten (record c { state = disconnecting })
closes_written c v w l =
    let went = sym (handle_close_writting c w) in
    elim (close_flushes c v w l) [
      | inl (d, e, _, s, t, i, k) ↦
          inl (d, ap (λ t. t >>= λ x. write_done x false) went ∙ e, (s, t, i, k))
      | inr (d, e, _, s, t, i, k) ↦ inr (
        d,
        ap (λ t. t >>= λ x. write_done x false >>= λ y. write_done y false) went ∙ e,
        (s, t, i, k),
      )
    ]

pub send-last :
    (c : TcpConnection) (bytes : List ℕ)
    → Ends (λ d. d.is_last_write ≡ c.is_last_write) (send c bytes)
unfolding send
send-last c bytes =
    let same = λ (d : TcpConnection). d.is_last_write ≡ c.is_last_write in
    Ends-if same (is_state c.state writting) _ _ refl
      (Ends-assert same (is_state c.state connected) _ refl)

-- A write that fails in the state `kWritting` leaves the connection in `kDisconnecting` with no
-- request outstanding and its owners not told. The next end of the stream, as any further `send`,
-- fails an assertion.
pub failed_write_wedges :
    (c : TcpConnection) (messaged : TcpConnection → Outcome TcpConnection) (bytes : List ℕ)
    → Inv c
    → c.state ≡ writting
    → (d : TcpConnection) × (write_done c true ≡ ok d)
      × (d.state ≡ disconnecting)
      × (d.in_flight ≡ 0)
      × (d.close_calls ≡ 0)
      × (uv_read messaged d failed ≡ abort)
      × (send d bytes ≡ abort)
unfolding write_done uv_read
failed_write_wedges c messaged bytes v w =
    let d : TcpConnection = record c { in_flight = c.in_flight - 1; state = disconnecting } in
    (
      d,
      handle_close_writting (record c { in_flight = c.in_flight - 1 }) w,
      refl,
      omega (arith, v.busy (inl w)),
      v.untold (inl (inl w)),
      handle_close_gone d (inr refl),
      send_gone d bytes (inr (inl refl)),
    )

-- A peer that ends the stream while the answer to its close is still being written fails an
-- assertion: in `kDisconnecting` the end of the stream, or an empty read, aborts.
pub eof_while_disconnecting :
    (c : TcpConnection) (messaged : TcpConnection → Outcome TcpConnection)
    → c.state ≡ writting
    → ((handle_close c >>= λ d. uv_read messaged d failed) ≡ abort)
      × ((handle_close c >>= λ d. uv_read messaged d nothing) ≡ abort)
unfolding uv_read
eof_while_disconnecting c messaged w =
    let d : TcpConnection = record c { state = disconnecting } in
    (
      rw (handle_close_writting c w) (handle_close_gone d (inr refl)),
      rw (handle_close_writting c w) (handle_close_gone d (inr refl)),
    )

-- `send(Buffer&, String&&)` on a connected socket does not mark the connection as writing. If the
-- stream ends before the write completes, the owners are told that the connection is gone while
-- the request is still with libuv.
pub send_message_outlived :
    (c : TcpConnection) (messaged : TcpConnection → Outcome TcpConnection) {header : Buffer}
    (body : List ℕ)
    → Inv c
    → IsValid header
    → c.state ≡ connected
    → (d : TcpConnection) × (e : TcpConnection) × (send_message c header body
        ≡ ok (d, advance header (readable_bytes header)))
      × (d.state ≡ connected)
      × (uv_read messaged d failed ≡ ok e)
      × (e.state ≡ disconnected)
      × (e.close_calls ≡ 1)
      × (e.in_flight ≡ 1)
unfolding uv_read write_to_uv
send_message_outlived c messaged {header} body v hv s =
    let d : TcpConnection = write_to_uv c (contents header ++ body) in
    (
      d,
      shut d,
      send_message_idle c body hv (ground arith),
      s,
      handle_close_open d (inl s),
      refl,
      omega (arith, v.untold (inr (inl s))),
      omega (arith, v.idle (inl s)),
    )
