-- ===== src/TcpConnection/Callbacks/Keeps.antt =====
-- include/ws/TcpConnection.h and src/TcpConnection.cpp: what the callbacks keep, the handlers keep.
use websocket_engine.Base.{
  ℕ, ◌-◌, ◌≡◌, ◌∙◌, refl, Bool, true, false, ◌||◌, Option, none, some, List, ltb, length, Outcome,
  Ends, Ends-bind, Ends-any, overwrite, Ends-if, Ends-assert,
}
use websocket_engine.Base.Int.{pos}
use websocket_engine.Buffer.{readable_bytes, contents, retrieve, update_write_index}
use websocket_engine.TcpConnection.{
  TcpConnection, connected, connecting, writting, disconnecting, is_state, set_state, stop_read,
  flush, receive, Nread, stored, nothing, failed, send, connection_established,
}
use websocket_engine.TcpConnection.Callbacks
use websocket_engine.TcpConnection.Callbacks.{
  Connection, with_conn, call_if_set, call, run_close_callbacks,
}

abbrev HasId : ℕ → TcpConnection → Type 0
HasId n c = c.id ≡ n

send-id : (c : TcpConnection) (bytes : List ℕ) → Ends (HasId c.id) (send c bytes)
unfolding send
send-id c bytes =
    Ends-if (HasId c.id) (is_state c.state writting) _ _ refl
      (Ends-assert (HasId c.id) (is_state c.state connected) _ refl)

flush-id : (c : TcpConnection) → Ends (HasId c.id) (flush c)
unfolding flush
flush-id c =
    Ends-if (HasId c.id) (ltb 0 (readable_bytes c.output_buf)) _ _
      (Ends-bind (HasId c.id) (HasId c.id) (send c (contents c.output_buf)) _
        (send-id c (contents c.output_buf))
        λ c' e.
          Ends-any (HasId c.id) (retrieve c'.output_buf (readable_bytes c'.output_buf)) _ λ out. e)
      refl

receive-id : (c : TcpConnection) (got : List ℕ) → Ends (HasId c.id) (receive c got)
unfolding receive
receive-id c got =
    Ends-any (HasId c.id)
      (update_write_index (record c.buf { buf = overwrite c.buf.buf c.buf.write_index got })
        (pos (length got)))
      _ λ b. refl

-- Each handler keeps the number of its connection, and whatever the callbacks keep of their owner.
module _ {C S : Type 0} (run : C → Connection C → S → Outcome (Connection C × S))
    (P : ℕ → S → Type 0)
    (keeps : (n : ℕ) (cb : C) (p : Connection C) (s : S)
      → p.conn.id ≡ n
      → P n s
      → Ends (λ out. (out.0.conn.id ≡ n) × P n out.1) (run cb p s))
    (n : ℕ) where
  abbrev Kept : Connection C × S → Type 0
  Kept out = (out.0.conn.id ≡ n) × P n out.1

  call_if_set-Kept :
      (cb : Option C) (p : Connection C) (s : S)
      → p.conn.id ≡ n
      → P n s
      → Ends Kept (call_if_set run cb p s)
  call_if_set-Kept none p s e h = (e, h)
  call_if_set-Kept (some cb) p s e h = keeps n cb p s e h

  call-Kept :
      (cb : Option C) (p : Connection C) (s : S)
      → p.conn.id ≡ n
      → P n s
      → Ends Kept (call run cb p s)
  call-Kept none p s e h = tt
  call-Kept (some cb) p s e h = keeps n cb p s e h

  pub established-Kept :
      (p : Connection C) (s : S)
      → p.conn.id ≡ n
      → P n s
      → Ends Kept (Callbacks.connection_established run p s)
  unfolding Callbacks.connection_established connection_established
  established-Kept p s e h = call_if_set-Kept p.calls.connection _ s e h

  handle_close-Kept :
      (p : Connection C) (s : S)
      → p.conn.id ≡ n
      → P n s
      → Ends Kept (Callbacks.handle_close run p s)
  unfolding Callbacks.handle_close stop_read set_state
  handle_close-Kept p s e h =
      Ends-if Kept (is_state p.conn.state writting) _ _ (e, h)
        (Ends-assert Kept (is_state p.conn.state connected || is_state p.conn.state connecting) _ (
          Ends-bind Kept Kept (call run p.calls.connection _ s) _
            (call-Kept p.calls.connection _ s e h)
            λ out k. call-Kept out.0.calls.close _ out.1 k.0 k.1))

  flush-Kept :
      (p : Connection C) (s : S)
      → p.conn.id ≡ n
      → P n s
      → Ends Kept (Callbacks.flush_output run p s)
  flush-Kept p s e h =
      Ends-bind (HasId p.conn.id) Kept (flush p.conn) _ (flush-id p.conn) λ c i. (i ∙ e, h)

  after_write-Kept :
      (p : Connection C) (s : S) → p.conn.id ≡ n → P n s → Ends Kept (Callbacks.after_write run p s)
  unfolding Callbacks.after_write set_state
  after_write-Kept p s e h =
      let open_again : Connection C = with_conn p (set_state p.conn connected) in
      Ends-if Kept p.conn.is_last_write _ _
        (Ends-bind Kept Kept (Callbacks.handle_close run open_again s) _
          (handle_close-Kept open_again s e h) λ out k. k)
        (Ends-if Kept (is_state p.conn.state disconnecting) _ _
          (Ends-if Kept (ltb 0 (readable_bytes p.conn.output_buf)) _ _
            (flush-Kept (with_conn p (record open_again.conn { is_last_write = true })) s e h)
            (handle_close-Kept open_again s e h))
          (flush-Kept open_again s e h))

  pub write_done-Kept :
      (p : Connection C) (bad : Bool) (s : S)
      → p.conn.id ≡ n
      → P n s
      → Ends Kept (Callbacks.write_done run p bad s)
  unfolding Callbacks.write_done Callbacks.handle_write
  write_done-Kept p true s e h =
      handle_close-Kept (with_conn p (record p.conn { in_flight = p.conn.in_flight - 1 })) s e h
  write_done-Kept p false s e h =
      Ends-bind Kept Kept (call_if_set run p.calls.write_complete _ s) _
        (call_if_set-Kept p.calls.write_complete _ s e h)
        λ out k. after_write-Kept (Callbacks.reset_last_write out.0) out.1 k.0 k.1

  pub uv_read-Kept :
      (p : Connection C) (r : Nread) (s : S)
      → p.conn.id ≡ n
      → P n s
      → Ends Kept (Callbacks.uv_read run p r s)
  unfolding Callbacks.uv_read
  uv_read-Kept p failed s e h = handle_close-Kept p s e h
  uv_read-Kept p nothing s e h = handle_close-Kept p s e h
  uv_read-Kept p (stored got) s e h =
      Ends-bind (HasId p.conn.id) Kept (receive p.conn got) _ (receive-id p.conn got)
        λ c i. call_if_set-Kept p.calls.message (with_conn p c) s (i ∙ e) h
