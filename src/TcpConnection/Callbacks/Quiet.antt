-- ===== src/TcpConnection/Callbacks/Quiet.antt =====
-- include/ws/TcpConnection.h and src/TcpConnection.cpp: a connection whose callbacks leave it alone.
use websocket_engine.Base.{
  ℕ, ◌+◌, ◌-◌, ◌≡◌, refl, ap, ◌∙◌, inl, inr, Bool, true, false, ◌||◌, Option, none, some, List, ltb,
  Bool-cases, Outcome, ok, stuck, abort, ◌>>=◌, if◌then◌else◌,
}
use websocket_engine.Buffer.{readable_bytes}
use websocket_engine.TcpConnection
use websocket_engine.TcpConnection.{
  TcpConnection, StateE, connected, connecting, writting, disconnecting, disconnected, is_state,
  set_state, stop_read, flush, receive, Nread, stored, nothing, failed,
}
use websocket_engine.TcpConnection.Callbacks
use websocket_engine.TcpConnection.Callbacks.{
  Connection, with_conn, run_close_callbacks, call, call_if_set,
}

-- The connection that a handler leaves, without its callbacks and their owner.
abbrev pub plain : {C S : Type 0} → Outcome (Connection C × S) → Outcome TcpConnection
plain r = r >>= λ out. ok out.0.conn

-- The callbacks that `handleClose` calls without a test are set.
pub record AreSet {C : Type 0} (calls : Callbacks.Callbacks C) : Type 0 where
  pub connection : C
  pub connection_set : calls.connection ≡ some connection
  pub close : C
  pub close_set : calls.close ≡ some close

abbrev not_last : TcpConnection → TcpConnection
not_last c = record c { is_last_write = false }

module _ {C S : Type 0} where
  plain-lift :
      (p : Connection C) (s : S) (o : Outcome TcpConnection)
      → plain (o >>= λ c. ok (with_conn p c, s)) ≡ o
  plain-lift p s stuck = refl
  plain-lift p s abort = refl
  plain-lift p s (ok c) = refl

  plain-if :
      (test : Bool) (r r' : Outcome (Connection C × S)) {o o' : Outcome TcpConnection}
      → plain r ≡ o
      → plain r' ≡ o'
      → plain (if test then r else r') ≡ (if test then o else o')
  plain-if true r r' e e' = e
  plain-if false r r' e e' = e'

  plain-map :
      (g : TcpConnection → TcpConnection) (r : Outcome (Connection C × S))
      → plain (r >>= λ out. ok (with_conn out.0 (g out.0.conn), out.1))
        ≡ (plain r >>= λ c. ok (g c))
  plain-map g stuck = refl
  plain-map g abort = refl
  plain-map g (ok out) = refl

ok-id : (o : Outcome TcpConnection) → o ≡ (o >>= λ c. ok c)
ok-id stuck = refl
ok-id abort = refl
ok-id (ok c) = refl

module _ {C S : Type 0} (run : C → Connection C → S → Outcome (Connection C × S))
    (effect : C → S → S)
    (quiet : (cb : C) (p : Connection C) (s : S) → run cb p s ≡ ok (p, effect cb s)) where
  call_if_set-plain :
      (cb : Option C) (p : Connection C) (s : S) → (s' : S) × (call_if_set run cb p s ≡ ok (p, s'))
  call_if_set-plain none p s = (s, refl)
  call_if_set-plain (some cb) p s = (effect cb s, quiet cb p s)

  call-plain :
      (cb : Option C) (x : C)
      → cb ≡ some x
      → (p : Connection C) (s : S) → call run cb p s ≡ ok (p, effect x s)
  call-plain cb x e p s = rw e (quiet x p s)

  plain-called :
      (cb : Option C) (p : Connection C) (s : S) (o : Outcome TcpConnection)
      → plain (o >>= λ c. call_if_set run cb (with_conn p c) s) ≡ o
  plain-called cb p s stuck = refl
  plain-called cb p s abort = refl
  plain-called cb p s (ok c) = rw (call_if_set-plain cb (with_conn p c) s).1

  run_close_callbacks-plain :
      (p : Connection C) (s : S)
      → AreSet p.calls
      → plain (run_close_callbacks run p s)
        ≡ ok (record p.conn {
          connection_calls = p.conn.connection_calls + 1;
          close_calls = p.conn.close_calls + 1;
        })
  unfolding run_close_callbacks
  run_close_callbacks-plain p s set =
      let once : Connection C =
        with_conn p (record p.conn { connection_calls = p.conn.connection_calls + 1 }) in
      let twice : Connection C =
        with_conn once (record once.conn { close_calls = once.conn.close_calls + 1 }) in
      rw (
        call-plain p.calls.connection set.connection set.connection_set once s,
        call-plain p.calls.close set.close set.close_set twice (effect set.connection s),
      )

  handle_close-plain :
      (p : Connection C) (s : S)
      → AreSet p.calls
      → plain (Callbacks.handle_close run p s) ≡ TcpConnection.handle_close p.conn
  unfolding Callbacks.handle_close TcpConnection.handle_close
  handle_close-plain p s set = elim (Bool-cases (is_state p.conn.state writting)) [
    | inl busy ↦ rw busy
    | inr idle ↦
        elim (Bool-cases (is_state p.conn.state connected || is_state p.conn.state connecting)) [
          | inl live ↦
              rw (idle, live)
                (run_close_callbacks-plain (with_conn p (stop_read (set_state p.conn disconnected)))
                  s set)
          | inr dead ↦ rw (idle, dead)
        ]
  ]

  after_write-plain :
      (p : Connection C) (s : S)
      → AreSet p.calls
      → plain (Callbacks.after_write run p s) ≡ TcpConnection.after_write p.conn
  unfolding Callbacks.after_write TcpConnection.after_write
  after_write-plain p s set =
      let open_again : Connection C = with_conn p (set_state p.conn connected) in
      let closing : Connection C = with_conn p (record open_again.conn { is_last_write = true }) in
      plain-if p.conn.is_last_write _ _
        (plain-map not_last (Callbacks.handle_close run open_again s)
          ∙ ap (λ r. r >>= λ c. ok (not_last c)) (handle_close-plain open_again s set))
        (plain-if (is_state p.conn.state disconnecting) _ _
          (plain-if (ltb 0 (readable_bytes p.conn.output_buf)) _ _
            (plain-lift closing s (flush closing.conn)) (handle_close-plain open_again s set))
          (plain-lift open_again s (flush open_again.conn)))

  established :
      (p : Connection C) (s : S)
      → plain (Callbacks.connection_established run p s)
        ≡ ok (TcpConnection.connection_established p.conn)
  unfolding Callbacks.connection_established
  established p s =
      plain-called p.calls.connection p s (ok (TcpConnection.connection_established p.conn))

  handle_message-plain :
      (p : Connection C) (got : List ℕ) (s : S)
      → plain (Callbacks.handle_message run p got s) ≡ receive p.conn got
  unfolding Callbacks.handle_message
  handle_message-plain p got s = plain-called p.calls.message p s (receive p.conn got)

  uv_read-plain :
      (p : Connection C) (s : S)
      → AreSet p.calls
      → (n : Nread) → plain (Callbacks.uv_read run p n s) ≡ TcpConnection.uv_read ok p.conn n
  unfolding Callbacks.uv_read TcpConnection.uv_read
  uv_read-plain p s set failed = handle_close-plain p s set
  uv_read-plain p s set nothing = handle_close-plain p s set
  uv_read-plain p s set (stored got) = handle_message-plain p got s ∙ ok-id (receive p.conn got)

  write_done-plain :
      (p : Connection C) (s : S)
      → AreSet p.calls
      → (bad : Bool)
      → plain (Callbacks.write_done run p bad s) ≡ TcpConnection.write_done p.conn bad
  unfolding Callbacks.write_done TcpConnection.write_done Callbacks.handle_write
  write_done-plain p s set true =
      handle_close-plain (with_conn p (record p.conn { in_flight = p.conn.in_flight - 1 })) s set
  write_done-plain p s set false =
      let counted : Connection C = with_conn p (record p.conn {
        in_flight = p.conn.in_flight - 1;
        bytes_written = p.conn.bytes_written + p.conn.last_write;
      }) in
      let called = call_if_set-plain p.calls.write_complete counted s in
      rw called.1 (after_write-plain (Callbacks.reset_last_write counted) called.0 set)

  -- Callbacks that leave the connection as it is, whatever they do to their owner, leave every handler
  -- of a connection on which the connection and the close callback are set equal to the handler
  -- without callbacks: the opening, a read of bytes, an empty one or the end of the stream, the
  -- completion or failure of a write, and closing.
  pub quiet_callbacks :
      (p : Connection C) (s : S) (n : Nread) (bad : Bool)
      → AreSet p.calls
      → (plain (Callbacks.connection_established run p s)
          ≡ ok (TcpConnection.connection_established p.conn))
        × (plain (Callbacks.uv_read run p n s) ≡ TcpConnection.uv_read ok p.conn n)
        × (plain (Callbacks.write_done run p bad s) ≡ TcpConnection.write_done p.conn bad)
        × (plain (Callbacks.handle_close run p s) ≡ TcpConnection.handle_close p.conn)
  quiet_callbacks p s n bad set = (
    established p s,
    uv_read-plain p s set n,
    write_done-plain p s set bad,
    handle_close-plain p s set,
  )
