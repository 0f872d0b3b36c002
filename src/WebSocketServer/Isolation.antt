-- ===== src/WebSocketServer/Isolation.antt =====
-- src/TcpServer.cpp and src/WebSocketServer.cpp: the two maps over the events of all connections.
use mathlib.Core.Path.{subst}
use websocket_engine.Base.{
  ℕ, ◌<◌, ◌≡◌, ◌≢◌, refl, sym, ◌∙◌, inl, inr, Bool, true, false, Option, none, some, arith, ltb,
  if◌then◌else◌, Bool-cases, Option-cases, Outcome, Ends, Ends-bind, Ends-any, Ends-if, Ends-assert,
}
use websocket_engine.Base.Table.{
  lookup, has_key, erase, lookup-assign_ne, lookup-erase_self, lookup-erase_ne,
}
use websocket_engine.TcpConnection.{is_disconnected}
use websocket_engine.TcpConnection.Callbacks.{Connection, call, set_close_callback}
use websocket_engine.TcpServer.{close_connection}
use websocket_engine.WebSocketConnection.Types
use websocket_engine.WebSocketConnection.Types.{WebSocketConnection, Callbacks}
use websocket_engine.WebSocketConnection.Handshake.{HttpParser, Digests, parse}
use websocket_engine.WebSocketServer.{
  Memory, Handler, messages, connections, closing, socket_closed, Server, put_socket, give_up,
  same_id, handle_connection, socket_close, run_simple, run_closed, registers, socket_for,
  after_parse, handle_message, run,
}

-- Each connection stands under its own number, and all numbers were given out before.
pub record Numbered (s : Server) : Type 0 where
  pub objects :
      (k : ℕ) (p : Connection Handler)
      → lookup k s.connection_map ≡ some p
      → (k < s.next_id) × (p.conn.id ≡ k)
  pub sockets :
      (k : ℕ) (w : WebSocketConnection) → lookup k s.more.ws_conns ≡ some w → k < s.next_id

-- The two servers differ in no connection and no WebSocket connection but those with the number `n`.
pub record SameOthers (n : ℕ) (s0 s : Server) : Type 0 where
  pub objects : (k : ℕ) → k ≢ n → lookup k s.connection_map ≡ lookup k s0.connection_map
  pub sockets : (k : ℕ) → k ≢ n → lookup k s.more.ws_conns ≡ lookup k s0.more.ws_conns

module _ (s0 : Server) where
  -- What holds of the server within a handler of the connection `n`.
  pub record Within (n : ℕ) (s : Server) : Type 0 where
    pub next : s.next_id ≡ s0.next_id
    pub others : SameOthers n s0 s
    pub own : (p : Connection Handler) → lookup n s.connection_map ≡ some p → p.conn.id ≡ n

  put_socket-Within :
      (n : ℕ) (s : Server) (w : WebSocketConnection) → Within n s → Within n (put_socket s n w)
  put_socket-Within n s w h = record {
    next = h.next;
    others = record {
      objects = h.others.objects;
      sockets = λ k d. lookup-assign_ne n k w s.more.ws_conns d ∙ h.others.sockets k d;
    };
    own = h.own;
  }

  give_up-Within : (n : ℕ) (s : Server) → Within n s → Within n (give_up s n)
  give_up-Within n s h = elim (Option-cases (lookup n s.more.ws_conns)) [
    | inl absent ↦ rw (give_up, absent) h
    | inr found ↦
        rw (give_up, found.1)
          (record {
            next = h.next;
            others = record {
              objects = h.others.objects;
              sockets = λ k d. lookup-erase_ne n k s.more.ws_conns d ∙ h.others.sockets k d;
            };
            own = h.own;
          })
  ]

  erase-Within :
      (n : ℕ) (s : Server)
      → Within n s
      → Within n (record s { connection_map = erase n s.connection_map })
  erase-Within n s h = record {
    next = h.next;
    others = record {
      objects = λ k d. lookup-erase_ne n k s.connection_map d ∙ h.others.objects k d;
      sockets = h.others.sockets;
    };
    own = λ p e. absurd (ground (arith, lookup-erase_self n s.connection_map));
  }

  abbrev pub Kept : ℕ → Connection Handler × Server → Type 0
  Kept n out = (out.0.conn.id ≡ n) × Within n out.1

  -- A handler that keeps things for the number of its connection, keeps them for an equal one.
  for_number :
      (f : Connection Handler → Server → Outcome (Connection Handler × Server))
      → ((p : Connection Handler) (s : Server) → Within p.conn.id s → Ends (Kept p.conn.id) (f p s))
      → (n : ℕ) (p : Connection Handler) (s : Server) → p.conn.id ≡ n
      → Within n s
      → Ends (Kept n) (f p s)
  for_number f keeps n p s e h =
      subst (λ m. Ends (Kept m) (f p s)) e (keeps p s (subst (λ m. Within m s) (sym e) h))

  module _ (app : Callbacks) (memory : Memory) where
    socket_close-Kept :
        (held : Bool) (p : Connection Handler) (s : Server)
        → Within p.conn.id s
        → Ends (Kept p.conn.id) (socket_close app memory held p s)
    unfolding socket_close
    socket_close-Kept held p s h = elim (Option-cases (lookup p.conn.id s.more.ws_conns)) [
      | inr found ↦
          rw (Ends, found.1)
            (Ends-any (Kept p.conn.id) (Types.handle_close app (record found.0 { conn = p.conn })) _
              λ w. (refl, put_socket-Within p.conn.id s w h))
      | inl absent ↦
          rw (Ends, absent)
            (elim (Option-cases (lookup p.conn.id s.more.given_up)) [
              | inl gone ↦ rw (Ends, gone) (refl, h)
              | inr found ↦
                  rw (Ends, found.1)
                    (Ends-any (Kept p.conn.id)
                      (Types.handle_close app (record found.0 { conn = p.conn })) _
                      λ w. (
                        refl,
                        record {
                          next = h.next;
                          others = record {
                            objects = h.others.objects;
                            sockets = h.others.sockets;
                          };
                          own = h.own;
                        },
                      ))
            ])
    ]

    handle_connection-Kept :
        (p : Connection Handler) (s : Server)
        → Within p.conn.id s
        → Kept p.conn.id (handle_connection p s)
    unfolding handle_connection
    handle_connection-Kept p s h = elim (Bool-cases (is_disconnected p.conn)) [
      | inl down ↦ rw down (refl, give_up-Within p.conn.id s h)
      | inr up ↦ rw up (refl, h)
    ]

    run_simple-Kept :
        (held : Bool) (cb : Handler) (p : Connection Handler) (s : Server)
        → Within p.conn.id s
        → Ends (Kept p.conn.id) (run_simple app memory held cb p s)
    unfolding run_simple close_connection
    run_simple-Kept held messages p s h = (refl, h)
    run_simple-Kept held connections p s h = handle_connection-Kept p s h
    run_simple-Kept held closing p s h =
        Ends-assert (Kept p.conn.id) (has_key p.conn.id s.connection_map) _
          (refl, erase-Within p.conn.id s h)
    run_simple-Kept held socket_closed p s h = socket_close-Kept held p s h

    called :
        (n : ℕ) (cb : Option Handler) (p : Connection Handler) (s : Server)
        → p.conn.id ≡ n
        → Within n s
        → Ends (Kept n) (call (run_simple app memory true) cb p s)
    called n none p s e h = tt
    called n (some cb) p s e h =
        for_number (run_simple app memory true cb) (run_simple-Kept true cb) n p s e h

    run_closed-Kept :
        (p : Connection Handler) (s : Server)
        → Within p.conn.id s
        → Ends (Kept p.conn.id) (run_closed app memory p s)
    unfolding run_closed
    run_closed-Kept p s h =
        Ends-bind (Kept p.conn.id) (Kept p.conn.id)
          (call (run_simple app memory true) p.calls.connection p s) _
          (called p.conn.id p.calls.connection p s refl h)
          λ out k. called p.conn.id out.0.calls.close out.0 out.1 k.0 k.1

    module _ (execute : HttpParser) (d : Digests) (fuel : ℕ) where
      after_parse-Kept :
          (p : Connection Handler) (s : Server) (w : WebSocketConnection)
          → Within p.conn.id s
          → Ends (Kept p.conn.id) (after_parse app memory execute d fuel p s w)
      unfolding after_parse
      after_parse-Kept p s w h =
          let parsed = same_id p w.conn in
          let stored = put_socket s p.conn.id w in
          let bound =
            if registers app memory w
            then set_close_callback parsed (some socket_closed)
            else parsed in
          let same : bound.conn.id ≡ p.conn.id = bound_id (registers app memory w) parsed in
          Ends-if (Kept p.conn.id) (ltb p.conn.close_calls w.conn.close_calls) _ _
            (for_number (run_closed app memory) run_closed-Kept p.conn.id bound stored same
              (put_socket-Within p.conn.id s w h))
            (same, put_socket-Within p.conn.id s w h)
        where
          bound_id :
              (b : Bool) (q : Connection Handler)
              → (if b then set_close_callback q (some socket_closed) else q).conn.id ≡ q.conn.id
          bound_id true q = refl
          bound_id false q = refl

      run-Kept :
          (cb : Handler) (p : Connection Handler) (s : Server)
          → Within p.conn.id s
          → Ends (Kept p.conn.id) (run app memory execute d fuel cb p s)
      unfolding run handle_message
      run-Kept messages p s h = Ends-any (Kept p.conn.id) (socket_for app memory p s) _ λ w.
          Ends-any (Kept p.conn.id) (parse execute d app fuel w) _ λ w'. after_parse-Kept p s w' h
      run-Kept connections p s h = run_simple-Kept false connections p s h
      run-Kept closing p s h = run_simple-Kept false closing p s h
      run-Kept socket_closed p s h = run_simple-Kept false socket_closed p s h

      pub any_number :
          (n : ℕ) (cb : Handler) (p : Connection Handler) (s : Server)
          → p.conn.id ≡ n
          → Within n s
          → Ends (Kept n) (run app memory execute d fuel cb p s)
      any_number n cb p s e h =
          for_number (run app memory execute d fuel cb) (run-Kept cb) n p s e h
