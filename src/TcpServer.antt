-- ===== src/TcpServer.antt =====
-- include/ws/TcpServer.h and src/TcpServer.cpp: the server that accepts connections and owns them.
-- `X` is what a class derived from it adds. libuv and the system are parameters: what they answer is
-- an argument. Error codes are numbers, 0 for success, of which the code only tests for 0.
use websocket_engine.Base.{
  ℕ, ◌+◌, Bool, true, false, not, List, [], ◌∷◌, ◌++◌, Option, none, some, ◌==◌, if◌then◌else◌,
  Outcome, ok, stuck, assert, ◌>>=◌, ◌>>◌,
}
use websocket_engine.Base.Table.{lookup, has_key, assign, erase}
use websocket_engine.EventLoopThreadPool
use websocket_engine.EventLoopThreadPool.{EventLoopThreadPool, set_thread_nums, get_next_loop}
use websocket_engine.TcpConnection.{start_read}
use websocket_engine.TcpConnection.Callbacks.{
  Callback, Connection, create, create_open, destroy, with_conn, connection_established,
  set_message_callback, set_connection_callback, set_close_callback,
}

-- `connectionMap_` holds the connection objects, since it owns them. `released` is a ghost: the
-- objects that were destroyed, in order. `is_open` says whether the listening handle is.
pub record TcpServer (C X : Type 0) : Type 0 where
  pub next_id : ℕ
  pub loop : ℕ
  pub pool : EventLoopThreadPool
  pub listened : Bool
  pub fd : ℕ
  pub fetched : Bool
  pub message_callback : Option C
  pub connection_callback : Option C
  pub connection_map : List (ℕ × Connection C)
  pub is_open : Bool
  pub released : List (Connection C)
  pub more : X

-- What the system and libuv report when a connection comes in: the descriptor of the listening
-- socket, what `accept` or `uv_accept` leaves open, if anything, and what an uninitialised field
-- of the new object holds.
pub record Incoming : Type 0 where
  pub server_fd : ℕ
  pub accepted : Option ℕ
  pub junk : ℕ

-- The types of callbacks, as the server has them: the owner's state is the server.
abbrev pub ServerCallback : Type 0 → Type 0 → Type 0
ServerCallback C X = Callback C (TcpServer C X)

module _ {C X : Type 0} where
  -- The constructor. `fd_` is not initialised.
  unfoldable pub new : ℕ → ℕ → X → TcpServer C X
  unfolding EventLoopThreadPool.new set_thread_nums
  new loop junk more = record {
    next_id = 0;
    loop = loop;
    pool = set_thread_nums [] (EventLoopThreadPool.new loop);
    listened = false;
    fd = junk;
    fetched = false;
    message_callback = none;
    connection_callback = none;
    connection_map = [];
    is_open = true;
    released = [];
    more = more;
  }

  -- The setters, each with its overload for an rvalue
  abbrev pub set_messages : TcpServer C X → Option C → TcpServer C X
  set_messages s cb = record s { message_callback = cb }

  abbrev pub set_connections : TcpServer C X → Option C → TcpServer C X
  set_connections s cb = record s { connection_callback = cb }

  -- `getNextId`
  unfoldable pub get_next_id : TcpServer C X → ℕ × TcpServer C X
  get_next_id s = (s.next_id, record s { next_id = s.next_id + 1 })

  -- `stream`; the handle stands for whether it is open
  abbrev pub stream : TcpServer C X → Bool
  stream s = s.is_open

  -- `server_fd` is what libuv says.
  unfoldable pub get_native_fd : ℕ → TcpServer C X → Outcome (ℕ × TcpServer C X)
  get_native_fd server_fd s = do
    assert s.listened
    ok (if s.fetched then (s.fd, s) else (server_fd, record s { fd = server_fd; fetched = true }))

  -- `native_accept`, with what `accept` returns
  unfoldable pub native_accept : Incoming → TcpServer C X → Outcome (Option ℕ × TcpServer C X)
  unfolding get_native_fd
  native_accept uv s = do (fd, s') ← get_native_fd uv.server_fd s; ok (uv.accepted, s')

  -- `getWorkerLoop`; `stuck` would be a read past the end of the pool's vector.
  unfoldable pub get_worker_loop : TcpServer C X → Outcome (ℕ × TcpServer C X)
  unfolding get_next_loop
  get_worker_loop s =
      let (pool, loop) = get_next_loop s.pool in
      elim loop [ none ↦ stuck | some l ↦ ok (l, record s { pool = pool }) ]

  abbrev pub get_main_loop : TcpServer C X → ℕ
  get_main_loop s = s.loop

  unfoldable pub add_tcp_connection : TcpServer C X → Connection C → TcpServer C X
  add_tcp_connection s p = record s { connection_map = assign p.conn.id p s.connection_map }

  -- `~TcpServer`
  unfoldable pub close_handle : TcpServer C X → TcpServer C X
  close_handle s = record s { is_open = false }

  -- `setNumberThreads`, with the loops of the threads that it starts
  unfoldable pub set_number_threads : TcpServer C X → List ℕ → TcpServer C X
  unfolding set_thread_nums
  set_number_threads s made = record s { pool = set_thread_nums made s.pool }

  unfoldable pub is_single_thread : TcpServer C X → Bool
  unfolding EventLoopThreadPool.is_single_thread
  is_single_thread s = EventLoopThreadPool.is_single_thread s.pool

  -- `closeConnection`. The object lives until the handler that called it ends.
  unfoldable pub close_connection :
      Connection C → TcpServer C X → Outcome (Connection C × TcpServer C X)
  close_connection p s = do
    assert (has_key p.conn.id s.connection_map)
    ok (p, record s { connection_map = erase p.conn.id s.connection_map })

  -- The end of a handler that ran on `p`: the map's object is the one that the handler had; if the
  -- map gave it up, it is destroyed.
  unfoldable pub finish : Connection C → TcpServer C X → TcpServer C X
  unfolding destroy
  finish p s =
      if has_key p.conn.id s.connection_map
      then record s { connection_map = assign p.conn.id p s.connection_map }
      else record s { released = s.released ++ (destroy p ∷ []) }

  -- An event that libuv reports for the connection with the number `id`: a read, or the completion
  -- of a write. A connection that is not there has no handle.
  unfoldable pub on_event : ServerCallback C X → ℕ → TcpServer C X → Outcome (TcpServer C X)
  unfolding finish
  on_event handler id s = elim (lookup id s.connection_map) [
    | none ↦ ok s
    | some p ↦ do (p', s') ← handler p s; ok (finish p' s')
  ]

  -- The first part of `on_uv_connection`, up to the two calls of `addTcpConnection`.
  unfoldable pub accept_connection :
      Incoming → TcpServer C X → Outcome (Connection C × TcpServer C X)
  unfolding get_next_id add_tcp_connection is_single_thread native_accept create create_open
  accept_connection uv s =
      if is_single_thread s
      then (let (id, s') = get_next_id s in
          let made : Connection C = create (get_main_loop s) id uv.junk in
          let accepted : Connection C = record made { fd = uv.accepted } in
          ok (accepted, add_tcp_connection s' accepted))
      else (do
        (fd, s1) ← native_accept uv s
        (loop, s2) ← get_worker_loop s1
        let (id, s3) = get_next_id s2
        let made : Connection C = record (create loop id uv.junk) { fd = fd }
        ok (made, add_tcp_connection s3 made))

  module _ (run : C → ServerCallback C X) (closing : C) where
    -- `on_uv_connection`; `closing` is the callback that runs `closeConnection`.
    unfoldable pub on_uv_connection : Bool → Incoming → TcpServer C X → Outcome (TcpServer C X)
    unfolding accept_connection connection_established finish start_read
    on_uv_connection true uv s = ok s
    on_uv_connection false uv s = do
      (p, s1) ← accept_connection uv s
      let heard = set_message_callback p s.message_callback
      let watched = set_connection_callback heard s.connection_callback
      (p', s2) ← connection_established run (set_close_callback watched (some closing)) s1
      ok (finish (with_conn p' (start_read p'.conn)) s2)

    -- `onAsyncCb`, which nothing registers
    unfoldable pub on_async : Connection C → TcpServer C X → Outcome (Connection C × TcpServer C X)
    unfolding connection_established
    on_async p s = connection_established run p s

  -- `listen`, with the result of `uv_listen` and what `uv_run` does to the server and returns
  unfoldable pub listen :
      ℕ
      → (TcpServer C X → Outcome (ℕ × TcpServer C X))
      → TcpServer C X
      → Outcome (ℕ × TcpServer C X)
  listen ret uv_run s =
      if not (ret == 0) then ok (ret, s) else uv_run (record s { listened = true })
