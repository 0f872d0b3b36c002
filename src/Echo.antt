-- ===== src/Echo.antt =====
-- main.cpp: the echo server.
pub mod Answer
pub mod Served
pub mod Polite
mod Tests
use websocket_engine.Base.{ℕ, Bool, true, List, some, Outcome, ok, ◌>>=◌}
use websocket_engine.TcpServer
use websocket_engine.WebSocketServer
use websocket_engine.TcpConnection.{TcpConnection}
use websocket_engine.WebSocketServer.{Memory, Server, listen_on}
use websocket_engine.WebSocketConnection.Types.{WebSocketConnection, Callbacks}
use websocket_engine.WebSocketConnection.Send.{send_message_move}

-- The callbacks that the lambda given to `server.onConnection` sets, and the lambda, which does
-- nothing else. Those for pings, pongs and closing do nothing but log.
unfoldable pub app : Callbacks
app = record {
  on_connection = some λ w. ok w;
  on_close = some λ w. ok w;
  on_message = some λ text is_binary w. send_message_move w text is_binary;
  on_ping = some λ text w. ok w;
  on_pong = some λ text w. ok w;
}

-- The lambda for messages captures the connection. What a use of `conn_` comes to is a parameter.
abbrev pub memory : (TcpConnection → TcpConnection → Outcome TcpConnection) → Memory
memory reads = record { keeps = true; conn_reads = reads }

-- `uv_default_loop()`
abbrev pub default_loop : ℕ
default_loop = 0

-- `main`, with what a use of `conn_` comes to, the result of `uv_listen`, and what `uv_run` does and
-- returns. `main` only logs what `Listen` returns, and itself returns 0.
unfoldable pub main :
    (TcpConnection → TcpConnection → Outcome TcpConnection)
    → ℕ
    → ℕ
    → (Server → Outcome (ℕ × Server))
    → Outcome (ℕ × Server)
unfolding WebSocketServer.new TcpServer.listen
main reads junk ret uv_run = do
  (result, s) ← listen_on app (memory reads) ret uv_run (WebSocketServer.new default_loop junk)
  ok (0, s)
