-- ===== src/WebSocketServer/Events.antt =====
-- src/TcpServer.cpp and src/WebSocketServer.cpp: each event touches one connection only.

use websocket_engine.Base.{ℕ, ◌<◌, ◌≡◌}
use websocket_engine.TcpConnection.Callbacks
use websocket_engine.TcpConnection.Callbacks.{Connection}
use websocket_engine.TcpConnection
use websocket_engine.WebSocketConnection.Types.{Callbacks}
use websocket_engine.WebSocketServer.{Handler, Server}
use websocket_engine.WebSocketServer.Isolation.{Numbered, SameOthers}

-- A server that differs from `s0` in the connection `n` only, and is numbered.
abbrev pub Touches : Server → ℕ → Server → Type 0
Touches s0 n s = Numbered s × SameOthers n s0 s

-- A server right after it has got a new connection.
abbrev Accepted : Server → Connection Handler × Server → Type 0
Accepted s0 out =
    (out.0.conn.id ≡ s0.next_id) × (s0.next_id < out.1.next_id) × Touches s0 s0.next_id out.1

-- Nothing that concerns the connections has changed.
abbrev SameMaps : {A : Type 0} → Server → A × Server → Type 0
SameMaps s0 out =
    (out.1.connection_map ≡ s0.connection_map)
    × (out.1.more ≡ s0.more)
    × (out.1.next_id ≡ s0.next_id)
