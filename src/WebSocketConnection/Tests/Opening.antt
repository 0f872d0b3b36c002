-- ===== src/WebSocketConnection/Tests/Opening.antt =====
-- The opening handshake at a concrete request.
use websocket_engine.Base.{ℕ, ◌≡◌, refl, inr, List, [], ◌∷◌, arith, length}
use websocket_engine.Base.Text.{codes, find, bytes_eq, to_lower}
use websocket_engine.TcpConnection.{TcpConnection}
use websocket_engine.WebSocketConnection.Types.{WebSocketConnection}
use websocket_engine.WebSocketConnection.HttpMethod.{http_get}
use websocket_engine.WebSocketConnection.Handshake.{Digests, on_header_complete}
use websocket_engine.WebSocketConnection.Opening.{IsUpgrade}
use websocket_engine.WebSocketConnection.Tests.{opened, app}

abbrev digests : Digests
digests = record { sha1 = λ xs. length xs ∷ []; base64_encode = λ xs. xs }

abbrev nonce : List ℕ
nonce = codes "dGhlIHNhbXBsZSBub25jZQ=="

-- A request with the headers that the handshake wants.
abbrev request : WebSocketConnection
request = record (opened [] []) {
  headers =
      (codes "Host", codes "example.com")
      ∷ (codes "Upgrade", codes "WebSocket")
      ∷ (codes "Connection", codes "Upgrade")
      ∷ (codes "Sec-WebSocket-Version", codes "13")
      ∷ (codes "Sec-WebSocket-Key", nonce)
      ∷ [];
}

test_accepted : IsUpgrade http_get 1 1 request.headers nonce
unfolding find bytes_eq to_lower
test_accepted = record {
  get = refl;
  version = inr (omega arith);
  host = (codes "example.com", refl, omega arith);
  upgrade = (codes "WebSocket", refl, refl);
  connection = (codes "Upgrade", refl, refl);
  websocket_version = (codes "13", refl, refl);
  named_key = refl;
  key_size = refl;
}

-- Version 0.9 is taken for one that is at least 1.1.
test_old_version :
    on_header_complete digests app http_get 0 9 request
    ≡ on_header_complete digests app http_get 1 1 request
unfolding on_header_complete
test_old_version = refl
