-- ===== src/WebSocketConnection/Opening.antt =====
-- The opening handshake's decision: src/WebSocketConnection.cpp, `onHeaderComplete` and `parse`.

use websocket_engine.Base.{
  ℕ, ◌≤◌, ◌<◌, ◌≡◌, ◌⊎◌, Bool, false, not, List, ◌++◌, Option, none, some, ◌==◌, if◌then◌else◌,
  length, Outcome, ◌/◌, ◌%◌, [], ◌∷◌,
}
use websocket_engine.Base.Text.{codes, to_lower, find}
use websocket_engine.TcpConnection
use websocket_engine.TcpConnection.{TcpConnection}
use websocket_engine.WebSocketConnection.Types.{WebSocketConnection, Callbacks}
use websocket_engine.WebSocketConnection.HttpMethod.{http_get}
use websocket_engine.WebSocketConnection.Handshake.{Digests, crlf, upgrade_response, reject, accept}

-- A header that is there, with a value that satisfies `P`.
abbrev pub HasHeader : List (List ℕ × List ℕ) → List ℕ → (List ℕ → Type 0) → Type 0
HasHeader headers name P = (v : List ℕ) × (find name headers ≡ some v) × P v

-- A request that the server accepts, with the value of `Sec-WebSocket-Key`.
pub record IsUpgrade (method major minor : ℕ) (headers : List (List ℕ × List ℕ)) (key : List ℕ)
    : Type 0 where
  pub get : method ≡ http_get
  pub version : (1 < major) ⊎ ((major ≡ 1) × (1 ≤ minor))
  pub host : HasHeader headers (codes "Host") (λ v. 0 < length v)
  pub upgrade : HasHeader headers (codes "Upgrade") (λ v. to_lower v ≡ codes "websocket")
  pub connection : HasHeader headers (codes "Connection") (λ v. v ≡ codes "Upgrade")
  pub websocket_version : HasHeader headers (codes "Sec-WebSocket-Version") (λ v. v ≡ codes "13")
  pub named_key : find (codes "Sec-WebSocket-Key") headers ≡ some key
  pub key_size : length key ≡ 24

abbrev passes : (List ℕ → Bool) → Option (List ℕ) → Bool
passes test o = elim o [ none ↦ false | some v ↦ test v ]

abbrev of_key :
    Digests → Callbacks → WebSocketConnection → Option (List ℕ) → Outcome WebSocketConnection
of_key d app w o = elim o [
  | none ↦ reject w
  | some key ↦ if length key == 24 then accept d app w key else reject w
]

abbrev ladder {ℓ} : {A : Type ℓ} → (t1 t2 t3 t4 t5 t6 : Bool) → A → A → A
ladder t1 t2 t3 t4 t5 t6 r k =
    if not t1
    then r
    else if t2
    then r
    else if not t3
    then r
    else if not t4
    then r
    else if not t5
    then r
    else if not t6
    then r
    else k

-- The bytes of words of 32 bits, the highest first
abbrev pub word_bytes : List ℕ → List ℕ
word_bytes [] = []
word_bytes (v ∷ vs) =
    v / 0x1000000 % 256 ∷ v / 0x10000 % 256 ∷ v / 0x100 % 256 ∷ v % 256 ∷ word_bytes vs

-- RFC 6455's accept key: base64 of the SHA-1 of the nonce and the protocol's GUID.
abbrev pub accept_key : Digests → List ℕ → List ℕ
accept_key d nonce =
    d.base64_encode (word_bytes (d.sha1 (nonce ++ codes "258EAFA5-E914-47DA-95CA-C5AB0DC85B11")))

-- The response to an upgrade.
abbrev pub accepting : Digests → List ℕ → List ℕ
accepting d key =
    upgrade_response ++ (codes "Sec-WebSocket-Accept: " ++ (accept_key d key ++ (crlf ++ crlf)))
