-- ===== src/WebSocketConnection/Handshake.antt =====
-- The opening handshake: src/WebSocketConnection.cpp, the callbacks of the HTTP parser,
-- `onHeaderComplete`, `computeAcceptKey` and `parse`. The HTTP parser (src/http_parser.c is a copy of
-- another project's) and Boost's SHA-1 and base64 are parameters.
use mathlib.Core.List.{flat_map}
use websocket_engine.Base.{
  ℕ, Bool, false, not, ◌&&◌, ◌||◌, List, [], ◌∷◌, ◌++◌, none, some, ltb, leb, ◌==◌, if◌then◌else◌,
  length, Outcome, ok, assert, ◌>>=◌, ◌>>◌,
}
use websocket_engine.Base.Text.{codes, bytes_eq, to_lower, find, insert_new}
use websocket_engine.Buffer.{readable_bytes, contents, network, retrieve}
use websocket_engine.TcpConnection
use websocket_engine.TcpConnection.{TcpConnection}
use websocket_engine.WebSocketConnection.Types.{
  WebSocketConnection, Callbacks, is_initial, is_connect, is_closing, set_input, handle_connection,
}
use websocket_engine.WebSocketConnection.Decode.{decode}
use websocket_engine.WebSocketConnection.HttpMethod.{HttpMethod, method_number, http_get}

-- The callbacks that the HTTP parser makes, with their data. The last is `on_headers_complete`,
-- with the method and the version that the parser has found.
pub data HttpEvent : Type 0 where
  message_begin message_complete : HttpEvent
  url body header_field header_value : List ℕ → HttpEvent
  headers_complete : HttpMethod → ℕ → ℕ → HttpEvent

-- `http_parser_execute`: from the chunks fed before and the one given, the callbacks it makes and
-- the number of bytes that it takes.
abbrev pub HttpParser : Type 0
HttpParser = List (List ℕ) → List ℕ → List HttpEvent × ℕ

-- SHA-1 as five words, and base64.
pub record Digests : Type 0 where
  pub sha1 : List ℕ → List ℕ
  pub base64_encode : List ℕ → List ℕ

abbrev pub crlf : List ℕ
crlf = 13 ∷ 10 ∷ []

abbrev pub bad_request : List ℕ
bad_request = codes "HTTP/1.1 400 Bad Request" ++ (crlf ++ crlf)

abbrev pub upgrade_response : List ℕ
upgrade_response =
    codes "HTTP/1.1 101 Switching Protocols"
    ++ (crlf ++ (codes "Upgrade: websocket" ++ (crlf ++ (codes "Connection: Upgrade" ++ crlf))))

abbrev pub magic : List ℕ
magic = codes "258EAFA5-E914-47DA-95CA-C5AB0DC85B11"

unfoldable pub compute_accept_key : Digests → List ℕ → List ℕ
compute_accept_key d nonce = d.base64_encode (flat_map (network 4) (d.sha1 (nonce ++ magic)))

-- What `onHeaderComplete` does where it refuses.
unfoldable pub reject : WebSocketConnection → Outcome WebSocketConnection
reject w = do
  conn ← TcpConnection.send w.conn bad_request
  conn' ← TcpConnection.close conn
  ok (record w { conn = conn' })

-- The value of a header, if it is there and passes a test.
abbrev pub has_value : WebSocketConnection → List ℕ → (List ℕ → Bool) → Bool
has_value w name test = elim (find name w.headers) [ none ↦ false | some v ↦ test v ]

-- The end of `onHeaderComplete`, with the value of `Sec-WebSocket-Key`.
unfoldable pub accept :
    Digests → Callbacks → WebSocketConnection → List ℕ → Outcome WebSocketConnection
accept d app w key = do
  conn ← TcpConnection.send w.conn (
      upgrade_response
      ++ (codes "Sec-WebSocket-Accept: " ++ (compute_accept_key d key ++ (crlf ++ crlf))))
  handle_connection app (record w { conn = conn })

-- The last test, on `Sec-WebSocket-Key`.
unfoldable pub check_key : Digests → Callbacks → WebSocketConnection → Outcome WebSocketConnection
unfolding accept reject
check_key d app w = elim (find (codes "Sec-WebSocket-Key") w.headers) [
  | none ↦ reject w
  | some key ↦ if length key == 24 then accept d app w key else reject w
]

unfoldable pub on_header_complete :
    Digests → Callbacks → ℕ → ℕ → ℕ → WebSocketConnection → Outcome WebSocketConnection
unfolding check_key reject
on_header_complete d app method http_major http_minor w =
    if not (method == http_get)
    then reject w
    else if leb http_major 1 && ltb http_minor 1
    then reject w
    else if not (has_value w (codes "Host") (λ v. ltb 0 (length v)))
    then reject w
    else if not (has_value w (codes "Upgrade") (λ v. bytes_eq (to_lower v) (codes "websocket")))
    then reject w
    else if not (has_value w (codes "Connection") (λ v. bytes_eq v (codes "Upgrade")))
    then reject w
    else if not (has_value w (codes "Sec-WebSocket-Version") (λ v. bytes_eq v (codes "13")))
    then reject w
    else check_key d app w

unfoldable pub set_last_header_field : List ℕ → WebSocketConnection → WebSocketConnection
set_last_header_field field w = record w { last_header_field = field }

unfoldable pub set_header_value : List ℕ → WebSocketConnection → Outcome WebSocketConnection
set_header_value value w = do
  assert (ltb 0 (length w.last_header_field))
  ok (record w { headers = insert_new w.last_header_field value w.headers; last_header_field = [] })

-- The callbacks `on_url` to `on_data_cb`.
unfoldable pub on_event :
    Digests → Callbacks → HttpEvent → WebSocketConnection → Outcome WebSocketConnection
unfolding set_last_header_field set_header_value on_header_complete
on_event d app message_begin w = ok w
on_event d app message_complete w = ok w
on_event d app (url text) w = ok w
on_event d app (body text) w = ok w
on_event d app (header_field field) w = ok (set_last_header_field field w)
on_event d app (header_value value) w = set_header_value value w
on_event d app (headers_complete method major minor) w =
    on_header_complete d app (method_number method) major minor w

unfoldable pub on_events :
    Digests → Callbacks → List HttpEvent → WebSocketConnection → Outcome WebSocketConnection
unfolding on_event
on_events d app [] w = ok w
on_events d app (e ∷ es) w = do w' ← on_event d app e w; on_events d app es w'

-- `parse`. The fuel is `decode`'s.
unfoldable pub parse :
    HttpParser → Digests → Callbacks → ℕ → WebSocketConnection → Outcome WebSocketConnection
unfolding on_events
parse execute d app fuel w =
    if ltb (readable_bytes w.conn.buf) w.wanted
    then ok w
    else if is_initial w.status
    then (do
      let chunk = contents w.conn.buf
      let (events, nparsed) = execute w.chunks chunk
      w' ← on_events d app events (record w { chunks = w.chunks ++ (chunk ∷ []) })
      b ← retrieve w'.conn.buf nparsed
      ok (set_input w' b))
    else if is_connect w.status || is_closing w.status
    then decode app fuel w
    else ok w
