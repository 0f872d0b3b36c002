-- ===== src/WebSocketConnection/Header/Stages.antt =====
-- src/WebSocketConnection.cpp: what holds between the stages of reading a header.
use websocket_engine.Base.{
  ℕ, ◌%◌, ◌^◌, ◌≤◌, ◌<◌, ◌≡◌, refl, ap, ◌∙◌, ◌⊎◌, true, false, List, arith, leb, if◌then◌else◌,
  length, drop, Outcome, ok, ◌>>=◌,
}
use websocket_engine.Buffer.{Buffer, readable_bytes, unread}
use websocket_engine.Buffer.Space.{IsValid}
use websocket_engine.Buffer.Queue.{Holds, readable-Holds, advance, advance-Holds, unread-advance}
use websocket_engine.TcpConnection.{TcpConnection}
use websocket_engine.WebSocketConnection.Types.{WebSocketConnection, set_input}
use websocket_engine.WebSocketConnection.Decode.{HeaderEnd, parsed, short, wait_for}
use websocket_engine.WebSocketConnection.Header.{is_masked, Untouched, Waits}

-- The bytes of the mask key in a header.
abbrev pub key_size : ℕ → ℕ
key_size y = if is_masked y then 4 else 0

-- `v` is `w` with the header read up to the mask key, which is `n` bytes; `zs` is left.
pub record Reading (w : WebSocketConnection) (x y n payload : ℕ) (zs : List ℕ)
    (v : WebSocketConnection) : Type 0 where
  pub behind : v.conn.buf ≡ advance w.conn.buf n
  pub within : n ≤ readable_bytes w.conn.buf
  pub left : Holds v.conn.buf zs
  pub fin : v.is_fin ≡ leb 128 x
  pub code : v.opcode ≡ x % 16
  pub mask : v.masked ≡ is_masked y
  pub size : v.payload_length ≡ payload
  pub key : v.mask_key ≡ w.mask_key
  pub rest : Untouched w v

-- The header is read: the fields are set by it, and `zs` is left.
pub record Read (w : WebSocketConnection) (x y payload : ℕ) (bytes zs : List ℕ)
    (w' : WebSocketConnection) : Type 0 where
  pub fin : w'.is_fin ≡ leb 128 x
  pub code : w'.opcode ≡ x % 16
  pub mask : w'.masked ≡ is_masked y
  pub size : w'.payload_length ≡ payload
  pub key : is_masked y ≡ true → w'.mask_key ≡ bytes
  pub left : Holds w'.conn.buf zs
  pub capacity : length w'.conn.buf.buf ≡ length w.conn.buf.buf
  pub rest : Untouched w w'

-- Either the header is not complete, and `o` waits; or it is, and `o` has read it.
abbrev pub Ends :
    WebSocketConnection
    → ℕ
    → ℕ
    → ℕ
    → ℕ
    → ℕ
    → List ℕ
    → List ℕ
    → Outcome (WebSocketConnection × HeaderEnd)
    → Type 0
Ends w x y have size payload key zs o =
    ((have < size) × Waits w w.conn.buf have size o)
    ⊎ ((size ≤ have)
        × (w' : WebSocketConnection) × (o ≡ ok (w', parsed))
        × Read w x y payload key zs w')

pub Untouched-trans : (u v w : WebSocketConnection) → Untouched u v → Untouched v w → Untouched u w
Untouched-trans u v w p q = (
  q.0 ∙ p.0,
  q.1 ∙ p.1,
  q.2 ∙ p.2,
  q.3 ∙ p.3,
  q.4 ∙ p.4,
  ap {A = TcpConnection} (λ c. record c { buf = u.conn.buf }) q.5 ∙ p.5,
)

-- `wait_for` puts back what was read since `w`.
pub wait_back :
    (w v : WebSocketConnection) (want n : ℕ)
    → IsValid w.conn.buf
    → length w.conn.buf.buf < 2 ^ 63
    → n ≤ readable_bytes w.conn.buf
    → v.conn.buf ≡ advance w.conn.buf n
    → Untouched w v
    → (have size : ℕ) → have < want
    → want ≤ size
    → Waits w w.conn.buf have size (wait_for v want n)
unfolding wait_for
wait_back w v want n i small h e u have size p q = (
  set_input (record v { header_read = false; wanted = want }) w.conn.buf,
  ap
        (λ b. unread b n >>= λ b'.
          ok (set_input (record v { header_read = false; wanted = want }) b', short))
        e
      ∙ rw (unread-advance n i small h) refl,
  refl,
  refl,
  p,
  q,
  (u.0, u.1, u.2, u.3, u.4, u.5),
)

pub Ends-cast :
    (w : WebSocketConnection) (x y : ℕ) {have have' size size' payload payload' : ℕ}
    {key key' zs zs' : List ℕ} {o o' : Outcome (WebSocketConnection × HeaderEnd)}
    → have ≡ have'
    → size ≡ size'
    → payload ≡ payload'
    → key ≡ key'
    → zs ≡ zs'
    → o ≡ o'
    → Ends w x y have' size' payload' key' zs' o'
    → Ends w x y have size payload key zs o
Ends-cast w x y a b c d e f t = rw (a, b, c, d, e, f) t

pub drop_left :
    {b : Buffer} {zs : List ℕ} (n : ℕ)
    → Holds b zs
    → n ≤ length zs
    → Holds (advance b n) (drop n zs)
drop_left n k h =
    let moved = advance-Holds n k.valid (omega (arith, readable-Holds k)) in
    record { valid = moved.valid; held = moved.held ∙ ap (drop n) k.held }
