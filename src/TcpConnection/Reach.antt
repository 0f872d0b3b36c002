-- ===== src/TcpConnection/Reach.antt =====
-- src/TcpConnection.cpp: the histories of a connection whose writes succeed.
use mathlib.Core.List.{append-nil}
use mathlib.Core.Path.{subst}
use websocket_engine.Base.{
  ℕ, ◌+◌, ◌≤◌, ◌<◌, ◌≡◌, refl, sym, ap, ◌∙◌, ◌⊎◌, inl, inr, false, List, [], ◌++◌, arith, length,
  Outcome, ok, abort, stuck, ◌>>=◌,
}
use websocket_engine.Buffer.{Buffer, contents}
use websocket_engine.Buffer.Space.{IsValid, ensure_space-HasRoom}
use websocket_engine.Buffer.Queue.{Holds, received-Holds, new-IsValid}
use websocket_engine.TcpConnection.{
  TcpConnection, StateE, connecting, connected, disconnected, disconnecting, writting, new, send,
  send_message, handle_close, write_done, receive, uv_alloc, connection_established,
  min_writable_size,
}
use websocket_engine.TcpConnection.State.{handle_close_gone}
use websocket_engine.TcpConnection.Stream.{
  stream, IsBusy, IsOpen, Inv, write_done-Inv, send-Inv, handle_close-Inv, send_message-Inv,
}

-- `on_uv_read` finds what libuv stored, as long as that is no more than `on_uv_alloc` offered: it
-- stands behind what was buffered, which is kept, and is counted.
pub receive-Holds :
    (c : TcpConnection) (got : List ℕ)
    → IsValid c.buf
    → length got ≤ (uv_alloc c).1
    → (c' : TcpConnection) × (receive (uv_alloc c).0 got ≡ ok c')
      × Holds c'.buf (contents c.buf ++ got)
      × (c'.bytes_read ≡ c.bytes_read + length got)
unfolding receive uv_alloc
receive-Holds c got v h =
    let room = ensure_space-HasRoom min_writable_size v in
    let (b, e, k) = received-Holds got room.valid (omega (arith, room.inside)) in
    (
      record c { buf = b; bytes_read = c.bytes_read + length got },
      rw e,
      record { valid = k.valid; held = k.held ∙ ap (λ t. t ++ got) room.kept },
      refl,
    )

-- One event of a connection, with the bytes that it takes for sending.
pub data Step (c : TcpConnection) : List ℕ → TcpConnection → Type 0 where
  established : c.state ≡ connecting → Step c [] (connection_established c)
  sends : (bytes : List ℕ) {c' : TcpConnection} → send c bytes ≡ ok c' → Step c bytes c'
  queues :
      {header : Buffer} (body : List ℕ) {c' : TcpConnection} {header' : Buffer}
      → IsValid header
      → c.state ≡ writting
      → send_message c header body ≡ ok (c', header')
      → Step c (contents header ++ body) c'
  closes : {c' : TcpConnection} → handle_close c ≡ ok c' → Step c [] c'
  completes : {c' : TcpConnection} → 0 < c.in_flight → write_done c false ≡ ok c' → Step c [] c'
  reads : (got : List ℕ) {c' : TcpConnection} → receive (uv_alloc c).0 got ≡ ok c' → Step c [] c'

pub data Reach (c : TcpConnection) : List ℕ → TcpConnection → Type 0 where
  start : Reach c [] c
  next :
      {said more : List ℕ} {d e : TcpConnection}
      → Reach c said d
      → Step d more e
      → Reach c (said ++ more) e

state_cases :
    (s : StateE)
    → ((s ≡ connected) ⊎ (s ≡ connecting))
      ⊎ (s ≡ writting)
      ⊎ (s ≡ disconnected)
      ⊎ (s ≡ disconnecting)
state_cases connecting = inl (inr refl)
state_cases connected = inl (inl refl)
state_cases disconnected = inr (inr (inl refl))
state_cases disconnecting = inr (inr (inr refl))
state_cases writting = inr (inl refl)

in_flight-IsBusy : {c : TcpConnection} → Inv c → 0 < c.in_flight → IsBusy c
in_flight-IsBusy {c} v h = elim (state_cases c.state) [
  | inl o ↦ absurd (omega (arith, v.idle o))
  | inr (inl w) ↦ inl w
  | inr (inr (inl g)) ↦ absurd (omega (arith, v.gone g))
  | inr (inr (inr d)) ↦ inr d
]

-- `c'` is sound, and has taken `bytes` more than `c`.
abbrev Takes : TcpConnection → List ℕ → TcpConnection → Type 0
Takes c bytes c' = Inv c' × (stream c' ≡ stream c ++ bytes)

-- What an operation is proved to return is what it returned.
same_end :
    {A : Type 0} (P : A → Type 0) {o : Outcome A} {d d' : A} → o ≡ ok d → o ≡ ok d' → P d → P d'
same_end P {o} {d} {d'} p q t = let e : d ≡ d' = cc in subst P e t

established-Takes :
    {c : TcpConnection} → Inv c → c.state ≡ connecting → Takes c [] (connection_established c)
unfolding connection_established
established-Takes {c} v s = (
  ground
      (arith, v.output, v.idle (inr s), v.untold (inr (inr s)), v.quiet (inr s), v.first (inr s)),
  sym (append-nil (stream c)),
)

sends-Takes :
    {c c' : TcpConnection} (bytes : List ℕ) → Inv c → send c bytes ≡ ok c' → Takes c bytes c'
sends-Takes {c} bytes v e = elim (send-Inv bytes v) [
  | inl (d, f, i, s, _, _, _, _) ↦ same_end (Takes c bytes) f e (i, s)
  | inr (f, _, _) ↦ cc
]

queues-Takes :
    {c c' : TcpConnection} {header header' : Buffer} (body : List ℕ)
    → Inv c
    → IsValid header
    → c.state ≡ writting
    → send_message c header body ≡ ok (c', header')
    → Takes c (contents header ++ body) c'
queues-Takes {c} {header = header} body v hv w e =
    let (d, f, i, s) = send_message-Inv body v hv w in
    same_end (λ (p : TcpConnection × Buffer). Takes c (contents header ++ body) p.0) f e (i, s)

closes-Takes : {c c' : TcpConnection} → Inv c → handle_close c ≡ ok c' → Takes c [] c'
closes-Takes {c} {c'} v e = elim (state_cases c.state) [
  | inl o ↦ closed (inl o)
  | inr (inl w) ↦ closed (inr w)
  | inr (inr g) ↦ cc (handle_close_gone c g)
]
  where
    closed : (IsOpen c) ⊎ (c.state ≡ writting) → Takes c [] c'
    closed h =
        let (d, f, i, s) = handle_close-Inv v h in
        same_end (Takes c []) f e (i, s ∙ sym (append-nil (stream c)))

completes-Takes :
    {c c' : TcpConnection} → Inv c → 0 < c.in_flight → write_done c false ≡ ok c' → Takes c [] c'
completes-Takes {c} v h e =
    let (d, f, i, s) = write_done-Inv v (in_flight-IsBusy v h) in
    same_end (Takes c []) f e (i, s ∙ sym (append-nil (stream c)))

stored-Takes :
    {c c' : TcpConnection} (n : ℕ) (o : Outcome Buffer)
    → Inv c
    → (o >>= λ b. ok (record c { buf = b; bytes_read = n })) ≡ ok c'
    → Takes c [] c'
stored-Takes {c} n (ok b) v e =
    same_end (Takes c []) {d = record c { buf = b; bytes_read = n }} refl e
      (ground (arith, v), sym (append-nil (stream c)))
stored-Takes n abort v e = cc
stored-Takes n stuck v e = cc

reads-Takes :
    {c c' : TcpConnection} (got : List ℕ)
    → Inv c
    → receive (uv_alloc c).0 got ≡ ok c'
    → Takes c [] c'
unfolding receive uv_alloc
reads-Takes {c} got v e = stored-Takes {c = (uv_alloc c).0} _ _ (ground (arith, v)) e

Step-Takes : {c c' : TcpConnection} {bytes : List ℕ} → Inv c → Step c bytes c' → Takes c bytes c'
Step-Takes v (established s) = established-Takes v s
Step-Takes v (sends bytes e) = sends-Takes bytes v e
Step-Takes v (queues body hv w e) = queues-Takes body v hv w e
Step-Takes v (closes e) = closes-Takes v e
Step-Takes v (completes h e) = completes-Takes v h e
Step-Takes v (reads got e) = reads-Takes got v e

new-Inv : (loop id junk : ℕ) → Inv (new loop id junk) × (stream (new loop id junk) ≡ [])
unfolding new
new-Inv loop id junk = let (h, e) = new-IsValid 1024 in (ground (arith, h), e)

-- In every history of a new connection in which no write fails and `send(Buffer&, String&&)` is
-- called only while a write is under way: the bytes handed to libuv, followed by those that
-- wait, are exactly the bytes given to the `send` functions, in that order; exactly one request is
-- with libuv in the states `kWritting` and `kDisconnecting`, and none in the others; so no
-- request is outstanding when the owners are told that the connection is gone, which happens once.
pub Reach-Inv :
    (loop id junk : ℕ) {said : List ℕ} {c : TcpConnection}
    → Reach (new loop id junk) said c
    → Inv c × (stream c ≡ said)
Reach-Inv loop id junk start = new-Inv loop id junk
Reach-Inv loop id junk (next {said = said} {more = more} r s) =
    let (v, e) = Reach-Inv loop id junk r in
    let (w, f) = Step-Takes v s in (w, f ∙ ap (λ t. t ++ more) e)
