-- ===== src/WebSocketConnection/Termination.antt =====
-- Whether `decode` ends: src/WebSocketConnection.cpp.
use websocket_engine.Base.{
  ℕ, zero, suc, ◌+◌, ◌<◌, ◌≡◌, ◌≢◌, ◌⊎◌, Lands-ends, ltb→lt, refl, sym, ◌∙◌, Bool, true, false, inl,
  inr, arith, ltb, le→leb, le→ltb_false, Bool-cases, Outcome, ok, stuck, abort, Lands,
  if◌then◌else◌,
}
use websocket_engine.Buffer.{Buffer, readable_bytes, peek, retrieve, write, write_from}
use websocket_engine.Buffer.Queue.{advance}
use websocket_engine.WebSocketConnection.Types.{
  WebSocketConnection, Callbacks, is_connect, set_input,
}
use websocket_engine.WebSocketConnection.Decode.{
  Handled, dispatch, decode_step, decode, read_payload, unmask_buf,
}
use websocket_engine.WebSocketConnection.Frames.{step_read}
use websocket_engine.WebSocketConnection.Fragments.{decode_goes}
use websocket_engine.WebSocketConnection.Progress.{Ignored}
use websocket_engine.WebSocketConnection.Progress.Switch.{IsPolite, Settled, Goes, decode_step-Goes}

-- The header of an empty close frame is taken as read, the connection is not open, and there is more in
-- the input.
pub record Spins (w : WebSocketConnection) : Type 0 where
  pub read : w.header_read ≡ true
  pub kind : w.opcode ≡ 8
  pub size : w.payload_length ≡ 0
  pub status : is_connect w.status ≡ false
  pub more : 0 < readable_bytes w.conn.buf

dispatch_ignored :
    (app : Callbacks) (w : WebSocketConnection) (origin : ℕ)
    → w.opcode ≡ 8
    → is_connect w.status ≡ false
    → dispatch app w origin ≡ ok (w, true)
unfolding dispatch
dispatch_ignored app w origin o s = ground arith

write_none :
    (b src : Buffer) (len : ℕ)
    → len ≡ 0
    → 0 < readable_bytes src
    → write_from b src len ≡ ok (write b (peek src len), advance src len)
unfolding write_from retrieve
write_none b src len e h = rw (le→leb (src.read_index + len) src.write_index (omega arith)) refl

-- The state behind a turn that takes an empty payload.
abbrev turned : WebSocketConnection → WebSocketConnection
turned w =
    let b = write w.decode_buf (peek w.conn.buf w.payload_length) in
    let filled = if w.masked then unmask_buf b w.mask_key (readable_bytes w.decode_buf) else b in
    set_input (record w { header_read = true; decode_buf = filled })
      (advance w.conn.buf w.payload_length)

spin_step :
    (app : Callbacks) (w : WebSocketConnection) → Spins w → decode_step app w ≡ ok (turned w, true)
unfolding read_payload
spin_step app w s =
    step_read app w s.read
    ∙ rw
        (
          le→ltb_false (readable_bytes w.conn.buf) w.payload_length (omega (arith, s.size)),
          write_none w.decode_buf w.conn.buf w.payload_length s.size s.more,
        )
        (dispatch_ignored app (turned w) (readable_bytes w.decode_buf) s.kind s.status)

turned-Spins : (w : WebSocketConnection) → Spins w → Spins (turned w)
turned-Spins w s = record {
  read = refl;
  kind = s.kind;
  size = s.size;
  status = s.status;
  more = omega (arith, s.more, s.size);
}

pub Spins-decode :
    (app : Callbacks) (fuel : ℕ) (w : WebSocketConnection) → Spins w → decode app fuel w ≡ stuck
unfolding decode
Spins-decode app zero w s = refl
Spins-decode app (suc fuel) w s =
    let t = turned-Spins w s in
    decode_goes app w fuel (spin_step app w s) t.more ∙ Spins-decode app fuel (turned w) t

-- The levels of `decode`'s recursion that a connection goes through
pub data Reaches (app : Callbacks) : WebSocketConnection → WebSocketConnection → Type 0 where
  here : (w : WebSocketConnection) → Reaches app w w
  next :
      {w v u : WebSocketConnection}
      → decode_step app w ≡ ok (v, true)
      → 0 < readable_bytes v.conn.buf
      → Reaches app v u
      → Reaches app w u

abbrev pub Hangs : Callbacks → WebSocketConnection → Type 0
Hangs app w =
    ((fuel : ℕ) → decode app fuel w ≡ stuck) × (v : WebSocketConnection) × Reaches app w v × Spins v

abbrev Ended : Callbacks → ℕ → WebSocketConnection → Type 0
Ended app fuel w = (decode app fuel w ≢ stuck) ⊎ Hangs app w

before-Hangs :
    (app : Callbacks) (w v : WebSocketConnection)
    → decode_step app w ≡ ok (v, true)
    → 0 < readable_bytes v.conn.buf
    → Hangs app v
    → Hangs app w
unfolding decode
before-Hangs app w v e h (hangs, u, r, s) = (stays, u, next e h r, s)
  where
    stays : (fuel : ℕ) → decode app fuel w ≡ stuck
    stays zero = refl
    stays (suc fuel) = decode_goes app w fuel e h ∙ hangs fuel

module _ (app : Callbacks) (fuel : ℕ) where
  before-Ended :
      (w v : WebSocketConnection)
      → decode_step app w ≡ ok (v, true)
      → 0 < readable_bytes v.conn.buf
      → Ended app fuel v
      → Ended app (suc fuel) w
  before-Ended w v e h (inl ends) = inl λ k. ends (sym (decode_goes app w fuel e h) ∙ k)
  before-Ended w v e h (inr hangs) = inr (before-Hangs app w v e h hangs)

  -- What holds of `decode` at the connections that a step goes on with, holds one level up.
  after_step :
      (n : ℕ) (w : WebSocketConnection) (o : Outcome Handled)
      → decode_step app w ≡ o
      → Lands (Goes n) o
      → ((v : WebSocketConnection)
          → 0 < readable_bytes v.conn.buf
          → readable_bytes v.conn.buf < n
          → Settled v
          → Ended app fuel v)
      → Ended app (suc fuel) w
  unfolding decode
  after_step n w stuck e k rest = absurd k
  after_step n w abort e k rest = inl (rw e (Lands-ends (Ignored WebSocketConnection) tt))
  after_step n w (ok (v, false)) e k rest = inl (rw e (Lands-ends (Ignored WebSocketConnection) tt))
  after_step n w (ok (v, true)) e k rest = elim (Bool-cases (ltb 0 (readable_bytes v.conn.buf))) [
    | inl more ↦
        before-Ended w v e (ltb→lt 0 (readable_bytes v.conn.buf) more)
          (rest v (ltb→lt 0 (readable_bytes v.conn.buf) more) k.0 k.1)
    | inr less ↦ inl (rw (e, less) (Lands-ends (Ignored WebSocketConnection) tt))
  ]

true≢false : {b : Bool} → b ≡ false → b ≢ true
true≢false e f = ground arith

one_level :
    (app : Callbacks) (fuel : ℕ) (w : WebSocketConnection)
    → IsPolite app
    → Settled w
    → ((v : WebSocketConnection)
        → Settled v
        → readable_bytes v.conn.buf < readable_bytes w.conn.buf
        → Ended app fuel v)
    → Ended app (suc fuel) w
one_level app fuel w polite s ends = elim (Bool-cases w.header_read) [
  | inr fresh ↦ goes λ r. absurd (true≢false fresh r)
  | inl read ↦ elim s [
    | inl fresh ↦ absurd (true≢false fresh read)
    | inr dead ↦ elim (Bool-cases (ltb 0 w.payload_length)) [
      | inl some_left ↦ goes λ r. omega (arith, ltb→lt 0 w.payload_length some_left)
      | inr none_left ↦ elim (Bool-cases (ltb 0 (readable_bytes w.conn.buf))) [
        | inl more ↦
            let s' : Spins w = record {
              read = read;
              kind = dead.0;
              size = ground arith;
              status = dead.1;
              more = ltb→lt 0 (readable_bytes w.conn.buf) more;
            } in
            inr ((λ n. Spins-decode app n w s'), w, here w, s')
        | inr empty ↦
            after_step app fuel 1 w (decode_step app w) refl
              (decode_step-Goes app w 1 polite (ground arith) (λ r. ground arith))
              λ v more less t. absurd (omega (arith, more, less))
      ]
    ]
  ]
]
  where
    goes :
        (w.header_read ≡ true
          → readable_bytes w.conn.buf < readable_bytes w.conn.buf + w.payload_length)
        → Ended app (suc fuel) w
    goes f =
        after_step app fuel (readable_bytes w.conn.buf) w (decode_step app w) refl
          (decode_step-Goes app w (readable_bytes w.conn.buf) polite (omega arith) f)
          λ v more less t. ends v t less

-- From the next header, or after a close frame, one level for each byte and one more are enough.
enough_levels :
    (app : Callbacks) (fuel : ℕ) (w : WebSocketConnection)
    → IsPolite app
    → Settled w
    → readable_bytes w.conn.buf < fuel
    → Ended app fuel w
enough_levels app zero w polite s h = absurd (omega arith)
enough_levels app (suc fuel) w polite s h =
    one_level app fuel w polite s
      λ v t less. enough_levels app fuel v polite t (omega (arith, h, less))

-- `decode`, at any connection and on any input, where the application's callbacks return or abort and
-- leave the input alone, with two levels of recursion more than there are bytes to read. It returns or
-- fails an assertion; or it recurses without end, and then it comes to a level where the header of an
-- empty close frame is taken as read, the connection is not open and there is more in the input.
pub decode_lem :
    (app : Callbacks) (fuel : ℕ) (w : WebSocketConnection)
    → IsPolite app
    → readable_bytes w.conn.buf + 1 < fuel
    → (decode app fuel w ≢ stuck) ⊎ Hangs app w
decode_lem app zero w polite h = absurd (omega arith)
decode_lem app (suc fuel) w polite h =
    let n = suc (readable_bytes w.conn.buf) in
    after_step app fuel n w (decode_step app w) refl
      (decode_step-Goes app w n polite (omega arith) (λ r. omega arith))
      λ v more less t. enough_levels app fuel v polite t (omega (arith, h, less))
