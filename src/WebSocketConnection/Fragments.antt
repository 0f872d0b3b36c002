-- ===== src/WebSocketConnection/Fragments.antt =====
-- A message that comes in fragments, with control frames between them: `decode`'s recursion over a
-- sequence of frames that have all arrived.
use mathlib.Core.List.{append_assoc, append-nil}
use mathlib.Core.Path.{subst}
use websocket_engine.Base.{
  ℕ, suc, ◌+◌, ◌^◌, ◌<◌, ◌≡◌, ◌≢◌, refl, sym, ap, ◌∙◌, Bool, true, false, List, [], ◌∷◌, ◌++◌, some,
  arith, ltb, ◌&&◌, if◌then◌else◌, length, All, Outcome, ok, abort, stuck, ◌>>=◌, length-append,
  lt→ltb,
}
use websocket_engine.Buffer.{readable_bytes}
use websocket_engine.Buffer.Queue.{Holds, readable-Holds}
use websocket_engine.Buffer.Numbers.{IsByte}
use websocket_engine.TcpConnection.Stream.{stream}
use websocket_engine.WebSocketConnection.Types.{
  WebSocketConnection, Callbacks, Event, message, pinged, ponged, clear_decode_status,
}
use websocket_engine.WebSocketConnection.Send.{opcode_for}
use websocket_engine.WebSocketConnection.Decode.{Handled, decode_step, decode}
use websocket_engine.WebSocketConnection.Outgoing.{IsReady, frame}
use websocket_engine.WebSocketConnection.Frames.{client_frame}
use websocket_engine.WebSocketConnection.Messages.{
  HasFrame, first_fragment, next_fragment, last_fragment,
}
use websocket_engine.WebSocketConnection.Control.{
  ReturnsNoting, left_over, still_ready, ping_arrives, pong_arrives,
}

-- A frame within a message, with its key and payload.
pub data Piece : Type 0 where
  fragment pinging ponging : List ℕ → List ℕ → Piece

-- The frame of a piece; the part of the message in it; what is sent for it; what is noted.
abbrev pub piece_bytes : Piece → List ℕ
piece_bytes (fragment key p) = client_frame false 0 key p
piece_bytes (pinging key p) = client_frame true 9 key p
piece_bytes (ponging key p) = client_frame true 10 key p

abbrev pub piece_text : Piece → List ℕ
piece_text (fragment key p) = p
piece_text _ = []

abbrev pub piece_reply : Piece → List ℕ
piece_reply (pinging key p) = frame 10 p
piece_reply _ = []

abbrev pub piece_notes : (pings pongs : List ℕ → List Event) → Piece → List Event
piece_notes pings pongs (fragment key p) = []
piece_notes pings pongs (pinging key p) = pings p
piece_notes pings pongs (ponging key p) = pongs p

-- Keys have four bytes; fragments have any length, control frames less than 126 bytes.
abbrev pub IsSound : Piece → Type 0
IsSound (fragment key p) = (length key ≡ 4) × (length p < 2 ^ 64)
IsSound (pinging key p) = (length key ≡ 4) × (length p < 126)
IsSound (ponging key p) = (length key ≡ 4) × (length p < 126)

-- All of these, one behind the other.
abbrev pub all_of {ℓ} : {A : Type ℓ} → (Piece → List A) → List Piece → List A
all_of f [] = []
all_of f (x ∷ xs) = f x ++ all_of f xs

-- A connection within a message of the kind `opcode`, of which it has `old`, that may send; `input`
-- is what is in its input buffer.
pub record Within (w : WebSocketConnection) (opcode : ℕ) (old input : List ℕ) : Type 0 where
  pub fresh : w.header_read ≡ false
  pub kind : w.fragmented_op_code ≡ opcode
  pub held : Holds w.decode_buf old
  pub arrived : Holds w.conn.buf input
  pub bytes : All IsByte input
  pub capacity : length w.conn.buf.buf < 2 ^ 63
  pub ready : IsReady w

-- Between `w` and `w'`, `bytes` were sent and `notes` noted, and the status stayed.
pub record Passes (w w' : WebSocketConnection) (bytes : List ℕ) (notes : List Event) : Type 0 where
  pub sent : stream w'.conn ≡ stream w.conn ++ bytes
  pub noted : w'.events ≡ w.events ++ notes
  pub status : w'.status ≡ w.status

pub All-behind : (xs ys : List ℕ) → All IsByte (xs ++ ys) → All IsByte ys
All-behind [] ys h = h
All-behind (x ∷ xs) ys h = All-behind xs ys h.1

next_frame :
    {w : WebSocketConnection} {kind : ℕ} {old : List ℕ} (fin : Bool) (opcode : ℕ)
    (key p rest : List ℕ)
    → Within w kind old (client_frame fin opcode key p ++ rest)
    → length key ≡ 4
    → length p < 2 ^ 64
    → HasFrame w fin opcode key p rest
next_frame fin opcode key p rest i k h = record {
  fresh = i.fresh;
  input = i.arrived;
  bytes = i.bytes;
  capacity = i.capacity;
  size = h;
  key_size = k;
}

left_over_some : (old p : List ℕ) → 0 < length old → left_over old p ≡ old
left_over_some [] p h = absurd (omega arith)
left_over_some (x ∷ old) p h = refl

-- What `decode` does after one run of its body.
abbrev pub resume : Callbacks → ℕ → WebSocketConnection → Bool → Outcome WebSocketConnection
resume app fuel w goes_on =
    let again = decode app fuel w in
    if goes_on && ltb 0 (readable_bytes w.conn.buf) then again else ok w

-- One level of `decode`'s recursion.
pub decode_goes :
    (app : Callbacks) (w : WebSocketConnection) {w' : WebSocketConnection} (fuel : ℕ)
    → decode_step app w ≡ ok (w', true)
    → 0 < readable_bytes w'.conn.buf
    → decode app (suc fuel) w ≡ decode app fuel w'
unfolding decode
decode_goes app w {w'} fuel e h =
    ap (λ (t : Outcome Handled). t >>= λ p. resume app fuel p.0 p.1) e
    ∙ ap (λ t. if t then decode app fuel w' else ok w') (lt→ltb 0 (readable_bytes w'.conn.buf) h)

decode_ends :
    (app : Callbacks) (w : WebSocketConnection) (fuel : ℕ) (o : Outcome WebSocketConnection)
    (g : WebSocketConnection → WebSocketConnection)
    → decode_step app w ≡ (o >>= λ v. ok (g v, true))
    → decode app (suc fuel) w ≡ (o >>= λ v. resume app fuel (g v) true)
unfolding decode
decode_ends app w fuel o g e =
    ap (λ (t : Outcome Handled). t >>= λ p. resume app fuel p.0 p.1) e ∙ then_resume o
  where
    marked : Outcome WebSocketConnection → Outcome Handled
    marked t = t >>= λ v. ok (g v, true)

    then_resume :
        (o : Outcome WebSocketConnection)
        → (marked o >>= λ (p : Handled). resume app fuel p.0 p.1)
          ≡ (o >>= λ v. resume app fuel (g v) true)
    then_resume (ok v) = refl
    then_resume abort = refl
    then_resume stuck = refl

some_kind : (is_binary : Bool) → opcode_for is_binary ≢ 0
some_kind true = omega arith
some_kind false = omega arith

module _ (app : Callbacks) {pings pongs : List ℕ → List Event}
    (on_pings : ReturnsNoting pinged pings app.on_ping)
    (on_pongs : ReturnsNoting ponged pongs app.on_pong) where
  -- One piece.
  piece_step :
      (w : WebSocketConnection) (opcode : ℕ) (old rest : List ℕ) (x : Piece)
      → opcode ≢ 0
      → 0 < length old
      → IsSound x
      → Within w opcode old (piece_bytes x ++ rest)
      → (w' : WebSocketConnection) × (decode_step app w ≡ ok (w', true))
        × Within w' opcode (old ++ piece_text x) rest
        × Passes w w' (piece_reply x) (piece_notes pings pongs x)
  piece_step w opcode old rest (fragment key p) z h s i =
      let (w', e, g) =
        next_fragment app w old key p rest (next_frame false 0 key p rest i s.0 s.1) i.held
          (λ q. z (sym i.kind ∙ q)) in
      let (r, t) = still_ready w w' i.ready g.out g.conn in
      (
        w',
        e,
        record {
          fresh = g.fresh;
          kind = g.fragmented ∙ i.kind;
          held = g.kept;
          arrived = g.left;
          bytes = All-behind (client_frame false 0 key p) rest i.bytes;
          capacity = omega (arith, i.capacity, g.capacity);
          ready = r;
        },
        record {
          sent = t ∙ sym (append-nil (stream w.conn));
          noted = g.events ∙ sym (append-nil w.events);
          status = g.status;
        },
      )
  piece_step w opcode old rest (pinging key p) z h s i =
      let (w', e, g, r, t) =
        ping_arrives app w old key p rest on_pings
          (next_frame true 9 key p rest i s.0 (omega arith)) i.held i.ready s.1 in
      (
        w',
        e,
        record {
          fresh = g.fresh;
          kind = g.fragmented ∙ i.kind;
          held = subst (Holds w'.decode_buf) (left_over_some old p h ∙ sym (append-nil old)) g.kept;
          arrived = g.left;
          bytes = All-behind (client_frame true 9 key p) rest i.bytes;
          capacity = omega (arith, i.capacity, g.capacity);
          ready = r;
        },
        record { sent = t; noted = g.noted; status = g.status },
      )
  piece_step w opcode old rest (ponging key p) z h s i =
      let (w', e, g, out, conn) =
        pong_arrives app w old key p rest on_pongs
          (next_frame true 10 key p rest i s.0 (omega arith)) i.held in
      let (r, t) = still_ready w w' i.ready out conn in
      (
        w',
        e,
        record {
          fresh = g.fresh;
          kind = g.fragmented ∙ i.kind;
          held = subst (Holds w'.decode_buf) (left_over_some old p h ∙ sym (append-nil old)) g.kept;
          arrived = g.left;
          bytes = All-behind (client_frame true 10 key p) rest i.bytes;
          capacity = omega (arith, i.capacity, g.capacity);
          ready = r;
        },
        record { sent = t ∙ sym (append-nil (stream w.conn)); noted = g.noted; status = g.status },
      )

  Passes-trans :
      {u v w : WebSocketConnection} {a b : List ℕ} {m n : List Event}
      → Passes u v a m
      → Passes v w b n
      → Passes u w (a ++ b) (m ++ n)
  Passes-trans {u} {a = a} {b = b} {m = m} {n = n} p q = record {
    sent = q.sent ∙ ap (λ t. t ++ b) p.sent ∙ append_assoc (stream u.conn) a b;
    noted = q.noted ∙ ap (λ t. t ++ n) p.noted ∙ append_assoc u.events m n;
    status = q.status ∙ p.status;
  }

  -- A sequence of pieces with something behind them: one level of the recursion for each.
  pieces_step :
      (w : WebSocketConnection) (opcode fuel : ℕ) (old rest : List ℕ) (xs : List Piece)
      → opcode ≢ 0
      → 0 < length old
      → All IsSound xs
      → 0 < length rest
      → Within w opcode old (all_of piece_bytes xs ++ rest)
      → (w' : WebSocketConnection) × (decode app (length xs + fuel) w ≡ decode app fuel w')
        × Within w' opcode (old ++ all_of piece_text xs) rest
        × Passes w w' (all_of piece_reply xs) (all_of (piece_notes pings pongs) xs)
  pieces_step w opcode fuel old rest [] z h s t i = (
    w,
    ap (λ n. decode app n w) (omega arith),
    record {
      fresh = i.fresh;
      kind = i.kind;
      held = subst (Holds w.decode_buf) (sym (append-nil old)) i.held;
      arrived = i.arrived;
      bytes = i.bytes;
      capacity = i.capacity;
      ready = i.ready;
    },
    record {
      sent = sym (append-nil (stream w.conn));
      noted = sym (append-nil w.events);
      status = refl;
    },
  )
  pieces_step w opcode fuel old rest (x ∷ xs) z h s t i =
      let more = all_of piece_bytes xs ++ rest in
      let (v, e, j, p) = piece_step w opcode old more x z h s.0 (
        subst (Within w opcode old) (append_assoc (piece_bytes x) (all_of piece_bytes xs) rest)
          i) in
      let (w', f, k, q) =
        pieces_step v opcode fuel (old ++ piece_text x) rest xs z
          (omega (arith, length-append old (piece_text x))) s.1 t j in
      (
        w',
        ap (λ n. decode app n w) (omega arith)
            ∙ decode_goes app w (length xs + fuel) e (
                omega (arith, readable-Holds j.arrived, length-append (all_of piece_bytes xs) rest))
            ∙ f,
        subst (λ u. Within w' opcode u rest)
            (append_assoc old (piece_text x) (all_of piece_text xs)) k,
        Passes-trans p q,
      )

  -- A fragmented message of any number of frames, all of them in the input, with pings and pongs of
  -- less than 126 bytes anywhere between its fragments, and a first fragment that is not empty, at a
  -- connection that may send with nothing in `outputBuf_` and nothing in `decodeBuf_`, where the
  -- application's callbacks for pings and pongs, if any, leave the connection as it is. The message
  -- callback is called once, with the concatenation of the fragments' payloads and the kind that the
  -- first fragment names. By then every ping was answered with a pong of the same payload, in order and
  -- behind all that was sent before, the callbacks for pings and pongs were run in order, the input is
  -- consumed up to the end of the last fragment, and `decodeBuf_` is empty. The recursion takes one
  -- level for each frame, and goes on behind them with the levels that are left.
  pub message_of_pieces :
      {call : List ℕ → Bool → WebSocketConnection → Outcome WebSocketConnection}
      (heard : app.on_message ≡ some call) (w : WebSocketConnection) (is_binary : Bool) (fuel : ℕ)
      (key p : List ℕ) (xs : List Piece) (last_key q rest : List ℕ)
      → (length key ≡ 4) × (length last_key ≡ 4)
      → (0 < length p) × (length p < 2 ^ 64) × (length q < 2 ^ 64)
      → All IsSound xs
      → Within w 0 [] (
          client_frame false (opcode_for is_binary) key p
          ++ (all_of piece_bytes xs ++ (client_frame true 0 last_key q ++ rest)))
      → (v : WebSocketConnection) × (decode app (suc (length xs + suc fuel)) w ≡ (
          call ((p ++ all_of piece_text xs) ++ q) is_binary v >>= λ u.
          resume app fuel (clear_decode_status (record u { fragmented_op_code = 0 })) true))
        × Holds v.decode_buf []
        × Holds v.conn.buf rest
        × Passes w v (all_of piece_reply xs) (
            all_of (piece_notes pings pongs) xs
            ++ (message ((p ++ all_of piece_text xs) ++ q) is_binary ∷ []))
  message_of_pieces {call} heard w is_binary fuel key p xs last_key q rest keys sizes s i =
      let tail = client_frame true 0 last_key q ++ rest in
      let (a, e, g) =
        first_fragment app w is_binary key p (all_of piece_bytes xs ++ tail)
          (next_frame false (opcode_for is_binary) key p (all_of piece_bytes xs ++ tail) i keys.0
            sizes.1)
          i.held i.kind in
      let (r, t) = still_ready w a i.ready g.out g.conn in
      let (b, f, j, pass) =
        pieces_step a (opcode_for is_binary) (suc fuel) p tail xs (some_kind is_binary) sizes.0 s
          (omega arith)
          (record {
            fresh = g.fresh;
            kind = g.fragmented;
            held = g.kept;
            arrived = g.left;
            bytes = All-behind (client_frame false (opcode_for is_binary) key p) _ i.bytes;
            capacity = omega (arith, i.capacity, g.capacity);
            ready = r;
          }) in
      let (v, h, d) =
        last_fragment app heard b is_binary (p ++ all_of piece_text xs) last_key q rest
          (next_frame true 0 last_key q rest j keys.1 sizes.2) j.held j.kind in
      (
        v,
        decode_goes app w (length xs + suc fuel) e
              (omega (arith, readable-Holds g.left, length-append (all_of piece_bytes xs) tail))
            ∙ f
            ∙ decode_ends app b fuel (call ((p ++ all_of piece_text xs) ++ q) is_binary v)
                (λ u. clear_decode_status (record u { fragmented_op_code = 0 })) h,
        d.emptied,
        d.left,
        record {
          sent = ap (λ c. stream c) d.conn ∙ pass.sent ∙ ap (λ c. c ++ all_of piece_reply xs) t;
          noted =
              d.noted
              ∙ ap (λ c. c ++ (message ((p ++ all_of piece_text xs) ++ q) is_binary ∷ []))
                  (pass.noted ∙ ap (λ c. c ++ all_of (piece_notes pings pongs) xs) g.events)
              ∙ append_assoc w.events (all_of (piece_notes pings pongs) xs)
                  (message ((p ++ all_of piece_text xs) ++ q) is_binary ∷ []);
          status = d.status ∙ pass.status ∙ g.status;
        },
      )
