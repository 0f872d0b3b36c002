-- ===== src/WebSocketConnection/Frames.antt =====
-- Frames as a client builds them, from RFC 6455's layout, and what `decode` makes of one that has
-- arrived whole.
use mathlib.Core.List.{append_assoc}
use mathlib.Core.Path.{subst, ap₂}
use websocket_engine.Base.{
  ℕ, ◌+◌, ◌-◌, ◌/◌, ◌%◌, ◌^◌, ◌<◌, ◌≡◌, refl, sym, ap, ◌∙◌, inl, inr, Bool, true, false, List, [],
  ◌∷◌, ◌++◌, arith, ltb, leb, if◌then◌else◌, Bool-cases, length, take, drop, All, Outcome, ok,
  ◌>>=◌, length-append, take-length-append, drop-length-append,
}
use websocket_engine.Buffer.{host, network}
use websocket_engine.Buffer.Queue.{Holds, advance}
use websocket_engine.Buffer.Numbers.{IsByte, host-network_two}
use websocket_engine.WebSocketConnection.Types.{WebSocketConnection, Callbacks, set_input}
use websocket_engine.WebSocketConnection.Decode.{
  HeaderEnd, parsed, short, refused, Handled, dispatch, read_payload, read_header, decode_step,
}
use websocket_engine.WebSocketConnection.Header.{extension, is_masked, header_size}
use websocket_engine.WebSocketConnection.Header.Whole.{Read, read_header_lem}
use websocket_engine.WebSocketConnection.Masking.{masked, length-masked, unmask-masked}
use websocket_engine.WebSocketConnection.Payload.{plain, read_payload_whole}

-- The mask bit and the payload length, in the shortest of the three forms.
abbrev pub masked_field : ℕ → List ℕ
masked_field n =
    if ltb n 126
    then (128 + n) ∷ []
    else if leb n 0xffff
    then 254 ∷ network 2 n
    else 255 ∷ network 8 n

abbrev pub first_byte : Bool → ℕ → ℕ
first_byte fin opcode = (if fin then 128 else 0) + opcode

-- A frame with a masked payload.
abbrev pub client_frame : Bool → ℕ → List ℕ → List ℕ → List ℕ
client_frame fin opcode key payload =
    first_byte fin opcode ∷ masked_field (length payload) ++ (key ++ masked key payload)

-- `w'` is `w` with one more frame in `decodeBuf_`, behind `old`, and `rest` left in the input.
pub record Arrived (w : WebSocketConnection) (is_fin : Bool) (opcode : ℕ)
    (old payload rest : List ℕ) (w' : WebSocketConnection) : Type 0 where
  pub final : w'.is_fin ≡ is_fin
  pub code : w'.opcode ≡ opcode
  pub size : w'.payload_length ≡ length payload
  pub kept : Holds w'.decode_buf (old ++ payload)
  pub left : Holds w'.conn.buf rest
  pub capacity : length w'.conn.buf.buf ≡ length w.conn.buf.buf
  pub read : w'.header_read ≡ true
  pub status : w'.status ≡ w.status
  pub out : w'.output_buf ≡ w.output_buf
  pub fragmented : w'.fragmented_op_code ≡ w.fragmented_op_code
  pub events : w'.events ≡ w.events
  pub conn : record w'.conn { buf = w.conn.buf } ≡ w.conn

host_network_eight : (v : ℕ) → v < 2 ^ 64 → host (network 8 v) ≡ v
host_network_eight v h = omega arith

pub fin_of :
    (fin : Bool) (opcode : ℕ)
    → opcode < 16
    → (first_byte fin opcode < 256)
      × (first_byte fin opcode / 16 % 8 ≡ 0)
      × (leb 128 (first_byte fin opcode) ≡ fin)
      × (first_byte fin opcode % 16 ≡ opcode)
fin_of true opcode h = (omega arith, omega arith, ground arith, omega arith)
fin_of false opcode h = (omega arith, omega arith, ground arith, omega arith)

-- The header with an extended length of the bytes `e`.
header_of :
    (w : WebSocketConnection) (x y : ℕ) (e key tail : List ℕ)
    → Holds w.conn.buf (x ∷ y ∷ e ++ (key ++ tail))
    → length w.conn.buf.buf < 2 ^ 63
    → x < 256
    → y < 256
    → All IsByte (e ++ (key ++ tail))
    → x / 16 % 8 ≡ 0
    → is_masked y ≡ true
    → extension y ≡ length e
    → length key ≡ 4
    → (w' : WebSocketConnection) × (read_header w ≡ ok (w', parsed))
      × Read w x y (if ltb (y % 128) 126 then y % 128 else host e) key tail w'
header_of w x y e key tail k small hx hy bytes rsv m ext four =
    elim (read_header_lem w k small hx hy bytes rsv) [
      | inl (few, _) ↦
          absurd (omega (arith, length-append e (key ++ tail), length-append key tail, ext, whole))
      | inr (_, w', q, r) ↦ (
        w',
        q,
        record {
          fin = r.fin;
          code = r.code;
          mask = r.mask;
          size = r.size ∙ ap (λ t. if ltb (y % 128) 126 then y % 128 else host t) length_bytes;
          key = λ m'. r.key m ∙ key_bytes;
          left = record { valid = r.left.valid; held = r.left.held ∙ left_bytes };
          capacity = r.capacity;
          rest = r.rest;
        },
      )
    ]
  where
    whole : header_size y ≡ 6 + length e
    whole = rw (m, ext) (omega arith)

    length_bytes : take (extension y) (e ++ (key ++ tail)) ≡ e
    length_bytes = ap (λ t. take t (e ++ (key ++ tail))) ext ∙ take-length-append e (key ++ tail)

    key_bytes : take 4 (drop (extension y) (e ++ (key ++ tail))) ≡ key
    key_bytes =
        ap (λ t. take 4 (drop t (e ++ (key ++ tail)))) ext
        ∙ ap (take 4) (drop-length-append e (key ++ tail))
        ∙ ap (λ t. take t (key ++ tail)) (sym four)
        ∙ take-length-append key tail

    left_bytes : drop (header_size y - 2) (e ++ (key ++ tail)) ≡ tail
    left_bytes =
        ap₂ drop (omega (arith, whole, length-append e key, four)) (sym (append_assoc e key tail))
        ∙ drop-length-append (e ++ key) tail

-- The second byte and the extended length of a frame.
pub record Field (n y : ℕ) (e : List ℕ) : Type 0 where
  pub form : masked_field n ≡ y ∷ e
  pub byte : y < 256
  pub mask : is_masked y ≡ true
  pub size : extension y ≡ length e
  pub value : (if ltb (y % 128) 126 then y % 128 else host e) ≡ n

pub Field-cases : (n : ℕ) → n < 2 ^ 64 → (y : ℕ) × (e : List ℕ) × Field n y e
Field-cases n h = elim (Bool-cases (ltb n 126)) [
  | inl one ↦ (
    128 + n,
    [],
    record {
      form = rw one;
      byte = ground arith;
      mask = ground arith;
      size = ground arith;
      value = ground arith;
    },
  )
  | inr large ↦ elim (Bool-cases (leb n 0xffff)) [
    | inl two ↦ (
      254,
      network 2 n,
      record {
        form = rw (large, two);
        byte = omega arith;
        mask = refl;
        size = refl;
        value = host-network_two n (ground arith);
      },
    )
    | inr eight ↦ (
      255,
      network 8 n,
      record {
        form = rw (large, eight);
        byte = omega arith;
        mask = refl;
        size = refl;
        value = host_network_eight n h;
      },
    )
  ]
]

-- A whole header of a client's frame is read, whichever form its length has.
pub frame_header :
    (w : WebSocketConnection) (fin : Bool) (opcode n : ℕ) (key tail : List ℕ)
    → Holds w.conn.buf (first_byte fin opcode ∷ masked_field n ++ (key ++ tail))
    → All IsByte (masked_field n ++ (key ++ tail))
    → length w.conn.buf.buf < 2 ^ 63
    → opcode < 16
    → n < 2 ^ 64
    → length key ≡ 4
    → (w' : WebSocketConnection) × (y : ℕ) × (read_header w ≡ ok (w', parsed))
      × (is_masked y ≡ true)
      × Read w (first_byte fin opcode) y n key tail w'
frame_header w fin opcode n key tail k bytes small o h four =
    let (y, e, f) = Field-cases n h in
    let (hx, rsv, _, _) = fin_of fin opcode o in
    let (w', q, r) =
      header_of w (first_byte fin opcode) y e key tail
        (subst (λ t. Holds w.conn.buf (first_byte fin opcode ∷ t ++ (key ++ tail))) f.form k) small
        hx f.byte (subst (λ t. All IsByte (t ++ (key ++ tail))) f.form bytes).1 rsv f.mask f.size
        four in
    (
      w',
      y,
      q,
      f.mask,
      record {
        fin = r.fin;
        code = r.code;
        mask = r.mask;
        size = r.size ∙ f.value;
        key = r.key;
        left = r.left;
        capacity = r.capacity;
        rest = r.rest;
      },
    )

-- `decode_step`, with the test and the outcome of the header as arguments.
abbrev pub step_from :
    Callbacks
    → WebSocketConnection
    → Bool
    → Outcome (WebSocketConnection × HeaderEnd)
    → Outcome Handled
step_from app w h o = if h then read_payload app w else (do
  (w', end) ← o
  elim end [ parsed ↦ read_payload app w' | short ↦ ok (w', false) | refused ↦ ok (w', false) ])

pub step_read :
    (app : Callbacks) (w : WebSocketConnection)
    → w.header_read ≡ true
    → decode_step app w ≡ read_payload app w
unfolding decode_step
step_read app w h = ap (λ t. step_from app w t (read_header w)) h

pub step_parsed :
    (app : Callbacks) (w : WebSocketConnection) {v : WebSocketConnection}
    → w.header_read ≡ false
    → read_header w ≡ ok (v, parsed)
    → decode_step app w ≡ read_payload app v
unfolding decode_step
step_parsed app w fresh q = ap₂ (step_from app w) fresh q

-- What follows a header that is read.
pub payload_arrives :
    (app : Callbacks) {w v : WebSocketConnection} {y : ℕ} (fin : Bool) (opcode : ℕ)
    (old key payload rest : List ℕ)
    → Holds w.decode_buf old
    → opcode < 16
    → is_masked y ≡ true
    → length key ≡ 4
    → Read w (first_byte fin opcode) y (length payload) key (masked key payload ++ rest) v
    → (w' : WebSocketConnection) × (read_payload app v ≡ dispatch app w' (length old))
      × Arrived w fin opcode old payload rest w'
payload_arrives app {w} {v} fin opcode old key payload rest d o m four r =
    let u = r.rest in
    let here : Holds v.decode_buf old = subst (λ t. Holds t old) (sym u.1) d in
    let (b, e, f, i) =
      read_payload_whole app v old (masked key payload) rest here r.left
        (r.size ∙ sym (length-masked key payload)) in
    (
      set_input (record v { header_read = true; decode_buf = b })
          (advance v.conn.buf (length (masked key payload))),
      e,
      record {
        final = r.fin ∙ (fin_of fin opcode o).2;
        code = r.code ∙ (fin_of fin opcode o).3;
        size = r.size;
        kept = record { valid = f.valid; held = f.held ∙ ap (λ t. old ++ t) clear_text };
        left = i;
        capacity = r.capacity;
        read = refl;
        status = u.0;
        out = u.2;
        fragmented = u.3;
        events = u.4;
        conn = u.5;
      },
    )
  where
    clear_text : plain v.masked v.mask_key (masked key payload) ≡ payload
    clear_text =
        ap₂ (λ t k. plain t k (masked key payload)) (r.mask ∙ m) (r.key m)
        ∙ unmask-masked key payload four

-- A masked frame that has arrived whole, with its payload length in any of the three forms, is
-- taken from the input up to its last byte, and the frame is dispatched with its payload,
-- unmasked, behind what `decodeBuf_` held.
pub frame_arrives :
    (app : Callbacks) (w : WebSocketConnection) (fin : Bool) (opcode : ℕ)
    (old key payload rest : List ℕ)
    → w.header_read ≡ false
    → Holds w.decode_buf old
    → Holds w.conn.buf (client_frame fin opcode key payload ++ rest)
    → All IsByte (client_frame fin opcode key payload ++ rest)
    → length w.conn.buf.buf < 2 ^ 63
    → opcode < 16
    → length payload < 2 ^ 64
    → length key ≡ 4
    → (w' : WebSocketConnection) × (decode_step app w ≡ dispatch app w' (length old))
      × Arrived w fin opcode old payload rest w'
frame_arrives app w fin opcode old key payload rest fresh d k bytes small o h four =
    let (v, y, q, m, r) =
      frame_header w fin opcode (length payload) key (masked key payload ++ rest)
        (subst (Holds w.conn.buf) parts k) (subst (All IsByte) parts bytes).1 small o h four in
    let (w', e, a) = payload_arrives app fin opcode old key payload rest d o m four r in
    (w', step_parsed app w fresh q ∙ e, a)
  where
    parts :
        client_frame fin opcode key payload ++ rest
        ≡ first_byte fin opcode ∷ masked_field (length payload)
          ++ (key ++ (masked key payload ++ rest))
    parts = ap (◌∷◌ (first_byte fin opcode)) (
        append_assoc (masked_field (length payload)) (key ++ masked key payload) rest
        ∙ ap (◌++◌ (masked_field (length payload))) (append_assoc key (masked key payload) rest))
