-- ===== src/WebSocketConnection/Pieces.antt =====
-- Frames that arrive in more than one read: src/WebSocketConnection.cpp, the early returns of `decode`.
use mathlib.Core.List.{append_assoc}
use mathlib.Core.Path.{subst, ap₂}
use websocket_engine.Base.{
  ℕ, ◌+◌, ◌/◌, ◌%◌, ◌^◌, ◌≤◌, ◌<◌, ◌≡◌, refl, sym, ap, ◌∙◌, inl, inr, Bool, true, false, List, [],
  ◌∷◌, ◌++◌, arith, ltb, if◌then◌else◌, drop, ltb→lt, Bool-cases, length, All, drop-length-append,
  ok, length-append,
}
use websocket_engine.Buffer.{Buffer}
use websocket_engine.Buffer.Queue.{Holds}
use websocket_engine.Buffer.Numbers.{IsByte}
use websocket_engine.TcpConnection.{TcpConnection}
use websocket_engine.WebSocketConnection.Types.{WebSocketConnection, Callbacks, set_input}
use websocket_engine.WebSocketConnection.Decode.{short, dispatch, read_header, decode_step}
use websocket_engine.WebSocketConnection.Header.{Untouched, Waits, header_size}
use websocket_engine.WebSocketConnection.Header.Whole.{header_one, read_header_lem}
use websocket_engine.WebSocketConnection.Masking.{masked, length-masked}
use websocket_engine.WebSocketConnection.Payload.{read_payload_short}
use websocket_engine.WebSocketConnection.Frames.{
  client_frame, masked_field, first_byte, Field-cases, fin_of, frame_header, Arrived, step_from,
  step_parsed, step_read, payload_arrives, frame_arrives,
}

split_prefix :
    (front back start end : List ℕ)
    → front ++ back ≡ start ++ end
    → length front ≤ length start
    → (more : List ℕ) × (start ≡ front ++ more) × (back ≡ more ++ end)
split_prefix [] back start end e h = (start, refl, e)
split_prefix (x ∷ front) back [] end e h = absurd (omega arith)
split_prefix (x ∷ front) back (y ∷ start) end e h =
    let same : front ++ back ≡ start ++ end = cc in
    let shorter : length front ≤ length start = omega (arith, h) in
    let (more, f, g) = split_prefix front back start end same shorter in (more, cc, g)

All-front : (xs ys : List ℕ) → All IsByte (xs ++ ys) → All IsByte xs
All-front [] ys h = tt
All-front (x ∷ xs) ys h = (h.0, All-front xs ys h.1)

-- The bytes of a frame before its payload
abbrev pub frame_header_bytes : Bool → ℕ → ℕ → List ℕ → List ℕ
frame_header_bytes fin opcode n key = first_byte fin opcode ∷ masked_field n ++ key

-- A part of a header is put back, and no more than the header is waited for.
short_header :
    (w : WebSocketConnection) (fin : Bool) (opcode n : ℕ) (key p q : List ℕ)
    → frame_header_bytes fin opcode n key ≡ p ++ q
    → 0 < length p
    → 0 < length q
    → Holds w.conn.buf p
    → All IsByte p
    → length w.conn.buf.buf < 2 ^ 63
    → opcode < 16
    → n < 2 ^ 64
    → length key ≡ 4
    → Waits w w.conn.buf (length p) (length (frame_header_bytes fin opcode n key)) (read_header w)
short_header w fin opcode n key [] q s lp lq k bytes small o h four = absurd (omega arith)
short_header w fin opcode n key (x ∷ []) q s lp lq k bytes small o h four =
    let ex : x ≡ first_byte fin opcode = cc in
    let (y, e, f) = Field-cases n h in
    let (w', run, buf, read, low, high, same) =
      header_one w k small bytes.0 (ap (λ t. t / 16 % 8) ex ∙ (fin_of fin opcode o).1) in
    (
      w',
      run,
      buf,
      read,
      low,
      omega (arith, high, length-append (masked_field n) key, ap length f.form, four),
      same,
    )
short_header w fin opcode n key (x ∷ z ∷ xs) q s lp lq k bytes small o h four =
    let (y, e, f) = Field-cases n h in
    let ex : x ≡ first_byte fin opcode = cc in
    let form : masked_field n ++ key ≡ y ∷ e ++ key = ap (λ t. t ++ key) f.form in
    let ez : z ≡ y = cc in
    let total : header_size z ≡ length (frame_header_bytes fin opcode n key) =
      ap header_size ez
      ∙ rw (f.mask, f.size)
          (omega (arith, length-append (masked_field n) key, ap length f.form, four)) in
    let whole : length (frame_header_bytes fin opcode n key) ≡ 2 + length xs + length q =
      omega (arith, ap length s, length-append xs q) in
    elim (read_header_lem w k small bytes.0 bytes.1.0 bytes.1.1
      (ap (λ t. t / 16 % 8) ex ∙ (fin_of fin opcode o).1)) [
        | inl (few, waits) ↦
            let (w', run, buf, read, low, high, same) = waits in
            (w', run, buf, read, omega (arith, low), omega (arith, high, total), same)
        | inr done ↦ absurd (omega (arith, done.0, total, whole, lq))
      ]

step_short :
    (app : Callbacks) (w : WebSocketConnection) {v : WebSocketConnection}
    → w.header_read ≡ false
    → read_header w ≡ ok (v, short)
    → decode_step app w ≡ ok (v, false)
unfolding decode_step
step_short app w fresh q = ap₂ (step_from app w) fresh q

-- What a frame's arrival says of a connection, it says of one that only differs in what waiting changes.
Arrived-same :
    (w v : WebSocketConnection) {w' : WebSocketConnection} {fin : Bool} {opcode : ℕ}
    {old payload rest : List ℕ} (b : Buffer)
    → Untouched w v
    → Arrived (set_input v b) fin opcode old payload rest w'
    → Arrived (set_input w b) fin opcode old payload rest w'
Arrived-same w v b u a = record {
  final = a.final;
  code = a.code;
  size = a.size;
  kept = a.kept;
  left = a.left;
  capacity = a.capacity;
  read = a.read;
  status = a.status ∙ u.0;
  out = a.out ∙ u.2;
  fragmented = a.fragmented ∙ u.3;
  events = a.events ∙ u.4;
  conn = a.conn ∙ ap (λ (c : TcpConnection). record c { buf = b }) u.5;
}

-- What an early return leaves of a part of a frame whose header has `n` bytes: a part of the header, or
-- the part of the payload behind a whole header.
abbrev pub remains_of : ℕ → List ℕ → List ℕ
remains_of n p = if ltb (length p) n then p else drop n p

module _ (app : Callbacks) (w : WebSocketConnection) (fin : Bool) (opcode : ℕ)
    (old key payload p q rest : List ℕ) (b : Buffer) (fresh : w.header_read ≡ false)
    (kept : Holds w.decode_buf old) (part : client_frame fin opcode key payload ≡ p ++ q)
    (some_left : 0 < length q) (bytes : All IsByte (client_frame fin opcode key payload ++ rest))
    (small : length w.conn.buf.buf < 2 ^ 63) (code : opcode < 16) (size : length payload < 2 ^ 64)
    (key_size : length key ≡ 4) (input : Holds w.conn.buf p) where
  abbrev header : List ℕ
  header = frame_header_bytes fin opcode (length payload) key

  abbrev Resumes : List ℕ → Type 0
  Resumes left =
      (w1 w' : WebSocketConnection) × (decode_step app w ≡ ok (w1, false))
      × Holds w1.conn.buf left
      × (w1.wanted ≤ length left + length q)
      × (decode_step app (set_input w1 b) ≡ dispatch app w' (length old))
      × Arrived (set_input w b) fin opcode old payload rest w'

  whole : header ++ masked key payload ≡ p ++ q
  whole =
      ap (◌∷◌ (first_byte fin opcode))
        (append_assoc (masked_field (length payload)) key (masked key payload))
      ∙ part

  bytes_of_part : All IsByte p
  bytes_of_part =
      All-front p q
        (subst (All IsByte) part (All-front (client_frame fin opcode key payload) rest bytes))

  in_header :
      0 < length p
      → length p < length header
      → length b.buf < 2 ^ 63
      → Holds b (p ++ (q ++ rest))
      → Resumes p
  in_header some few room k =
      let (more, e, _) =
        split_prefix p q header (masked key payload) (sym whole) (omega (arith, few)) in
      let (w1, run, buf, read, low, high, same) =
        short_header w fin opcode (length payload) key p more e some
          (omega (arith, few, ap length e, length-append p more)) input bytes_of_part small code
          size key_size in
      let (w', go, a) =
        frame_arrives app (set_input w1 b) fin opcode old key payload rest read
          (subst (λ t. Holds t old) (sym same.1) kept)
          (subst (Holds b) (sym (append_assoc p q rest) ∙ ap (λ t. t ++ rest) (sym part)) k) bytes
          room code size key_size in
      (
        w1,
        w',
        step_short app w fresh run,
        subst (λ t. Holds t p) (sym buf) input,
        omega (
          arith,
          high,
          ap length whole,
          length-append p q,
          length-append header (masked key payload),
        ),
        go,
        Arrived-same w w1 b same a,
      )

  in_payload :
      length header ≤ length p
      → Holds b (drop (length header) p ++ (q ++ rest))
      → Resumes (drop (length header) p)
  in_payload many k =
      let (t, e, g) = split_prefix header (masked key payload) p q whole many in
      let form : p ≡ first_byte fin opcode ∷ masked_field (length payload) ++ (key ++ t) =
        e ∙ ap (◌∷◌ (first_byte fin opcode)) (append_assoc (masked_field (length payload)) key t) in
      let (v, y, run, m, r) =
        frame_header w fin opcode (length payload) key t (subst (Holds w.conn.buf) form input)
          (subst (All IsByte) form bytes_of_part).1 small code size key_size in
      let taken : t ≡ drop (length header) p =
        sym (ap (drop (length header)) e ∙ drop-length-append header t) in
      let less : length t < v.payload_length =
        omega
          (arith, some_left, r.size, ap length g, length-append t q, length-masked key payload) in
      let w1 : WebSocketConnection = record v {
        header_read = true;
        split = true;
        wanted = v.payload_length;
      } in
      let behind : drop (length header) p ++ (q ++ rest) ≡ masked key payload ++ rest =
        ap (λ u. u ++ (q ++ rest)) (sym taken)
        ∙ sym (append_assoc t q rest)
        ∙ ap (λ u. u ++ rest) (sym g) in
      let (w', go, a) =
        payload_arrives app {w = set_input w b} {v = set_input w1 b} fin opcode old key payload rest
          kept code m key_size
          (record {
            fin = r.fin;
            code = r.code;
            mask = r.mask;
            size = r.size;
            key = r.key;
            left = subst (Holds b) behind k;
            capacity = refl;
            rest = (
              r.rest.0,
              r.rest.1,
              r.rest.2,
              r.rest.3,
              r.rest.4,
              ap (λ (c : TcpConnection). record c { buf = b }) r.rest.5,
            );
          }) in
      (
        w1,
        w',
        step_parsed app w fresh run ∙ read_payload_short app v r.left less,
        subst (Holds v.conn.buf) taken r.left,
        omega (
          arith,
          r.size,
          ap length taken,
          ap length g,
          length-append t q,
          length-masked key payload,
        ),
        step_read app (set_input w1 b) refl ∙ go,
        a,
      )

  -- A frame with a key of four bytes that arrives in two reads, cut anywhere but at its ends, and with
  -- its payload length in any of the three forms, while the next header is to be read and the input
  -- buffers have less than 2^63 bytes. `decode` returns after the first read: it leaves a part of the
  -- header where it is, takes a whole header, and waits for no more bytes than there are left with the
  -- rest of the frame. Once the input has the rest behind these, the frame is taken up to its last byte
  -- and dispatched with its payload, unmasked, behind what `decodeBuf_` held, as when it arrives whole.
  pub frame_in_pieces :
      0 < length p
      → length b.buf < 2 ^ 63
      → Holds b (
          remains_of (length (frame_header_bytes fin opcode (length payload) key)) p ++ (q ++ rest))
      → (w1 w' : WebSocketConnection) × (decode_step app w ≡ ok (w1, false))
        × Holds w1.conn.buf
            (remains_of (length (frame_header_bytes fin opcode (length payload) key)) p)
        × (w1.wanted
            ≤ length (remains_of (length (frame_header_bytes fin opcode (length payload) key)) p)
              + length q)
        × (decode_step app (set_input w1 b) ≡ dispatch app w' (length old))
        × Arrived (set_input w b) fin opcode old payload rest w'
  frame_in_pieces some room = elim (Bool-cases (ltb (length p) (length header))) [
    | inl few ↦ rw few λ k. in_header some (ltb→lt (length p) (length header) few) room k
    | inr many ↦ rw many λ k. in_payload (ground arith) k
  ]
