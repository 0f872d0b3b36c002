-- ===== src/WebSocketConnection/Header/Whole.antt =====
-- src/WebSocketConnection.cpp: `decode`'s header as a whole, on the bytes that have arrived.
use websocket_engine.Base.{
  ℕ, ◌+◌, ◌-◌, ◌/◌, ◌%◌, ◌^◌, ◌≤◌, ◌<◌, ◌≡◌, refl, sym, ap, ◌∙◌, ◌⊎◌, inl, inr, false, List, [],
  ◌∷◌, arith, ltb, Bool-cases, length, take, drop, All, ok, ltb→lt, le→ltb_false, drop-drop,
  length-drop,
}
use mathlib.Core.Path.{subst}
use websocket_engine.Buffer.{readable_bytes, host}
use websocket_engine.Buffer.Space.{IsValid}
use websocket_engine.Buffer.Queue.{Holds, readable-Holds, advance}
use websocket_engine.Buffer.Numbers.{IsByte, advance_front}
use websocket_engine.WebSocketConnection.Types.{WebSocketConnection, set_input}
use websocket_engine.WebSocketConnection.Decode.{
  parsed, wait_for, read_mask, read_length, read_header,
}
use websocket_engine.WebSocketConnection.Header.{
  extension, is_masked, header_size, frame_length, Waits, mask_short, mask_none, mask_read,
  length_plain, length_two_short, length_eight_short, length_two, length_eight, second_short,
  after_second, second_read, after_first, first_read,
}
use websocket_engine.WebSocketConnection.Header.Stages.{Reading, wait_back, Ends-cast, drop_left}
pub use websocket_engine.WebSocketConnection.Header.Stages.{key_size, Read, Ends}

module _ {w : WebSocketConnection} (i : IsValid w.conn.buf) (small : length w.conn.buf.buf < 2 ^ 63)
    (x y : ℕ) where
  no_key-Read :
      {n payload : ℕ} {zs : List ℕ} {v : WebSocketConnection}
      → Reading w x y n payload zs v
      → is_masked y ≡ false
      → Read w x y payload (take 4 zs) zs v
  no_key-Read r bare = record {
    fin = r.fin;
    code = r.code;
    mask = r.mask;
    size = r.size;
    key = λ e. cc;
    left = r.left;
    capacity = ap (λ b. length b.buf) r.behind;
    rest = r.rest;
  }

  keyed-Read :
      {n payload : ℕ} {zs : List ℕ} {v : WebSocketConnection}
      → Reading w x y n payload zs v
      → 4 ≤ length zs
      → Read w x y payload
          (take 4 zs)
          (drop 4 zs)
          (set_input (record v { mask_key = take 4 zs }) (advance v.conn.buf 4))
  keyed-Read {v = v} r many = record {
    fin = r.fin;
    code = r.code;
    mask = r.mask;
    size = r.size;
    key = λ e. refl;
    left = drop_left 4 r.left many;
    capacity = ap (λ b. length b.buf) r.behind;
    rest = r.rest;
  }

  mask_stage :
      {n payload : ℕ} {zs : List ℕ} (v : WebSocketConnection)
      → Reading w x y n payload zs v
      → Ends w x y
          (n + length zs)
          (n + key_size y)
          payload
          (take 4 zs)
          (drop (key_size y) zs)
          (read_mask v n)
  mask_stage {n} {payload} {zs} v r = elim (Bool-cases (is_masked y)) [
    | inr bare ↦
        rw bare (inr (omega arith, v, mask_none v r.left n (r.mask ∙ bare), no_key-Read r bare))
    | inl m ↦ elim (Bool-cases (ltb (length zs) 4)) [
      | inl few ↦ rw m (
          inl (
            ground arith,
            subst (Waits w w.conn.buf (n + length zs) (n + 4))
                (sym (mask_short v r.left n (r.mask ∙ m) (ground arith)))
                (wait_back w v (n + 4) n i small r.within r.behind r.rest (n + length zs) (n + 4)
                  (ground arith) (omega arith)),
          ))
      | inr many ↦ rw m (
          inr (
            ground arith,
            set_input (record v { mask_key = take 4 zs }) (advance v.conn.buf 4),
            mask_read v r.left n (r.mask ∙ m) (ground arith),
            keyed-Read r (ground arith),
          ))
    ]
  ]

  -- The extended length of `k` bytes is read, and the key comes next.
  longer-Reading :
      (k n : ℕ) {payload : ℕ} {xs : List ℕ} (v : WebSocketConnection)
      → 2 + k ≡ n
      → Reading w x y 2 payload xs v
      → k ≤ length xs
      → Reading w x y n
          (host (take k xs))
          (drop k xs)
          (set_input (record v { payload_length = host (take k xs) }) (advance v.conn.buf k))
  longer-Reading k n {xs = xs} v e r many = record {
    behind =
        ap (λ t. advance t k) r.behind
        ∙ ap (λ t. record w.conn.buf { read_index = t }) (omega arith);
    within = omega (arith, readable-Holds r.left, ap (λ t. readable_bytes t) r.behind);
    left = drop_left k r.left many;
    fin = r.fin;
    code = r.code;
    mask = r.mask;
    size = refl;
    key = r.key;
    rest = r.rest;
  }

  short_length :
      (k want : ℕ) {xs : List ℕ} (v : WebSocketConnection)
      → Reading w x y 2 (y % 128) xs v
      → length xs < k
      → want ≡ 2 + k
      → want ≤ header_size y
      → read_length v ≡ wait_for v want 2
      → Waits w w.conn.buf (2 + length xs) (header_size y) (read_length v)
  short_length k want {xs} v r few p q e =
      subst (Waits w w.conn.buf (2 + length xs) (header_size y)) (sym e) (
        wait_back w v want 2 i small r.within r.behind r.rest (2 + length xs) (header_size y)
          (omega arith) q)

  length_none :
      {xs : List ℕ} (v : WebSocketConnection)
      → Reading w x y 2 (y % 128) xs v
      → y % 128 < 126
      → Ends w x y
          (2 + length xs)
          (header_size y)
          (frame_length y xs)
          (take 4 (drop (extension y) xs))
          (drop (header_size y - 2) xs)
          (read_length v)
  length_none {xs} v r small_length =
      let e : extension y ≡ 0 = ground arith in
      let f : header_size y - 2 ≡ key_size y = ground arith in
      Ends-cast w x y refl (ground arith) (ground arith) (ap (λ t. take 4 (drop t xs)) e)
        (ap (λ t. drop t xs) f)
        (length_plain v r.left (omega (arith, r.size)) (omega (arith, r.size))) (mask_stage v r)

  length_some :
      (k n : ℕ) {xs : List ℕ} (v : WebSocketConnection)
      → Reading w x y 2 (y % 128) xs v
      → 2 + k ≡ n
      → extension y ≡ k
      → 126 ≤ y % 128
      → (length xs < k → read_length v ≡ wait_for v n 2)
      → (k ≤ length xs
          → read_length v
            ≡ read_mask
                (set_input (record v { payload_length = host (take k xs) }) (advance v.conn.buf k))
                n)
      → Ends w x y
          (2 + length xs)
          (header_size y)
          (frame_length y xs)
          (take 4 (drop (extension y) xs))
          (drop (header_size y - 2) xs)
          (read_length v)
  length_some k n {xs} v r e ext long few many = elim (Bool-cases (ltb (length xs) k)) [
    | inl p ↦ inl (
      omega (arith, ext, ltb→lt (length xs) k p),
      short_length k n v r (ground arith) (sym e) (omega (arith, ext)) (few (ground arith)),
    )
    | inr p ↦
        Ends-cast w x y (ground (arith, length-drop k xs)) (omega (arith, ext))
          (rw (le→ltb_false (y % 128) 126 long) (ap (λ t. host (take t xs)) ext))
          (ap (λ t. take 4 (drop t xs)) ext)
          (ap (λ t. drop t xs) (omega (arith, ext))
            ∙ sym (drop-drop (key_size y) k (k + key_size y) xs (omega arith)))
          (many (ground arith)) (mask_stage _ (longer-Reading k n v e r (ground arith)))
  ]

  -- After the second byte, where `xs` is left.
  length_stage :
      {xs : List ℕ} (v : WebSocketConnection)
      → Reading w x y 2 (y % 128) xs v
      → All IsByte xs
      → Ends w x y
          (2 + length xs)
          (header_size y)
          (frame_length y xs)
          (take 4 (drop (extension y) xs))
          (drop (header_size y - 2) xs)
          (read_length v)
  length_stage {xs} v r bytes = elim (form (y % 128) (omega arith)) [
    | inl plain ↦ length_none v r plain
    | inr (inl two) ↦
        length_some 2 4 v r refl (ground arith) (omega arith)
          (length_two_short v r.left (r.size ∙ two)) (length_two v r.left (r.size ∙ two))
    | inr (inr eight) ↦
        length_some 8 10 v r refl (ground arith) (omega arith)
          (length_eight_short v r.left (r.size ∙ eight))
          (λ many. length_eight v r.left (r.size ∙ eight) many bytes)
  ]
    where
      form : (n : ℕ) → n < 128 → (n < 126) ⊎ (n ≡ 126) ⊎ (n ≡ 127)
      form n h = grind arith

  -- Both bytes are there.
  header_two :
      {xs : List ℕ}
      → Holds w.conn.buf (x ∷ y ∷ xs)
      → x < 256
      → y < 256
      → x / 16 % 8 ≡ 0
      → All IsByte xs
      → Ends w x y
          (2 + length xs)
          (header_size y)
          (frame_length y xs)
          (take 4 (drop (extension y) xs))
          (drop (header_size y - 2) xs)
          (read_header w)
  header_two {xs} k hx hy rsv bytes =
      let one = advance_front (x ∷ []) (y ∷ xs) k in
      let two = advance_front (y ∷ []) xs one in
      Ends-cast w x y refl refl refl refl refl
        (first_read w x (y ∷ xs) hx rsv k ∙ second_read (after_first w x) y xs hy one)
        (length_stage (after_second (after_first w x) y)
          (record {
            behind = ap (λ t. record w.conn.buf { read_index = t }) (omega arith);
            within = omega (arith, readable-Holds k);
            left = two;
            fin = refl;
            code = refl;
            mask = refl;
            size = refl;
            key = refl;
            rest = (refl, refl, refl, refl, refl, refl);
          })
          bytes)

-- Reading a frame's header from the bytes that have arrived, whose first has its reserved bits
-- zero. With one byte there, all is left in the input and two bytes are waited for.
pub header_one :
    (w : WebSocketConnection) {x : ℕ}
    → Holds w.conn.buf (x ∷ [])
    → length w.conn.buf.buf < 2 ^ 63
    → x < 256
    → x / 16 % 8 ≡ 0
    → Waits w w.conn.buf 1 2 (read_header w)
header_one w {x} k small h rsv =
    subst (Waits w w.conn.buf 1 2)
      (sym (
        first_read w x [] h rsv k
        ∙ second_short (after_first w x) (advance_front (x ∷ []) [] k) (omega arith)))
      (wait_back w (after_first w x) 2 1 k.valid small (omega (arith, readable-Holds k)) refl
        (refl, refl, refl, refl, refl, refl) 1 2 (omega arith) (omega arith))

-- Reading a frame's header from the bytes that have arrived, at least two, whose first has its
-- reserved bits zero. If they are fewer than the header has, all of them are left in the input, and
-- at least one byte more is waited for, but none beyond the header's end. Otherwise FIN, the opcode,
-- the mask bit, the payload length in whichever of its three forms, and the mask key, if there is
-- one, are those of RFC 6455's layout, and exactly the bytes behind the header are left. In both
-- cases the status, `decodeBuf_`, `outputBuf_`, the kind of the message under way, the noted events and
-- the TCP connection but for its input stay the same.
pub read_header_lem :
    (w : WebSocketConnection) {x y : ℕ} {xs : List ℕ}
    → Holds w.conn.buf (x ∷ y ∷ xs)
    → length w.conn.buf.buf < 2 ^ 63
    → x < 256
    → y < 256
    → All IsByte xs
    → x / 16 % 8 ≡ 0
    → ((2 + length xs < header_size y)
        × Waits w w.conn.buf (2 + length xs) (header_size y) (read_header w))
      ⊎ ((header_size y ≤ 2 + length xs)
          × (w' : WebSocketConnection) × (read_header w ≡ ok (w', parsed))
          × Read w x y
              (frame_length y xs)
              (take 4 (drop (extension y) xs))
              (drop (header_size y - 2) xs)
              w')
read_header_lem w {x} {y} k small hx hy bytes rsv = header_two k.valid small x y k hx hy rsv bytes
