-- ===== src/WebSocketConnection/Payload.antt =====
-- src/WebSocketConnection.cpp: the payload that `decode` moves into `decodeBuf_` and unmasks there.

use mathlib.Core.Path.{ap₂}
use websocket_engine.Base.{
  ℕ, suc, ◌+◌, ◌%◌, ◌≤◌, ◌<◌, ◌≡◌, refl, sym, ap, ◌∙◌, Bool, true, false, List, [], ◌∷◌, ◌++◌,
  arith, ltb, if◌then◌else◌, length, get_or, take, drop, overwrite, Outcome, ok, ◌>>=◌,
  length-append, take-length-append, drop-length-append, length-overwrite, drop-overwrite,
  take-overwrite, take-take, length-drop, le→ltb_false, lt→ltb,
}
use websocket_engine.Base.Bits.{bit_xor_twice}
use websocket_engine.Buffer.{Buffer, readable_bytes, contents, write, write_from}
use websocket_engine.Buffer.Queue.{Holds, readable-Holds, advance, write-Holds, write_from_ok}
use websocket_engine.Buffer.Numbers.{advance_front}
use websocket_engine.WebSocketConnection.Types.{WebSocketConnection, Callbacks, set_input}
use websocket_engine.WebSocketConnection.Decode.{
  unmask, unmask_buf, Handled, dispatch, read_payload,
}

pub length-unmask : (key : List ℕ) (i : ℕ) (xs : List ℕ) → length (unmask key i xs) ≡ length xs
unfolding unmask
length-unmask key i [] = refl
length-unmask key i (x ∷ xs) = ap suc (length-unmask key (i + 1) xs)

-- Masking is its own inverse: what a client masked with a key, from any offset on, is unmasked
-- with that key to the bytes it was.
pub unmask_twice : (key : List ℕ) (i : ℕ) (xs : List ℕ) → unmask key i (unmask key i xs) ≡ xs
unfolding unmask
unmask_twice key i [] = refl
unmask_twice key i (x ∷ xs) =
    ap (λ t. t ∷ unmask key (i + 1) (unmask key (i + 1) xs))
      (bit_xor_twice x (get_or key (i % 4) 0))
    ∙ ap (◌∷◌ x) (unmask_twice key (i + 1) xs)

-- Unmasking in place changes the payload, and not the bytes of earlier fragments before it.
pub unmask_buf-Holds :
    {b : Buffer} (key old p : List ℕ)
    → Holds b (old ++ p)
    → Holds (unmask_buf b key (length old)) (old ++ unmask key 0 p)
unfolding unmask_buf
unmask_buf-Holds {b} key old p k =
    let n = readable-Holds k in
    let l = length-append old p in
    let new : List ℕ = unmask key 0 (drop (length old) (contents b)) in
    let tail : drop (length old) (contents b) ≡ p =
      ap (drop (length old)) k.held ∙ drop-length-append old p in
    let m : length new ≡ length p =
      length-unmask key 0 (drop (length old) (contents b)) ∙ ap length tail in
    record {
      valid = omega (arith, k.valid, length-overwrite b.buf (b.read_index + length old) new);
      held =
          ap (take (readable_bytes b)) (
            drop-overwrite b.read_index (b.read_index + length old) b.buf new (omega arith)
            ∙ ap (λ t. overwrite (drop b.read_index b.buf) t new) (omega arith))
          ∙ take-overwrite (length old) (readable_bytes b) (drop b.read_index b.buf) new
              (omega (arith, length-drop b.read_index b.buf, k.valid)) (omega arith)
          ∙ ap (λ t. t ++ new)
              (sym (
                  take-take (length old) (readable_bytes b) (drop b.read_index b.buf) (omega arith))
                ∙ ap (take (length old)) k.held
                ∙ take-length-append old p)
          ∙ ap (λ t. old ++ unmask key 0 t) tail;
    }

-- The payload bytes as the application sees them.
abbrev pub plain : Bool → List ℕ → List ℕ → List ℕ
plain masked key p = if masked then unmask key 0 p else p

fill-Holds :
    {raw : Buffer} (masked : Bool) (key old p : List ℕ)
    → Holds raw (old ++ p)
    → Holds (if masked then unmask_buf raw key (length old) else raw) (old ++ plain masked key p)
fill-Holds true key old p k = unmask_buf-Holds key old p k
fill-Holds false key old p k = k

-- `read_payload`, with the payload length and the origin as arguments.
abbrev read_from : Callbacks → WebSocketConnection → ℕ → ℕ → Outcome Handled
read_from app w m o =
    if ltb (readable_bytes w.conn.buf) m
    then ok (record w { header_read = true; split = true; wanted = m }, false)
    else (do
      (b, input) ← write_from w.decode_buf w.conn.buf m
      let filled = if w.masked then unmask_buf b w.mask_key o else b
      dispatch app (set_input (record w { header_read = true; decode_buf = filled }) input) o)

-- Once the whole payload has arrived, it is taken from the input and stands unmasked behind what
-- `decodeBuf_` held, and the frame is dispatched by its opcode.
pub read_payload_whole :
    (app : Callbacks) (w : WebSocketConnection) (old p rest : List ℕ)
    → Holds w.decode_buf old
    → Holds w.conn.buf (p ++ rest)
    → w.payload_length ≡ length p
    → (b : Buffer) × (read_payload app w
        ≡ dispatch app
            (set_input
              (record w { header_read = true; decode_buf = b })
              (advance w.conn.buf (length p)))
            (length old))
      × Holds b (old ++ plain w.masked w.mask_key p)
      × Holds (advance w.conn.buf (length p)) rest
unfolding read_payload
read_payload_whole app w old p rest k i n =
    let raw = write w.decode_buf p in
    let put = write-Holds p k.valid in
    let filled_with : Holds raw (old ++ p) = record {
      valid = put.valid;
      held = put.held ∙ ap (λ t. t ++ p) k.held;
    } in
    let enough : length p ≤ readable_bytes w.conn.buf =
      omega (arith, readable-Holds i, length-append p rest) in
    let took : take (length p) (contents w.conn.buf) ≡ p =
      ap (take (length p)) i.held ∙ take-length-append p rest in
    (
      if w.masked then unmask_buf raw w.mask_key (length old) else raw,
      ap₂ (λ m o. read_from app w m o) n (readable-Holds k)
          ∙ rw (
            le→ltb_false (readable_bytes w.conn.buf) (length p) enough,
            write_from_ok w.decode_buf (length p) i.valid enough,
            took,
          ),
      fill-Holds w.masked w.mask_key old p filled_with,
      advance_front p rest i,
    )

-- While some of it is still to come, nothing is consumed, and the rest of the payload is waited for.
pub read_payload_short :
    (app : Callbacks) (w : WebSocketConnection) {p : List ℕ}
    → Holds w.conn.buf p
    → length p < w.payload_length
    → read_payload app w
      ≡ ok (record w { header_read = true; split = true; wanted = w.payload_length }, false)
unfolding read_payload
read_payload_short app w i h =
    rw (lt→ltb (readable_bytes w.conn.buf) w.payload_length (omega (arith, readable-Holds i)))
