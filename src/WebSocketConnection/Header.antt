-- ===== src/WebSocketConnection/Header.antt =====
-- src/WebSocketConnection.cpp: the header that `decode` reads, against the layout of RFC 6455.
pub mod Stages
pub mod Whole
use mathlib.Core.Path.{subst}
use websocket_engine.Base.{
  ℕ, zero, suc, ◌+◌, ◌-◌, ◌*◌, ◌/◌, ◌%◌, ◌^◌, ◌≤◌, ◌<◌, bit_and, ◌≡◌, ◌≢◌, refl, sym, ap, ◌∙◌, ◌⊎◌,
  inl, inr, Bool, true, false, not, List, [], ◌∷◌, ◌++◌, arith, ltb, leb, ◌==◌, if◌then◌else◌,
  Bool-cases, length, take, drop, All, Outcome, ok, ◌>>=◌, drop-drop, take-append-drop, length-take,
  length-drop, le→ltb_false, lt→ltb,
}
use websocket_engine.Base.Bits.{bit_and_mask, rsv_bits}
use websocket_engine.Buffer.{
  Buffer, readable_bytes, contents, host, read_typed_number, uint8, uint16, uint64, unread, read,
  size_of,
}
use websocket_engine.Buffer.Space.{IsValid}
use websocket_engine.Buffer.Queue.{
  Holds, readable-Holds, advance, advance-Holds, unread-advance, read_ok,
}
use websocket_engine.Buffer.Numbers.{IsByte, read_short, read_long, advance_front}
use websocket_engine.WebSocketConnection.Types.{WebSocketConnection, protocol_error, set_input}
use websocket_engine.WebSocketConnection.Send.{close}
use websocket_engine.WebSocketConnection.Decode.{
  HeaderEnd, parsed, short, refused, wait_for, read_mask, read_length, read_second, read_header,
}

-- The number of bytes of the extended length, by the second byte of a frame.
abbrev pub extension : ℕ → ℕ
extension second = if second % 128 == 126 then 2 else if second % 128 == 127 then 8 else 0

abbrev pub is_masked : ℕ → Bool
is_masked second = leb 128 second

-- The length of a frame's header.
abbrev pub header_size : ℕ → ℕ
header_size second = 2 + extension second + (if is_masked second then 4 else 0)

-- The payload length, from the second byte and what follows it.
abbrev pub frame_length : ℕ → List ℕ → ℕ
frame_length second more =
    if ltb (second % 128) 126 then second % 128 else host (take (extension second) more)

-- The parts of a connection that reading a header leaves alone.
abbrev pub Untouched : WebSocketConnection → WebSocketConnection → Type 0
Untouched w w' =
    (w'.status ≡ w.status)
    × (w'.decode_buf ≡ w.decode_buf)
    × (w'.output_buf ≡ w.output_buf)
    × (w'.fragmented_op_code ≡ w.fragmented_op_code)
    × (w'.events ≡ w.events)
    × (record w'.conn { buf = w.conn.buf } ≡ w.conn)

-- The input is put back and at least one byte more is waited for, but none beyond the header.
abbrev pub Waits :
    WebSocketConnection → Buffer → ℕ → ℕ → Outcome (WebSocketConnection × HeaderEnd) → Type 0
Waits w b have size o =
    (w' : WebSocketConnection) × (o ≡ ok (w', short))
    × (w'.conn.buf ≡ b)
    × (w'.header_read ≡ false)
    × (have < w'.wanted)
    × (w'.wanted ≤ size)
    × Untouched w w'

host_eight :
    (xs : List ℕ)
    → 8 ≤ length xs
    → host (take 8 xs) ≡ host (take 4 xs) * 2 ^ 32 + host (take 4 (drop 4 xs))
host_eight (a ∷ b ∷ c ∷ d ∷ e ∷ f ∷ g ∷ h ∷ xs) p = omega arith
host_eight [] p = absurd (omega arith)
host_eight (a ∷ []) p = absurd (omega arith)
host_eight (a ∷ b ∷ []) p = absurd (omega arith)
host_eight (a ∷ b ∷ c ∷ []) p = absurd (omega arith)
host_eight (a ∷ b ∷ c ∷ d ∷ []) p = absurd (omega arith)
host_eight (a ∷ b ∷ c ∷ d ∷ e ∷ []) p = absurd (omega arith)
host_eight (a ∷ b ∷ c ∷ d ∷ e ∷ f ∷ []) p = absurd (omega arith)
host_eight (a ∷ b ∷ c ∷ d ∷ e ∷ f ∷ g ∷ []) p = absurd (omega arith)

All-take : (n : ℕ) (xs : List ℕ) → All IsByte xs → All IsByte (take n xs)
All-take zero xs h = tt
All-take (suc n) [] h = tt
All-take (suc n) (x ∷ xs) h = (h.0, All-take n xs h.1)

All-drop : (n : ℕ) (xs : List ℕ) → All IsByte xs → All IsByte (drop n xs)
All-drop zero xs h = h
All-drop (suc n) [] h = tt
All-drop (suc n) (x ∷ xs) h = All-drop n xs h.1

three_parts : (xs : List ℕ) → take 4 xs ++ (take 4 (drop 4 xs) ++ drop 8 xs) ≡ xs
three_parts xs =
    ap (λ t. take 4 xs ++ (take 4 (drop 4 xs) ++ t)) (sym (drop-drop 4 4 8 xs refl))
    ∙ ap (◌++◌ (take 4 xs)) (take-append-drop 4 (drop 4 xs))
    ∙ take-append-drop 4 xs

module _ (w : WebSocketConnection) {xs : List ℕ} (k : Holds w.conn.buf xs) where
  mask_short : (n : ℕ) → w.masked ≡ true → length xs < 4 → read_mask w n ≡ wait_for w (n + 4) n
  unfolding read_mask
  mask_short n m few = ground (arith, readable-Holds k)

  mask_none : (n : ℕ) → w.masked ≡ false → read_mask w n ≡ ok (w, parsed)
  unfolding read_mask
  mask_none n m = ground arith

  mask_read :
      (n : ℕ)
      → w.masked ≡ true
      → 4 ≤ length xs
      → read_mask w n
        ≡ ok (set_input (record w { mask_key = take 4 xs }) (advance w.conn.buf 4), parsed)
  unfolding read_mask
  mask_read n m many =
      ground (arith, readable-Holds k, read_ok 4 k.valid (omega (arith, readable-Holds k)), k.held)

  length_plain : w.payload_length ≢ 126 → w.payload_length ≢ 127 → read_length w ≡ read_mask w 2
  unfolding read_length
  length_plain p q = ground arith

  length_two_short : w.payload_length ≡ 126 → length xs < 2 → read_length w ≡ wait_for w 4 2
  unfolding read_length
  length_two_short p few = ground (arith, readable-Holds k)

  length_eight_short : w.payload_length ≡ 127 → length xs < 8 → read_length w ≡ wait_for w 10 2
  unfolding read_length
  length_eight_short p few = ground (arith, readable-Holds k)

  split_input : (n : ℕ) → Holds w.conn.buf (take n xs ++ drop n xs)
  split_input n = record { valid = k.valid; held = k.held ∙ sym (take-append-drop n xs) }

  length_two :
      w.payload_length ≡ 126
      → 2 ≤ length xs
      → read_length w
        ≡ read_mask
            (set_input (record w { payload_length = host (take 2 xs) }) (advance w.conn.buf 2))
            4
  unfolding read_length
  length_two p many = ground (
    arith,
    readable-Holds k,
    read_short (drop 2 xs) uint16 (take 2 xs) (split_input 2) (omega (arith, length-take 2 xs))
        (omega arith),
  )

  length_eight :
      w.payload_length ≡ 127
      → 8 ≤ length xs
      → All IsByte xs
      → read_length w
        ≡ read_mask
            (set_input (record w { payload_length = host (take 8 xs) }) (advance w.conn.buf 8))
            10
  unfolding read_length
  length_eight p many bytes = ground (
    arith,
    readable-Holds k,
    host_eight xs many,
    read_long (drop 8 xs) (take 4 xs) (take 4 (drop 4 xs)) halves (omega (arith, length-take 4 xs))
        (omega (arith, length-take 4 (drop 4 xs), length-drop 4 xs)) (All-take 4 xs bytes)
        (All-take 4 (drop 4 xs) (All-drop 4 xs bytes)),
  )
    where
      halves : Holds w.conn.buf (take 4 xs ++ (take 4 (drop 4 xs) ++ drop 8 xs))
      halves = record { valid = k.valid; held = k.held ∙ sym (three_parts xs) }

  second_short : length xs < 1 → read_second w ≡ wait_for w 2 1
  unfolding read_second
  second_short few = ground (arith, readable-Holds k)

-- The connection once the second byte is read.
abbrev after_second : WebSocketConnection → ℕ → WebSocketConnection
after_second w y =
    set_input (record w { masked = is_masked y; payload_length = y % 128; wanted = y % 128 })
      (advance w.conn.buf 1)

second_read :
    (w : WebSocketConnection) (y : ℕ) (xs : List ℕ)
    → y < 256
    → Holds w.conn.buf (y ∷ xs)
    → read_second w ≡ read_length (after_second w y)
unfolding read_second
second_read w y xs h k =
    ground
      (arith, readable-Holds k, read_short xs uint8 (y ∷ []) k refl (omega arith), bit_and_mask 7 y)

-- The connection once the first byte is read.
abbrev after_first : WebSocketConnection → ℕ → WebSocketConnection
after_first w x =
    set_input (record w { is_fin = leb 128 x; opcode = x % 16 }) (advance w.conn.buf 1)

read_one :
    {b : Buffer} (x : ℕ) (xs : List ℕ)
    → Holds b (x ∷ xs)
    → read_typed_number uint8 b ≡ ok (x, advance b 1)
read_one {b} x xs k =
    read_short xs uint8 (x ∷ []) k refl (omega arith) ∙ ap (λ t. ok (t, advance b 1)) (omega arith)

fin_bit : (x : ℕ) → not (x / 2 ^ 7 == 0) ≡ leb 128 x
fin_bit x = ground arith

rsv_clear : (x : ℕ) → x < 256 → x / 16 % 8 ≡ 0 → (bit_and x 0x70 == 0) ≡ true
rsv_clear x h r = ground (arith, rsv_bits x h)

rsv_set : (x : ℕ) → x < 256 → x / 16 % 8 ≢ 0 → (bit_and x 0x70 == 0) ≡ false
rsv_set x h r = ground (arith, rsv_bits x h)

first_read :
    (w : WebSocketConnection) (x : ℕ) (xs : List ℕ)
    → x < 256
    → x / 16 % 8 ≡ 0
    → Holds w.conn.buf (x ∷ xs)
    → read_header w ≡ read_second (after_first w x)
unfolding read_header
first_read w x xs h rsv k = rw (read_one x xs k, rsv_clear x h rsv, fin_bit x, bit_and_mask 4 x)

-- A frame whose reserved bits are not zero is refused: the connection sends a close frame with
-- code 1002 and stops reading.
pub header_refused :
    (w : WebSocketConnection) (x : ℕ) (xs : List ℕ)
    → x < 256
    → x / 16 % 8 ≢ 0
    → Holds w.conn.buf (x ∷ xs)
    → read_header w
      ≡ (close (set_input w (advance w.conn.buf 1)) protocol_error >>= λ w'. ok (w', refused))
unfolding read_header
header_refused w x xs h rsv k = rw (read_one x xs k, rsv_set x h rsv)
