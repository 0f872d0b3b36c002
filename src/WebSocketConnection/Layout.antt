-- ===== src/WebSocketConnection/Layout.antt =====
-- src/WebSocketConnection.cpp, `writeHeader`: the frames that it writes, by the layout of RFC 6455.

use websocket_engine.Base.{
  ℕ, ◌+◌, ◌^◌, ◌<◌, bit_and, bit_or, ◌≡◌, ap, ◌∙◌, inl, inr, true, List, [], ◌∷◌, ◌++◌, arith, ltb,
  leb, if◌then◌else◌, Bool-cases, length, ok, lt→ltb,
}
use websocket_engine.Buffer.{Buffer, empty, network, write, put_byte, put_uint16, put_uint64}
use websocket_engine.Buffer.Queue.{Holds, write-Holds, readable-Holds}
use websocket_engine.Buffer.Numbers.{put_byte-Holds, put_uint16-Holds, put_uint64-Holds}
use websocket_engine.WebSocketConnection.Send.{write_header}

-- The length of a payload as RFC 6455 writes it, without a mask.
abbrev pub length_field : ℕ → List ℕ
length_field n =
    if ltb n 126 then n ∷ [] else if leb n 0xffff then 126 ∷ network 2 n else 127 ∷ network 8 n

-- A frame that is whole: FIN set, no reserved bit, no mask.
abbrev pub frame : ℕ → List ℕ → List ℕ
frame opcode payload = (128 + opcode) ∷ length_field (length payload) ++ payload

pub append_byte :
    {b : Buffer} {bytes : List ℕ} (v : ℕ)
    → Holds b bytes
    → v < 256
    → Holds (put_byte b v) (bytes ++ (v ∷ []))
append_byte v k h =
    let put = put_byte-Holds v k.valid h in
    record { valid = put.valid; held = put.held ∙ ap (λ t. t ++ (v ∷ [])) k.held }

pub append_word :
    {b : Buffer} {bytes : List ℕ} (v : ℕ)
    → Holds b bytes
    → v < 2 ^ 16
    → Holds (put_uint16 b v) (bytes ++ network 2 v)
append_word v k h =
    let put = put_uint16-Holds v k.valid h in
    record { valid = put.valid; held = put.held ∙ ap (λ t. t ++ network 2 v) k.held }

pub append_long :
    {b : Buffer} {bytes : List ℕ} (v : ℕ)
    → Holds b bytes
    → v < 2 ^ 64
    → Holds (put_uint64 b v) (bytes ++ network 8 v)
append_long v k h =
    let put = put_uint64-Holds v k.valid h in
    record { valid = put.valid; held = put.held ∙ ap (λ t. t ++ network 8 v) k.held }

pub append_text :
    {b : Buffer} {bytes : List ℕ} (text : List ℕ)
    → Holds b bytes
    → Holds (write b text) (bytes ++ text)
append_text text k =
    let put = write-Holds text k.valid in
    record { valid = put.valid; held = put.held ∙ ap (λ t. t ++ text) k.held }

-- `writeHeader` on an empty buffer writes the first byte of a whole frame and the payload length,
-- in the shortest of the three forms.
pub write_header_lem :
    {out : Buffer} (n opcode : ℕ)
    → Holds out []
    → n < 2 ^ 64
    → bit_and 0x8f (bit_or 0x80 opcode) ≡ 128 + opcode
    → opcode < 16
    → (out' : Buffer) × (write_header out n opcode ≡ ok out')
      × Holds out' ((128 + opcode) ∷ length_field n)
unfolding write_header
write_header_lem {out} n opcode k h c o =
    let one = append_byte (128 + opcode) k (omega arith) in
    elim (Bool-cases (ltb n 126)) [
      | inl small ↦ (
        put_byte (put_byte out (128 + opcode)) n,
        rw (nothing, c, small),
        rw small (append_byte n one (ground arith)),
      )
      | inr large ↦ elim (Bool-cases (leb n 0xffff)) [
        | inl two ↦ (
          put_uint16 (put_byte (put_byte out (128 + opcode)) 126) n,
          rw (nothing, c, large, two),
          rw (large, two) (append_word n (append_byte 126 one (omega arith)) (ground arith)),
        )
        | inr eight ↦ (
          put_uint64 (put_byte (put_byte out (128 + opcode)) 127) n,
          rw (nothing, c, large, eight, lt→ltb 0xfff n (ground arith)),
          rw (large, eight) (append_long n (append_byte 127 one (omega arith)) h),
        )
      ]
    ]
  where
    nothing : empty out ≡ true
    nothing = ground (arith, readable-Holds k)
