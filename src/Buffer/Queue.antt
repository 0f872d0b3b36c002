-- ===== src/Buffer/Queue.antt =====
-- include/ws/Buffer.h, the buffer as a queue of bytes: what each method does to the bytes not yet read.

use websocket_engine.Base.{
  ℕ, zero, suc, ◌+◌, ◌-◌, ◌^◌, ◌≤◌, ◌<◌, min, ◌≡◌, refl, sym, ap, ◌∙◌, inl, inr, List, [], ◌++◌,
  arith, ltb, Bool-cases, length, take, drop, overwrite, ok, abort, length-drop, length-overwrite,
  take-overwrite, drop-overwrite, drop-take, take-take, drop-drop, le→leb, lt→leb_false,
  le→ltb_false,
}
use websocket_engine.Base.Int.{pos, neg}
use websocket_engine.Buffer.{
  Buffer, new, remaining, readable_bytes, peek, contents, append_at, write, retrieve, read, unread,
  read_string, write_from, update_write_index, unwrite,
}
use websocket_engine.Buffer.Space.{IsValid, ensure_space-HasRoom, length-contents}

pub new-IsValid : (n : ℕ) → IsValid (new n) × (contents (new n) ≡ [])
unfolding new
new-IsValid n = (record { order = omega arith; fits = omega arith }, refl)

-- `b'` holds the bytes `bytes`.
pub record Holds (b : Buffer) (bytes : List ℕ) : Type 0 where
  pub valid : IsValid b
  pub held : contents b ≡ bytes

pub append_at-Holds :
    {b : Buffer} (src : List ℕ)
    → IsValid b
    → length src ≤ remaining b
    → Holds (append_at b src) (contents b ++ src)
unfolding append_at
append_at-Holds {b} src v h = record {
  valid = omega (arith, length-overwrite b.buf b.write_index src);
  held =
      ap (take (b.write_index + length src - b.read_index))
        (drop-overwrite b.read_index b.write_index b.buf src (omega arith))
      ∙ take-overwrite (readable_bytes b) (b.write_index + length src - b.read_index)
          (drop b.read_index b.buf) src (omega (arith, length-drop b.read_index b.buf))
          (omega arith);
}

-- `write` appends.
pub write-Holds : {b : Buffer} (src : List ℕ) → IsValid b → Holds (write b src) (contents b ++ src)
unfolding write
write-Holds {b} src v =
    let h = ensure_space-HasRoom (length src) v in
    rw (← h.kept) (append_at-Holds src h.valid h.room)

pub readable-Holds : {b : Buffer} {bytes : List ℕ} → Holds b bytes → readable_bytes b ≡ length bytes
readable-Holds h = omega (arith, length-contents h.valid, ap length h.held)

-- The buffer after `len` bytes are read.
abbrev pub advance : Buffer → ℕ → Buffer
advance b len = record b { read_index = b.read_index + len }

pub advance-Holds :
    {b : Buffer} (len : ℕ)
    → IsValid b
    → len ≤ readable_bytes b
    → Holds (advance b len) (drop len (contents b))
advance-Holds {b} len v h = record {
  valid = omega arith;
  held =
      ap (take (b.write_index - (b.read_index + len)))
        (sym (drop-drop len b.read_index (b.read_index + len) b.buf (omega arith)))
      ∙ ap (λ t. take t (drop len (drop b.read_index b.buf))) (omega arith)
      ∙ sym (drop-take len (readable_bytes b) (drop b.read_index b.buf));
}

pub retrieve_ok :
    {b : Buffer} (len : ℕ)
    → IsValid b
    → len ≤ readable_bytes b
    → retrieve b len ≡ ok (advance b len)
unfolding retrieve
retrieve_ok {b} len v h = rw (le→leb (b.read_index + len) b.write_index (omega arith))

-- `retrieve` fails its assertion exactly when more is asked than is buffered.
pub retrieve_abort : (b : Buffer) (len : ℕ) → readable_bytes b < len → retrieve b len ≡ abort
unfolding retrieve
retrieve_abort b len h = rw (lt→leb_false (b.read_index + len) b.write_index (omega arith))

pub peek-contents :
    (b : Buffer) (len : ℕ) → len ≤ readable_bytes b → peek b len ≡ take len (contents b)
peek-contents b len h = sym (take-take len (readable_bytes b) (drop b.read_index b.buf) h)

pub read_ok :
    {b : Buffer} (len : ℕ)
    → IsValid b
    → len ≤ readable_bytes b
    → read b len ≡ ok (take len (contents b), advance b len)
unfolding read
read_ok {b} len v h =
    rw (le→leb len (readable_bytes b) h, retrieve_ok len v h, peek-contents b len h)

pub read_string_ok :
    {b : Buffer} → IsValid b → read_string b ≡ ok (contents b, advance b (readable_bytes b))
unfolding read_string
read_string_ok {b} v = rw (retrieve_ok (readable_bytes b) v (omega arith))

-- `unread` puts back what was just read, on a valid buffer whose array has less than 2^63 bytes.
pub unread-advance :
    {b : Buffer} (len : ℕ)
    → IsValid b
    → length b.buf < 2 ^ 63
    → len ≤ readable_bytes b
    → unread (advance b len) len ≡ ok b
unfolding unread
unread-advance {b} len v small h = ground arith

pub write_from_ok :
    (b : Buffer) {src : Buffer} (len : ℕ)
    → IsValid src
    → len ≤ readable_bytes src
    → write_from b src len ≡ ok (write b (take len (contents src)), advance src len)
unfolding write_from
write_from_ok b {src} len v h = rw (retrieve_ok len v h, peek-contents src len h)

-- The buffer after the last `len` bytes written are taken back, as far as there are any.
abbrev pub cut : Buffer → ℕ → Buffer
cut b len = record b { write_index = b.write_index - min len (readable_bytes b) }

-- `-n` as a `ssize_t`; at 0 this is the branch of a move forward.
update_back :
    {b : Buffer} (n : ℕ)
    → IsValid b
    → n ≤ readable_bytes b
    → update_write_index b (neg n) ≡ ok (record b { write_index = b.write_index - n })
unfolding update_write_index
update_back {b} zero v h = ground arith
update_back {b} (suc n) v h = rw (le→ltb_false (b.write_index - suc n) b.read_index (omega arith))

pub unwrite_ok : {b : Buffer} (len : ℕ) → IsValid b → unwrite b len ≡ ok (cut b len)
unfolding unwrite
unwrite_ok {b} len v = elim (Bool-cases (ltb (readable_bytes b) len)) [
  | inl all ↦
      rw (all, update_back (readable_bytes b) v (omega arith))
        (ap (λ t. ok (record b { write_index = b.write_index - t })) (ground arith))
  | inr some_left ↦
      rw (some_left, update_back len v (ground arith))
        (ap (λ t. ok (record b { write_index = b.write_index - t })) (ground arith))
]

pub cut-Holds :
    {b : Buffer} (len : ℕ)
    → IsValid b
    → Holds (cut b len) (take (readable_bytes b - len) (contents b))
cut-Holds {b} len v = record {
  valid = omega arith;
  held =
      ap (λ t. take t (drop b.read_index b.buf)) (omega arith)
      ∙ sym (
          take-take (readable_bytes b - len) (readable_bytes b) (drop b.read_index b.buf)
            (omega arith));
}

-- `updateWriteIndex`: the bytes that the system stored behind the write index of a valid buffer,
-- no more than there is room for, become readable behind those that were.
pub received-Holds :
    {b : Buffer} (got : List ℕ)
    → IsValid b
    → length got ≤ remaining b
    → (b' : Buffer) × (update_write_index
          (record b { buf = overwrite b.buf b.write_index got })
          (pos (length got))
        ≡ ok b')
      × Holds b' (contents b ++ got)
unfolding update_write_index append_at
received-Holds {b} got v h = (
  append_at b got,
  ground (arith, length-overwrite b.buf b.write_index got),
  append_at-Holds got v h,
)
