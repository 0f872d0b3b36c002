-- ===== src/Buffer/Trim.antt =====
-- include/ws/Buffer.h: `shrink`, `shrinkToFit` and `clear`.
use websocket_engine.Base.{
  ℕ, ◌-◌, ◌≡◌, refl, sym, ap, ◌∙◌, inl, inr, [], arith, ltb, if◌then◌else◌, Bool-cases, length,
  take, drop, resize, length-resize, window-resize, take-take, take_all,
}
use websocket_engine.Buffer.{
  Buffer, size, readable_bytes, contents, compact, clear, shrink, shrink_to_fit,
}
use websocket_engine.Buffer.Space.{IsValid, compact-IsValid, contents-compact, length-contents}
use websocket_engine.Buffer.Queue.{Holds}

cut_front :
    {b : Buffer} (len : ℕ)
    → IsValid b
    → b.read_index ≡ 0
    → Holds
        (record b {
          buf = resize len 0 b.buf;
          write_index = if ltb len (readable_bytes b) then len else b.write_index;
        })
        (take len (contents b))
cut_front {b} len v z = elim (Bool-cases (ltb len (readable_bytes b))) [
  | inl over ↦ rw over (record {
    valid = omega (arith, length-resize len 0 b.buf);
    held =
        window-resize b.read_index (len - b.read_index) len 0 b.buf (omega arith) (ground arith)
        ∙ ap (λ t. take t (drop b.read_index b.buf)) (omega arith)
        ∙ sym (take-take len (readable_bytes b) (drop b.read_index b.buf) (ground arith));
  })
  | inr under ↦ rw under (record {
    valid = ground (arith, length-resize len 0 b.buf);
    held =
        window-resize b.read_index (readable_bytes b) len 0 b.buf (ground arith) (omega arith)
        ∙ sym (take_all len (contents b) (ground (arith, length-contents v)));
  })
]

-- `shrink` keeps the first `len` of the bytes not yet read, in an array of exactly that size.
pub shrink-Holds :
    {b : Buffer} (len : ℕ)
    → IsValid b
    → Holds (shrink b len) (take len (contents b)) × (size (shrink b len) ≡ len)
unfolding shrink
shrink-Holds {b} len v = elim (Bool-cases (ltb 0 b.read_index)) [
  | inl moved ↦ rw moved (
    rw (contents-compact v) at (cut_front len (compact-IsValid v) refl),
    length-resize len 0 (compact b).buf,
  )
  | inr still ↦ rw still (cut_front len v (ground arith), length-resize len 0 b.buf)
]

-- `shrinkToFit` loses no byte and leaves no room.
pub shrink_to_fit-Holds :
    {b : Buffer}
    → IsValid b
    → Holds (shrink_to_fit b) (contents b) × (size (shrink_to_fit b) ≡ length (contents b))
unfolding shrink_to_fit
shrink_to_fit-Holds {b} v =
    let (h, n) = shrink-Holds (readable_bytes b) v in
    (
      record {
        valid = h.valid;
        held = h.held ∙ take_all (readable_bytes b) (contents b) (omega (arith, length-contents v));
      },
      n ∙ sym (length-contents v),
    )

pub clear-Holds : (b : Buffer) → Holds (clear b) [] × (size (clear b) ≡ size b)
unfolding clear
clear-Holds b = (record { valid = omega arith; held = refl }, refl)
