-- ===== src/Buffer/Space.antt =====
-- include/ws/Buffer.h: the indices of a buffer, and its room, `ensureSpace`.
use websocket_engine.Base.{
  ℕ, ◌+◌, ◌-◌, ◌≤◌, ◌≡◌, refl, ap, ◌∙◌, inl, inr, arith, ltb, leb, Bool-cases, length, take, drop,
  overwrite, resize, length-take, length-drop, length-overwrite, length-resize, take-overwrite,
  window-resize,
}
use websocket_engine.Buffer.{
  Buffer, expand_threshold, expand_size, size, remaining, available, readable_bytes, contents,
  compact, expand, ensure_space,
}

pub record IsValid (b : Buffer) : Type 0 where
  pub order : b.read_index ≤ b.write_index
  pub fits : b.write_index ≤ length b.buf

pub length-contents : {b : Buffer} → IsValid b → length (contents b) ≡ readable_bytes b
length-contents {b} v = omega (
  arith,
  length-take (readable_bytes b) (drop b.read_index b.buf),
  length-drop b.read_index b.buf,
)

pub compact-IsValid : {b : Buffer} → IsValid b → IsValid (compact b)
unfolding compact
compact-IsValid {b} v = omega (arith, length-overwrite b.buf 0 (contents b))

pub contents-compact : {b : Buffer} → IsValid b → contents (compact b) ≡ contents b
unfolding compact
contents-compact {b} v =
    ap (λ k. take k (overwrite b.buf 0 (contents b))) (omega arith)
    ∙ take-overwrite 0 (readable_bytes b) b.buf (contents b) (omega (arith, length-contents v))
        (omega (arith, length-contents v))

pub readable-compact : (b : Buffer) → readable_bytes (compact b) ≡ readable_bytes b
unfolding compact
readable-compact b = omega arith

pub size-compact : (b : Buffer) → size (compact b) ≡ size b
unfolding compact
size-compact b = length-overwrite b.buf 0 (contents b)

-- `b'` is `b` with room for `len` more bytes, and `n` bytes may be stored behind its write index.
pub record HasRoom (b : Buffer) (len : ℕ) (b' : Buffer) (n : ℕ) : Type 0 where
  pub valid : IsValid b'
  pub kept : contents b' ≡ contents b
  pub same : readable_bytes b' ≡ readable_bytes b
  pub room : len ≤ remaining b'
  pub asked : len ≤ n
  pub inside : n ≤ remaining b'
  pub grown : length b.buf ≤ length b'.buf

compact-HasRoom :
    {b : Buffer} (len : ℕ) → IsValid b → len ≤ available b → HasRoom b len (compact b) len
unfolding compact
compact-HasRoom {b} len v h = record {
  valid = compact-IsValid v;
  kept = contents-compact v;
  same = omega arith;
  room = omega (arith, length-overwrite b.buf 0 (contents b));
  asked = omega arith;
  inside = omega (arith, length-overwrite b.buf 0 (contents b));
  grown = omega (arith, length-overwrite b.buf 0 (contents b));
}

contents-resize :
    {b : Buffer} (n last : ℕ)
    → IsValid b
    → b.write_index ≤ n
    → contents (record b { buf = resize n 0 b.buf; last_expand = last }) ≡ contents b
contents-resize {b} n last v h =
    window-resize b.read_index (readable_bytes b) n 0 b.buf (omega arith) (omega arith)

expand-HasRoom :
    {b : Buffer} (len left : ℕ)
    → IsValid b
    → remaining b + left ≡ len
    → HasRoom b len (expand b len left).0 (expand b len left).1
unfolding expand
expand-HasRoom {b} len left v e = elim (Bool-cases (ltb expand_threshold (b.last_expand + 1))) [
  | inl far ↦ rw far (record {
    valid = omega (arith, length-resize (size b + left + expand_size) 0 b.buf);
    kept = contents-resize (size b + left + expand_size) 0 v (omega arith);
    same = refl;
    room = omega (arith, length-resize (size b + left + expand_size) 0 b.buf);
    asked = omega (arith, length-resize (size b + left + expand_size) 0 b.buf);
    inside = omega (arith, length-resize (size b + left + expand_size) 0 b.buf);
    grown = omega (arith, length-resize (size b + left + expand_size) 0 b.buf);
  })
  | inr near ↦ rw near (record {
    valid = omega (arith, length-resize (size b + left) 0 b.buf);
    kept = contents-resize (size b + left) (b.last_expand + 1) v (omega arith);
    same = refl;
    room = omega (arith, length-resize (size b + left) 0 b.buf);
    asked = omega arith;
    inside = omega (arith, length-resize (size b + left) 0 b.buf);
    grown = omega (arith, length-resize (size b + left) 0 b.buf);
  })
]

-- `ensureSpace` on a valid buffer makes room for what is asked, whether it has to move the bytes, grow
-- the array or neither: the readable bytes stay the same, the buffer stays valid, and the number that
-- it returns is at least what is asked and within the room behind the write index.
pub ensure_space-HasRoom :
    {b : Buffer} (len : ℕ) → IsValid b → HasRoom b len (ensure_space b len).0 (ensure_space b len).1
unfolding ensure_space
ensure_space-HasRoom {b} len v = elim (Bool-cases (leb len (remaining b))) [
  | inl plenty ↦ rw plenty (record {
    valid = v;
    kept = refl;
    same = refl;
    room = ground arith;
    asked = ground arith;
    inside = omega arith;
    grown = omega arith;
  })
  | inr short ↦ elim (Bool-cases (leb len (available b))) [
    | inl enough ↦ rw (short, enough) (compact-HasRoom len v (ground arith))
    | inr full ↦ rw (short, full) (expand-HasRoom len (len - remaining b) v (ground arith))
  ]
]
