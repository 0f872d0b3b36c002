-- ===== src/Buffer/Numbers.antt =====
-- include/ws/Buffer.h: numbers in network order, `putByte` to `putUInt64` and `readTypedNumber`.
use mathlib.Core.List.{append_assoc, append-nil}
use mathlib.Core.Path.{ap₂, subst}
use native.Mathlib.Nat.{pow-suc, mod-eq_of_lt}
use websocket_engine.Base.{
  ℕ, zero, suc, ◌+◌, ◌*◌, ◌/◌, ◌%◌, ◌^◌, ◌≤◌, ◌<◌, ◌≡◌, refl, sym, ap, ◌∙◌, List, [], ◌∷◌, ◌++◌,
  arith, length, take, drop, All, ok, abort, bit_and, bit_or, le→leb, lt→leb_false, length-append,
  take-length-append, drop-length-append,
}
use websocket_engine.Base.Bits.{bit_and_mask, bit_or_fields}
use websocket_engine.Buffer.{
  Buffer, readable_bytes, peek, contents, network, host, put_byte, put_uint16, put_uint32,
  put_uint64, retrieve, Width, uint8, uint16, uint32, uint64, size_of, typed_value,
  read_typed_number,
}
use websocket_engine.Buffer.Space.{IsValid, length-contents}
use websocket_engine.Buffer.Queue.{
  Holds, write-Holds, advance, advance-Holds, retrieve_ok, peek-contents, readable-Holds,
}

abbrev pub IsByte : ℕ → Type 0
IsByte x = x < 256

pub host-lt : (xs : List ℕ) → All IsByte xs → host xs < 256 ^ length xs
host-lt [] h = omega arith
host-lt (x ∷ xs) h =
    let rest = host-lt xs h.1 in let top = h.0 in grind (arith, pow-suc 256 (length xs))

pub host-network_two : (v : ℕ) → v < 2 ^ 16 → host (network 2 v) ≡ v
host-network_two v h = omega arith

pub host-network_four : (v : ℕ) → v < 2 ^ 32 → host (network 4 v) ≡ v
host-network_four v h = omega arith

pub length-network : (k v : ℕ) → length (network k v) ≡ k
length-network zero v = refl
length-network (suc k) v = ap suc (length-network k v)

pub network-All : (k v : ℕ) → All IsByte (network k v)
network-All zero v = tt
network-All (suc k) v = (omega arith, network-All k v)

four :
    (v w : ℕ)
    → v / 256 ^ 3 % 256 ≡ w / 256 ^ 3 % 256
    → v / 256 ^ 2 % 256 ≡ w / 256 ^ 2 % 256
    → v / 256 ^ 1 % 256 ≡ w / 256 ^ 1 % 256
    → v / 256 ^ 0 % 256 ≡ w / 256 ^ 0 % 256
    → network 4 v ≡ network 4 w
four v w a b c d = ap₂ ◌∷◌ a (ap₂ ◌∷◌ b (ap₂ ◌∷◌ c (ap₂ ◌∷◌ d refl)))

network_join : (v : ℕ) → network 4 (v / 2 ^ 32) ++ network 4 v ≡ network 8 v
network_join v =
    ap₂ ◌∷◌ (omega arith)
      (ap₂ ◌∷◌ (omega arith) (ap₂ ◌∷◌ (omega arith) (ap₂ ◌∷◌ (omega arith) refl)))

-- The two halves of `putUInt64` make up one number of 8 bytes.
network_halves :
    (v : ℕ)
    → v < 2 ^ 64
    → network 4 (v / 2 ^ 32 % 2 ^ 32 % 2 ^ 32)
        ++ network 4 (bit_and v 0xf_ffff_ffff % 2 ^ 32 % 2 ^ 32)
      ≡ network 8 v
network_halves v h = rw low (
    ap₂ ◌++◌ {x = network 4 (v / 2 ^ 32 % 2 ^ 32 % 2 ^ 32)} {y = network 4 (v / 2 ^ 32)}
      (four _ _ (omega arith) (omega arith) (omega arith) (omega arith))
      (four (v % 2 ^ 32) v (omega arith) (omega arith) (omega arith) (omega arith))
    ∙ network_join v)
  where
    low : bit_and v 0xf_ffff_ffff % 2 ^ 32 % 2 ^ 32 ≡ v % 2 ^ 32
    low = omega (arith, bit_and_mask 36 v)

pub put_byte-Holds :
    {b : Buffer} (v : ℕ) → IsValid b → v < 2 ^ 8 → Holds (put_byte b v) (contents b ++ (v ∷ []))
unfolding put_byte
put_byte-Holds {b} v i h = rw (mod-eq_of_lt {n = v} {m = 2 ^ 8} h) (write-Holds (v ∷ []) i)

pub put_uint16-Holds :
    {b : Buffer} (v : ℕ)
    → IsValid b
    → v < 2 ^ 16
    → Holds (put_uint16 b v) (contents b ++ network 2 v)
unfolding put_uint16
put_uint16-Holds {b} v i h = rw (mod-eq_of_lt {n = v} {m = 2 ^ 16} h) (write-Holds (network 2 v) i)

pub put_uint32-Holds :
    {b : Buffer} (v : ℕ)
    → IsValid b
    → v < 2 ^ 32
    → Holds (put_uint32 b v) (contents b ++ network 4 v)
unfolding put_uint32
put_uint32-Holds {b} v i h = rw (mod-eq_of_lt {n = v} {m = 2 ^ 32} h) (write-Holds (network 4 v) i)

pub put_uint64-Holds :
    {b : Buffer} (v : ℕ)
    → IsValid b
    → v < 2 ^ 64
    → Holds (put_uint64 b v) (contents b ++ network 8 v)
unfolding put_uint64 put_uint32
put_uint64-Holds {b} v i h =
    let high = write-Holds (network 4 (v / 2 ^ 32 % 2 ^ 32 % 2 ^ 32)) i in
    let low = write-Holds (network 4 (bit_and v 0xf_ffff_ffff % 2 ^ 32 % 2 ^ 32)) high.valid in
    record {
      valid = low.valid;
      held =
          low.held
          ∙ ap (λ t. t ++ network 4 (bit_and v 0xf_ffff_ffff % 2 ^ 32 % 2 ^ 32)) high.held
          ∙ append_assoc (contents b) _ _
          ∙ ap (◌++◌ (contents b)) (network_halves v h);
    }

typed-peek : (w : Width) (b : Buffer) → size_of w ≤ 4 → typed_value w b ≡ host (peek b (size_of w))
typed-peek uint8 b h = refl
typed-peek uint16 b h = refl
typed-peek uint32 b h = refl
typed-peek uint64 b h = absurd (omega arith)

-- `readTypedNumber` fails its assertion on a buffer that holds too few bytes.
pub read_typed_number_abort :
    (w : Width) (b : Buffer) → readable_bytes b < size_of w → read_typed_number w b ≡ abort
unfolding read_typed_number
read_typed_number_abort w b h = rw (lt→leb_false (size_of w) (readable_bytes b) h)

pub peek_front : {b : Buffer} (xs rest : List ℕ) → Holds b (xs ++ rest) → peek b (length xs) ≡ xs
peek_front {b} xs rest h =
    peek-contents b (length xs) (omega (arith, readable-Holds h, length-append xs rest))
    ∙ ap (take (length xs)) h.held
    ∙ take-length-append xs rest

-- Reading a prefix leaves the rest.
pub advance_front :
    {b : Buffer} (xs rest : List ℕ) → Holds b (xs ++ rest) → Holds (advance b (length xs)) rest
advance_front {b} xs rest h =
    let moved =
      advance-Holds (length xs) h.valid (omega (arith, readable-Holds h, length-append xs rest)) in
    record {
      valid = moved.valid;
      held = moved.held ∙ ap (drop (length xs)) h.held ∙ drop-length-append xs rest;
    }

module _ {b : Buffer} (rest : List ℕ) where
  -- One, two and four bytes are read as they stand.
  pub read_short :
      (w : Width) (xs : List ℕ)
      → Holds b (xs ++ rest)
      → length xs ≡ size_of w
      → size_of w ≤ 4
      → read_typed_number w b ≡ ok (host xs, advance b (size_of w))
  unfolding read_typed_number
  read_short w xs h e s =
      rw (le→leb (size_of w) (readable_bytes b) enough, retrieve_ok (size_of w) h.valid enough)
        (ap (λ t. ok (t, advance b (size_of w)))
          (typed-peek w b s ∙ ap host (ap (peek b) (sym e) ∙ peek_front xs rest h)))
    where
      enough : size_of w ≤ readable_bytes b
      enough = omega (arith, readable-Holds h, length-append xs rest)

  -- Eight bytes are read as two numbers of four.
  pub read_long :
      (hi lo : List ℕ)
      → Holds b (hi ++ (lo ++ rest))
      → length hi ≡ 4
      → length lo ≡ 4
      → All IsByte hi
      → All IsByte lo
      → read_typed_number uint64 b ≡ ok (host hi * 2 ^ 32 + host lo, advance b 8)
  unfolding read_typed_number
  read_long hi lo h e s bh bl =
      rw (le→leb 8 (readable_bytes b) enough, retrieve_ok 8 h.valid enough)
        (ap (λ t. ok (t, advance b 8))
          (ap₂ (λ (x y : ℕ). bit_or (x * 2 ^ 32 % 2 ^ 64) y) (ap host high) (ap host low)
            ∙ ap (λ t. bit_or t (host lo))
                (mod-eq_of_lt {n = host hi * 2 ^ 32} {m = 2 ^ 64} (omega (arith, bound hi e bh)))
            ∙ bit_or_fields 32 (host hi) (host lo) (bound lo s bl)))
    where
      bound : (xs : List ℕ) → length xs ≡ 4 → All IsByte xs → host xs < 2 ^ 32
      bound xs n bs = rw n at (host-lt xs bs)

      high : peek b 4 ≡ hi
      high = ap (peek b) (sym e) ∙ peek_front hi (lo ++ rest) h

      low : peek (advance b 4) 4 ≡ lo
      low =
          ap₂ (λ n m. peek (advance b n) m) (sym e) (sym s)
          ∙ peek_front lo rest (advance_front hi (lo ++ rest) h)

      enough : 8 ≤ readable_bytes b
      enough = omega (arith, readable-Holds h, length-append hi (lo ++ rest), length-append lo rest)

-- `put` of a width, and the number read back.
pub put_typed : Width → Buffer → ℕ → Buffer
put_typed uint8 = put_byte
put_typed uint16 = put_uint16
put_typed uint32 = put_uint32
put_typed uint64 = put_uint64

put_typed-Holds :
    (w : Width) {b : Buffer} (v : ℕ)
    → IsValid b
    → v < 256 ^ size_of w
    → Holds (put_typed w b v) (contents b ++ network (size_of w) v)
unfolding put_typed
put_typed-Holds uint8 {b} v i h =
    let e : v / 256 ^ 0 % 256 ≡ v = omega arith in rw e (put_byte-Holds v i h)
put_typed-Holds uint16 v i h = put_uint16-Holds v i h
put_typed-Holds uint32 v i h = put_uint32-Holds v i h
put_typed-Holds uint64 v i h = put_uint64-Holds v i h

-- What stands at the front of a buffer as a number of some width in network order is read as
-- that number, and the read index moves behind it.
pub read_number :
    (w : Width) {b : Buffer} (v : ℕ) (rest : List ℕ)
    → v < 256 ^ size_of w
    → Holds b (network (size_of w) v ++ rest)
    → (read_typed_number w b ≡ ok (v, advance b (size_of w))) × Holds (advance b (size_of w)) rest
read_number uint8 {b} v rest h k = (
  read_short rest uint8 (network 1 v) k refl (omega arith)
      ∙ ap (λ t. ok (t, advance b 1)) (omega arith),
  advance_front (network 1 v) rest k,
)
read_number uint16 {b} v rest h k = (
  read_short rest uint16 (network 2 v) k refl (omega arith)
      ∙ ap (λ t. ok (t, advance b 2)) (omega arith),
  advance_front (network 2 v) rest k,
)
read_number uint32 {b} v rest h k = (
  read_short rest uint32 (network 4 v) k refl (omega arith)
      ∙ ap (λ t. ok (t, advance b 4)) (omega arith),
  advance_front (network 4 v) rest k,
)
read_number uint64 {b} v rest h k = (
  read_long rest (network 4 (v / 2 ^ 32)) (network 4 v) halves refl refl
        (network-All 4 (v / 2 ^ 32)) (network-All 4 v)
      ∙ ap (λ t. ok (t, advance b 8)) (omega arith),
  advance_front (network 8 v) rest k,
)
  where
    halves : Holds b (network 4 (v / 2 ^ 32) ++ (network 4 v ++ rest))
    halves = subst (λ t. Holds b (t ++ rest)) (sym (network_join v)) k

-- Whatever is buffered already, a number written in 1, 2, 4 or 8 bytes stands behind it; and once
-- the bytes before it are read, the number is read back and nothing of it is left.
pub read-put_typed :
    (w : Width) {b : Buffer} (v : ℕ)
    → IsValid b
    → v < 256 ^ size_of w
    → (b' : Buffer) × (retrieve (put_typed w b v) (readable_bytes b) ≡ ok b')
      × (read_typed_number w b' ≡ ok (v, advance b' (size_of w)))
      × (contents (advance b' (size_of w)) ≡ [])
read-put_typed w {b} v i h =
    let put = put_typed-Holds w v i h in
    let n = length-contents i in
    let enough : readable_bytes b ≤ readable_bytes (put_typed w b v) =
      omega (arith, readable-Holds put, length-append (contents b) (network (size_of w) v), n) in
    let moved = advance_front (contents b) (network (size_of w) v) put in
    let front : Holds (advance (put_typed w b v) (readable_bytes b)) (network (size_of w) v ++ []) =
      rw (← n, append-nil) moved in
    let (got, rest) = read_number w v [] h front in
    (
      advance (put_typed w b v) (readable_bytes b),
      retrieve_ok (readable_bytes b) put.valid enough,
      got,
      rest.held,
    )
