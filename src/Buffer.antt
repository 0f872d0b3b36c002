-- ===== src/Buffer.antt =====
-- include/ws/Buffer.h: the byte buffer behind every read and write.
-- A method that changes the buffer returns the new one. `abort` is a failed `assert`. Indices are
-- natural numbers: they do not leave the range of `int` as long as less than 2 GiB is buffered.
pub mod Queue
pub mod Space
pub mod Numbers
pub mod Trim
pub mod Trace
mod Tests
use websocket_engine.Base.{
  ℕ, zero, suc, ◌+◌, ◌-◌, ◌*◌, ◌/◌, ◌%◌, ◌^◌, ◌≤◌, bit_and, bit_or, Bool, ◌&&◌, List, [], ◌∷◌, ltb,
  leb, ◌==◌, if◌then◌else◌, length, take, drop, replicate, overwrite, resize, Outcome, ok, abort,
  assert, ◌>>=◌, ◌>>◌,
}
use websocket_engine.Base.Int.{ℤ, pos, negsuc, neg}

-- The fields `buf_`, `readIndex_`, `writeIndex_` and `lastExpand_`.
pub record Buffer : Type 0 where
  pub buf : List ℕ
  pub read_index : ℕ
  pub write_index : ℕ
  pub last_expand : ℕ

abbrev pub initial_size : ℕ
initial_size = 1024

abbrev pub expand_threshold : ℕ
expand_threshold = 3

abbrev pub expand_size : ℕ
expand_size = 8192

-- `Buffer(len)`; `new initial_size` is `Buffer()`. The vector's new elements are zeros.
unfoldable pub new : ℕ → Buffer
new len = record { buf = replicate len 0; read_index = 0; write_index = 0; last_expand = 0 }

abbrev pub size : Buffer → ℕ
size b = length b.buf

abbrev pub remaining : Buffer → ℕ
remaining b = size b - b.write_index

abbrev pub available : Buffer → ℕ
available b = size b - b.write_index + b.read_index

abbrev pub readable_bytes : Buffer → ℕ
readable_bytes b = b.write_index - b.read_index

abbrev pub empty : Buffer → Bool
empty b = readable_bytes b == 0

-- A pointer into the array stands for the bytes from there on.
abbrev pub begin : Buffer → List ℕ
begin b = b.buf

abbrev pub write_start : Buffer → List ℕ
write_start b = drop b.write_index (begin b)

-- The `len` bytes from `peek()` on.
abbrev pub peek : Buffer → ℕ → List ℕ
peek b len = take len (drop b.read_index (begin b))

-- The bytes that are buffered and not yet read.
abbrev pub contents : Buffer → List ℕ
contents b = peek b (readable_bytes b)

-- The block that `ensureSpace`, `updateWriteIndex` and `shrink` have in common: the readable bytes
-- are moved to the front of the array.
unfoldable pub compact : Buffer → Buffer
compact b = record b {
  buf = overwrite b.buf 0 (contents b);
  read_index = 0;
  write_index = readable_bytes b;
}

-- `left` more bytes than remain are wanted, which is more than 0.
unfoldable pub expand : Buffer → ℕ → ℕ → Buffer × ℕ
expand b len left =
    let bumped = b.last_expand + 1 in
    if ltb expand_threshold bumped
    then (let grown : Buffer = record b {
      buf = resize (size b + left + expand_size) 0 b.buf;
      last_expand = 0;
    } in
        (grown, remaining grown))
    else (record b { buf = resize (size b + left) 0 b.buf; last_expand = bumped }, len)

-- `ensureSpace`, with the number that it returns.
unfoldable pub ensure_space : Buffer → ℕ → Buffer × ℕ
unfolding expand compact
ensure_space b len =
    if leb len (remaining b)
    then (b, remaining b)
    else if leb len (available b)
    then (compact b, len)
    else expand b len (len - remaining b)

-- `std::copy` to `writeStart()`, and the write index moves on.
unfoldable pub append_at : Buffer → List ℕ → Buffer
append_at b src = record b {
  buf = overwrite b.buf b.write_index src;
  write_index = b.write_index + length src;
}

-- `write(const char *, size_t)`
unfoldable pub write : Buffer → List ℕ → Buffer
unfolding append_at
write b src = append_at (ensure_space b (length src)).0 src

-- `writeString`, of an `std::string` or a `String`, given as its `c_str()` and `size()`.
abbrev pub write_string : Buffer → List ℕ → Buffer
write_string b input = write b input

unfoldable pub retrieve : Buffer → ℕ → Outcome Buffer
retrieve b len = do
  assert (leb (b.read_index + len) b.write_index)
  ok (record b { read_index = b.read_index + len })

-- `read(size_t)`, which only moves the read index
unfoldable pub skip : Buffer → ℕ → Outcome Buffer
skip b len = do
  assert (leb (b.read_index + len) b.write_index)
  ok (record b { read_index = b.read_index + len })

-- `read(char *, size_t)`: what goes to `dst`, and the buffer.
unfoldable pub read : Buffer → ℕ → Outcome (List ℕ × Buffer)
read b len = do assert (leb len (readable_bytes b)); b' ← retrieve b len; ok (peek b len, b')

-- `readIndex_ - len` is a `size_t`, so it wraps, and the first half of the assertion is always true.
unfoldable pub unread : Buffer → ℕ → Outcome Buffer
unread b len = do
  let rest = (b.read_index + 2 ^ 64 - len) % 2 ^ 64
  assert (leb 0 rest && leb rest b.write_index)
  ok (record b { read_index = rest })

-- `readString`
unfoldable pub read_string : Buffer → Outcome (List ℕ × Buffer)
read_string b = do b' ← retrieve b (readable_bytes b); ok (contents b, b')

-- `write(Buffer& src, size_t len)`: this buffer, and `src` after it.
unfoldable pub write_from : Buffer → Buffer → ℕ → Outcome (Buffer × Buffer)
write_from b src len = do let b' = write b (peek src len); src' ← retrieve src len; ok (b', src')

-- `write(Buffer& src)`
abbrev pub write_all : Buffer → Buffer → Outcome (Buffer × Buffer)
write_all b src = write_from b src (readable_bytes src)

-- `updateWriteIndex`. Where the index would fall below 0, it falls below the read index too, and
-- is set to that.
unfoldable pub update_write_index : Buffer → ℤ → Outcome Buffer
update_write_index b (negsuc n) =
    let back = b.write_index - suc n in
    ok (record b { write_index = if ltb back b.read_index then b.read_index else back })
update_write_index b (pos delta) = do
  assert (leb delta (available b) && leb b.read_index (b.write_index + delta))
  ok (
      if leb delta (remaining b)
      then record b { write_index = b.write_index + delta }
      else (let moved = compact b in record moved { write_index = moved.write_index + delta }))

unfoldable pub unwrite : Buffer → ℕ → Outcome Buffer
unfolding update_write_index
unwrite b len =
    if ltb (readable_bytes b) len
    then update_write_index b (neg (readable_bytes b))
    else update_write_index b (neg len)

abbrev pub get_write_index : Buffer → ℕ
get_write_index b = b.write_index

unfoldable pub clear : Buffer → Buffer
clear b = record b { read_index = 0; write_index = 0 }

-- `shrink`: the bytes move to the front, and both they and the array are cut to `len`.
unfoldable pub shrink : Buffer → ℕ → Buffer
unfolding compact
shrink b len =
    let front = if ltb 0 b.read_index then compact b else b in
    record front {
      buf = resize len 0 front.buf;
      write_index = if ltb len (readable_bytes front) then len else front.write_index;
    }

unfoldable pub shrink_to_fit : Buffer → Buffer
unfolding shrink
shrink_to_fit b = shrink b (readable_bytes b)

-- A value of `k` bytes in network order, which is what `htons`, `htonl` leave in memory.
abbrev pub network : ℕ → ℕ → List ℕ
network zero v = []
network (suc k) v = v / 256 ^ k % 256 ∷ network k v

-- The number that `k` bytes in network order stand for, as `ntohs`, `ntohl` read it.
abbrev pub host : List ℕ → ℕ
host [] = 0
host (x ∷ xs) = x * 256 ^ length xs + host xs

-- The parameter of `putByte` has 8 bits.
unfoldable pub put_byte : Buffer → ℕ → Buffer
put_byte b byte = write b (byte % 2 ^ 8 ∷ [])

unfoldable pub put_uint16 : Buffer → ℕ → Buffer
put_uint16 b word = write b (network 2 (word % 2 ^ 16))

unfoldable pub put_uint32 : Buffer → ℕ → Buffer
put_uint32 b integer = write b (network 4 (integer % 2 ^ 32))

-- The mask has 36 bits; the cast drops the upper four.
unfoldable pub put_uint64 : Buffer → ℕ → Buffer
put_uint64 b big_int =
    let high = big_int / 2 ^ 32 % 2 ^ 32 in
    let low = bit_and big_int 0xf_ffff_ffff % 2 ^ 32 in put_uint32 (put_uint32 b high) low

-- The types at which `readTypedNumber` is used.
pub data Width : Type 0 where
  uint8 uint16 uint32 uint64 : Width

abbrev pub size_of : Width → ℕ
size_of uint8 = 1
size_of uint16 = 2
size_of uint32 = 4
size_of uint64 = 8

-- The `switch` of `readTypedNumber`, on the bytes at `peek()`.
abbrev pub typed_value : Width → Buffer → ℕ
typed_value uint8 b = host (peek b 1)
typed_value uint16 b = host (peek b 2)
typed_value uint32 b = host (peek b 4)
typed_value uint64 b =
    bit_or (host (peek b 4) * 2 ^ 32 % 2 ^ 64) (host (take 4 (drop (b.read_index + 4) b.buf)))

unfoldable pub read_typed_number : Width → Buffer → Outcome (ℕ × Buffer)
read_typed_number w b = do
  assert (leb (size_of w) (readable_bytes b))
  b' ← retrieve b (size_of w)
  ok (typed_value w b, b')
