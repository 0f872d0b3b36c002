-- ===== src/Buffer/Tests.antt =====
-- Tests of the buffer, and its theorems at concrete inputs.

use websocket_engine.Base.{ℕ, ◌≡◌, refl, List, [], ◌∷◌, arith, ok, ◌>>=◌}
use websocket_engine.Buffer.{
  Buffer, size, readable_bytes, contents, ensure_space, retrieve, write, uint64, size_of,
  put_uint64, put_uint32, append_at, compact, expand, read_typed_number,
}
use websocket_engine.Buffer.Space.{IsValid, HasRoom, ensure_space-HasRoom}
use websocket_engine.Buffer.Queue.{advance}
use websocket_engine.Buffer.Numbers.{put_typed, read-put_typed}
use websocket_engine.Buffer.Trace.{
  put, get, room, take_back, trim, get_all, run, queue_run, run-refines,
}

-- Two bytes read, three to read, one free.
abbrev sample : Buffer
sample = record {
  buf = 9 ∷ 8 ∷ 1 ∷ 2 ∷ 3 ∷ 0 ∷ [];
  read_index = 2;
  write_index = 5;
  last_expand = 0;
}

sample-IsValid : IsValid sample
sample-IsValid = record { order = omega arith; fits = omega arith }

-- The bytes at the front are moved when the room behind the write index is too small.
test_compact : contents (write sample (4 ∷ 5 ∷ 6 ∷ [])) ≡ 1 ∷ 2 ∷ 3 ∷ 4 ∷ 5 ∷ 6 ∷ []
unfolding write ensure_space append_at compact expand
test_compact = refl

test_grow : size (write sample (4 ∷ 5 ∷ 6 ∷ 7 ∷ [])) ≡ 9
unfolding write ensure_space append_at compact expand
test_grow = refl

test_long :
    (read_typed_number uint64 (put_uint64 (advance sample 3) 0x0102030405060708) >>= λ r. ok r.0)
    ≡ ok 0x0102030405060708
unfolding read_typed_number put_uint64 put_uint32 write ensure_space append_at retrieve compact
    expand
test_long = refl

run-refines_example :
    run sample (put (4 ∷ 5 ∷ []) ∷ get 2 ∷ take_back 1 ∷ room 7 ∷ trim 1 ∷ get_all ∷ get 1 ∷ [])
    ≡ queue_run
        (contents sample)
        (put (4 ∷ 5 ∷ []) ∷ get 2 ∷ take_back 1 ∷ room 7 ∷ trim 1 ∷ get_all ∷ get 1 ∷ [])
run-refines_example =
    run-refines (put (4 ∷ 5 ∷ []) ∷ get 2 ∷ take_back 1 ∷ room 7 ∷ trim 1 ∷ get_all ∷ get 1 ∷ [])
      sample-IsValid

ensure_space-HasRoom_example : HasRoom sample 4 (ensure_space sample 4).0 (ensure_space sample 4).1
ensure_space-HasRoom_example = ensure_space-HasRoom 4 sample-IsValid

read-put_typed_example :
    (b' : Buffer) × (retrieve (put_typed uint64 sample 0x0102030405060708) (readable_bytes sample)
      ≡ ok b')
    × (read_typed_number uint64 b' ≡ ok (0x0102030405060708, advance b' (size_of uint64)))
    × (contents (advance b' (size_of uint64)) ≡ [])
read-put_typed_example = read-put_typed uint64 0x0102030405060708 sample-IsValid (omega arith)

abbrev got : List ℕ
got = 4 ∷ []
