-- ===== src/TcpConnection/Tests.antt =====
-- The theorems on TCP connections at concrete inputs.
use websocket_engine.Base.{
  ◌+◌, ◌<◌, ◌≡◌, refl, ◌⊎◌, false, true, [], ◌∷◌, ◌++◌, arith, Outcome, ok, abort, ◌>>=◌,
}
use websocket_engine.Buffer.{Buffer, contents, readable_bytes, ensure_space, expand}
use websocket_engine.Buffer.Space.{IsValid}
use websocket_engine.Buffer.Queue.{Holds, advance}
use websocket_engine.TcpConnection.{
  TcpConnection, connected, disconnected, disconnecting, writting, new, send, send_message,
  handle_close, write_done, receive, uv_alloc, uv_read, failed, nothing, connection_established,
  set_state, write_to_uv,
}
use websocket_engine.TcpConnection.Stream.{stream, Inv}
use websocket_engine.TcpConnection.Reach.{
  Reach, start, next, established, sends, receive-Holds, Reach-Inv,
}
use websocket_engine.TcpConnection.Closing.{
  close_flushes, failed_write_wedges, eof_while_disconnecting, send_message_outlived,
}

abbrev empty_buffer : Buffer
empty_buffer = record { buf = 0 ∷ 0 ∷ []; read_index = 0; write_index = 0; last_expand = 0 }

abbrev full_buffer : Buffer
full_buffer = record { buf = 0 ∷ 5 ∷ 6 ∷ []; read_index = 1; write_index = 3; last_expand = 0 }

-- Connected, with nothing under way.
abbrev idle : TcpConnection
idle = record {
  id = 7;
  loop = 0;
  state = connected;
  buf = full_buffer;
  output_buf = empty_buffer;
  is_last_write = false;
  bytes_read = 2;
  bytes_written = 0;
  last_write = 0;
  reading = true;
  written = [];
  in_flight = 0;
  connection_calls = 1;
  close_calls = 0;
}

-- A write of one byte is under way, and two bytes wait.
abbrev busy : TcpConnection
busy = record idle {
  state = writting;
  output_buf = full_buffer;
  last_write = 1;
  written = 4 ∷ [];
  in_flight = 1;
}

full-IsValid : IsValid full_buffer
full-IsValid = record { order = omega arith; fits = omega arith }

idle-Inv : Inv idle
idle-Inv = ground arith

busy-Inv : Inv busy
busy-Inv = ground arith

receive-Holds_example :
    (c' : TcpConnection) × (receive (uv_alloc idle).0 (7 ∷ 8 ∷ []) ≡ ok c')
    × Holds c'.buf (contents idle.buf ++ (7 ∷ 8 ∷ []))
    × (c'.bytes_read ≡ idle.bytes_read + 2)
unfolding uv_alloc ensure_space expand
receive-Holds_example = receive-Holds idle (7 ∷ 8 ∷ []) full-IsValid (omega arith)

close_flushes_example :
    ((d : TcpConnection) × ((handle_close busy >>= λ x. write_done x false) ≡ ok d)
      × (readable_bytes busy.output_buf ≡ 0)
      × (d.state ≡ disconnected)
      × (d.written ≡ stream busy)
      × (d.in_flight ≡ 0)
      × (d.close_calls ≡ 1))
    ⊎ ((d : TcpConnection) × ((handle_close busy >>= λ x.
            write_done x false >>= λ y. write_done y false)
          ≡ ok d)
        × (0 < readable_bytes busy.output_buf)
        × (d.state ≡ disconnected)
        × (d.written ≡ stream busy)
        × (d.in_flight ≡ 0)
        × (d.close_calls ≡ 1))
close_flushes_example = close_flushes busy busy-Inv refl refl

-- What the server does with a message, where it does nothing.
abbrev ignored : TcpConnection → Outcome TcpConnection
ignored c = ok c

failed_write_wedges_example :
    (d : TcpConnection) × (write_done busy true ≡ ok d)
    × (d.state ≡ disconnecting)
    × (d.in_flight ≡ 0)
    × (d.close_calls ≡ 0)
    × (uv_read ignored d failed ≡ abort)
    × (send d (1 ∷ []) ≡ abort)
failed_write_wedges_example = failed_write_wedges busy ignored (1 ∷ []) busy-Inv refl

eof_while_disconnecting_example :
    ((handle_close busy >>= λ d. uv_read ignored d failed) ≡ abort)
    × ((handle_close busy >>= λ d. uv_read ignored d nothing) ≡ abort)
eof_while_disconnecting_example = eof_while_disconnecting busy ignored refl

send_message_outlived_example :
    (d : TcpConnection) × (e : TcpConnection) × (send_message idle full_buffer (1 ∷ [])
      ≡ ok (d, advance full_buffer (readable_bytes full_buffer)))
    × (d.state ≡ connected)
    × (uv_read ignored d failed ≡ ok e)
    × (e.state ≡ disconnected)
    × (e.close_calls ≡ 1)
    × (e.in_flight ≡ 1)
send_message_outlived_example =
    send_message_outlived idle ignored (1 ∷ []) idle-Inv full-IsValid refl

-- A connection is established, and two pieces are sent.
abbrev opened : TcpConnection
opened = connection_established (new 0 7 0)

history : (c : TcpConnection) × Reach (new 0 7 0) ((([] ++ []) ++ (1 ∷ [])) ++ (2 ∷ [])) c
unfolding new connection_established set_state send write_to_uv
history =
    (_, next (next (next start (established refl)) (sends (1 ∷ []) refl)) (sends (2 ∷ []) refl))

Reach-Inv_example : Inv history.0 × (stream history.0 ≡ 1 ∷ 2 ∷ [])
Reach-Inv_example = Reach-Inv 0 7 0 history.1
