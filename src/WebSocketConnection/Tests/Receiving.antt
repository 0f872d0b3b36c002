-- ===== src/WebSocketConnection/Tests/Receiving.antt =====
-- What `decode` and the handshake do with concrete input.
use websocket_engine.Base.{
  ℕ, suc, ◌+◌, ◌-◌, ◌^◌, ◌≤◌, ◌<◌, ◌≡◌, refl, ◌⊎◌, inl, true, false, List, [], ◌∷◌, ◌++◌, arith,
  ltb→lt, length, take, drop, ok, stuck, ◌>>=◌,
}
use websocket_engine.Buffer.Queue.{Holds}
use websocket_engine.TcpConnection.Closing.{ClosesWritten}
use websocket_engine.WebSocketConnection.Refusals.{close_frame_closes}
use websocket_engine.TcpConnection.Stream.{stream}
use websocket_engine.WebSocketConnection.Types.{WebSocketConnection, message, clear_decode_status}
use websocket_engine.WebSocketConnection.Send.{opcode_for}
use websocket_engine.WebSocketConnection.Decode.{parsed, decode_step, decode, dispatch, read_header}
use websocket_engine.WebSocketConnection.Outgoing.{IsReady, frame}
use websocket_engine.WebSocketConnection.Header.{header_size, extension, frame_length, Waits}
use websocket_engine.WebSocketConnection.Header.Whole.{Read, read_header_lem}
use websocket_engine.WebSocketConnection.Frames.{client_frame, Arrived, frame_arrives}
use websocket_engine.WebSocketConnection.Messages.{HasFrame, Delivered, message_arrives}
use websocket_engine.WebSocketConnection.Control.{Handles, left_over, ping_arrives, pong_arrives}
use websocket_engine.WebSocketConnection.Fragments.{
  Piece, fragment, pinging, ponging, all_of, piece_bytes, piece_text, piece_reply, piece_notes,
  Within, Passes, resume, message_of_pieces,
}
use websocket_engine.WebSocketConnection.Refusals.{Refused, forbidden-Refused, Closed}
use websocket_engine.WebSocketConnection.Endless.{empty_close_hangs, ping_leaks}
use websocket_engine.WebSocketConnection.Tests.{
  holding-Holds, opened, opened-IsReady, on_text, app, ping_notes, pong_notes,
  on_ping-ReturnsNoting, on_pong-ReturnsNoting, all_bytes-All, key, hi, there,
}

abbrev text_in : WebSocketConnection
text_in = opened (client_frame true (opcode_for false) key hi ++ (9 ∷ [])) []

text_in-HasFrame : HasFrame text_in true (opcode_for false) key hi (9 ∷ [])
text_in-HasFrame = record {
  fresh = refl;
  input = holding-Holds (client_frame true (opcode_for false) key hi ++ (9 ∷ []));
  bytes = all_bytes-All (client_frame true (opcode_for false) key hi ++ (9 ∷ [])) refl;
  capacity =
      ltb→lt (length (client_frame true (opcode_for false) key hi ++ (9 ∷ []))) (2 ^ 63) refl;
  size = omega arith;
  key_size = refl;
}

message_arrives_example :
    (w' : WebSocketConnection) × (decode_step app text_in
      ≡ (on_text hi false w' >>= λ v. ok (clear_decode_status v, true)))
    × Delivered text_in hi false (9 ∷ []) w'
message_arrives_example =
    message_arrives app refl text_in false key hi (9 ∷ []) text_in-HasFrame (holding-Holds []) refl

abbrev text_behind : WebSocketConnection
text_behind = opened (client_frame true 1 key hi ++ (9 ∷ [])) there

text_behind-HasFrame : HasFrame text_behind true 1 key hi (9 ∷ [])
text_behind-HasFrame = record {
  fresh = refl;
  input = holding-Holds (client_frame true 1 key hi ++ (9 ∷ []));
  bytes = all_bytes-All (client_frame true 1 key hi ++ (9 ∷ [])) refl;
  capacity = ltb→lt (length (client_frame true 1 key hi ++ (9 ∷ []))) (2 ^ 63) refl;
  size = omega arith;
  key_size = refl;
}

frame_arrives_example :
    (w' : WebSocketConnection) × (decode_step app text_behind ≡ dispatch app w' (length there))
    × Arrived text_behind true 1 there hi (9 ∷ []) w'
frame_arrives_example =
    frame_arrives app text_behind true 1 there key hi (9 ∷ []) refl (holding-Holds there)
      text_behind-HasFrame.input text_behind-HasFrame.bytes text_behind-HasFrame.capacity
      (omega arith) (omega arith) refl

abbrev ping_in : WebSocketConnection
ping_in = opened (client_frame true 9 key hi ++ (9 ∷ [])) there

ping_in-HasFrame : HasFrame ping_in true 9 key hi (9 ∷ [])
ping_in-HasFrame = record {
  fresh = refl;
  input = holding-Holds (client_frame true 9 key hi ++ (9 ∷ []));
  bytes = all_bytes-All (client_frame true 9 key hi ++ (9 ∷ [])) refl;
  capacity = ltb→lt (length (client_frame true 9 key hi ++ (9 ∷ []))) (2 ^ 63) refl;
  size = omega arith;
  key_size = refl;
}

ping_arrives_example :
    (w' : WebSocketConnection) × (decode_step app ping_in ≡ ok (w', true))
    × Handles ping_in (ping_notes hi) (left_over there hi) (9 ∷ []) w'
    × IsReady w'
    × (stream w'.conn ≡ stream ping_in.conn ++ frame 10 hi)
ping_arrives_example =
    ping_arrives app ping_in there key hi (9 ∷ []) on_ping-ReturnsNoting ping_in-HasFrame
      (holding-Holds there) (opened-IsReady (client_frame true 9 key hi ++ (9 ∷ [])) there)
      (omega arith)

abbrev pong_in : WebSocketConnection
pong_in = opened (client_frame true 10 key hi ++ (9 ∷ [])) there

pong_in-HasFrame : HasFrame pong_in true 10 key hi (9 ∷ [])
pong_in-HasFrame = record {
  fresh = refl;
  input = holding-Holds (client_frame true 10 key hi ++ (9 ∷ []));
  bytes = all_bytes-All (client_frame true 10 key hi ++ (9 ∷ [])) refl;
  capacity = ltb→lt (length (client_frame true 10 key hi ++ (9 ∷ []))) (2 ^ 63) refl;
  size = omega arith;
  key_size = refl;
}

pong_arrives_example :
    (w' : WebSocketConnection) × (decode_step app pong_in ≡ ok (w', true))
    × Handles pong_in (pong_notes hi) (left_over there hi) (9 ∷ []) w'
    × (w'.output_buf ≡ pong_in.output_buf)
    × (record w'.conn { buf = pong_in.conn.buf } ≡ pong_in.conn)
pong_arrives_example =
    pong_arrives app pong_in there key hi (9 ∷ []) on_pong-ReturnsNoting pong_in-HasFrame
      (holding-Holds there)

abbrev stray : WebSocketConnection
stray = opened (client_frame false 0 key hi ++ []) []

stray-HasFrame : HasFrame stray false 0 key hi []
stray-HasFrame = record {
  fresh = refl;
  input = holding-Holds (client_frame false 0 key hi ++ []);
  bytes = all_bytes-All (client_frame false 0 key hi ++ []) refl;
  capacity = ltb→lt (length (client_frame false 0 key hi ++ [])) (2 ^ 63) refl;
  size = omega arith;
  key_size = refl;
}

forbidden-Refused_example :
    (w' : WebSocketConnection) × (decode_step app stray ≡ ok (w', false)) × Refused stray w'
forbidden-Refused_example =
    forbidden-Refused app stray false 0 [] key hi [] (inl (refl, refl)) stray-HasFrame
      (holding-Holds []) (omega arith) (opened-IsReady (client_frame false 0 key hi ++ []) [])

abbrev close_in : WebSocketConnection
close_in = opened (client_frame true 8 key hi ++ []) []

close_in-HasFrame : HasFrame close_in true 8 key hi []
close_in-HasFrame = record {
  fresh = refl;
  input = holding-Holds (client_frame true 8 key hi ++ []);
  bytes = all_bytes-All (client_frame true 8 key hi ++ []) refl;
  capacity = ltb→lt (length (client_frame true 8 key hi ++ [])) (2 ^ 63) refl;
  size = omega arith;
  key_size = refl;
}

close_frame_closes_example :
    (w' : WebSocketConnection) × (decode_step app close_in ≡ ok (w', true))
    × Closed close_in [] w'
    × ClosesWritten w'.conn
close_frame_closes_example =
    close_frame_closes app close_in true [] key hi [] close_in-HasFrame (holding-Holds [])
      (opened-IsReady (client_frame true 8 key hi ++ []) []) refl refl

abbrev empty_close : WebSocketConnection
empty_close = opened (client_frame true 8 key [] ++ (9 ∷ [])) []

empty_close-HasFrame : HasFrame empty_close true 8 key [] (9 ∷ [])
empty_close-HasFrame = record {
  fresh = refl;
  input = holding-Holds (client_frame true 8 key [] ++ (9 ∷ []));
  bytes = all_bytes-All (client_frame true 8 key [] ++ (9 ∷ [])) refl;
  capacity = ltb→lt (length (client_frame true 8 key [] ++ (9 ∷ []))) (2 ^ 63) refl;
  size = omega arith;
  key_size = refl;
}

empty_close_hangs_example : decode app 1000 empty_close ≡ stuck
empty_close_hangs_example =
    empty_close_hangs app empty_close 1000 true [] key (9 ∷ []) empty_close-HasFrame
      (holding-Holds []) (opened-IsReady (client_frame true 8 key [] ++ (9 ∷ [])) []) refl
      (omega arith)

abbrev ping_first : WebSocketConnection
ping_first =
    opened (client_frame true 9 key hi ++ (client_frame true (opcode_for false) key there ++ [])) []

ping_first-HasFrame :
    HasFrame ping_first true 9 key hi (client_frame true (opcode_for false) key there ++ [])
ping_first-HasFrame = record {
  fresh = refl;
  input =
      holding-Holds
        (client_frame true 9 key hi ++ (client_frame true (opcode_for false) key there ++ []));
  bytes =
      all_bytes-All
        (client_frame true 9 key hi ++ (client_frame true (opcode_for false) key there ++ [])) refl;
  capacity =
      ltb→lt
        (length
          (client_frame true 9 key hi ++ (client_frame true (opcode_for false) key there ++ [])))
        (2 ^ 63) refl;
  size = omega arith;
  key_size = refl;
}

ping_leaks_example :
    (w1 w2 : WebSocketConnection) × (decode_step app ping_first ≡ ok (w1, true))
    × (decode_step app w1
        ≡ (on_text (hi ++ there) false w2 >>= λ v. ok (clear_decode_status v, true)))
ping_leaks_example =
    ping_leaks app ping_first false key hi key there [] on_ping-ReturnsNoting refl
      ping_first-HasFrame (holding-Holds [])
      (opened-IsReady
        (client_frame true 9 key hi ++ (client_frame true (opcode_for false) key there ++ [])) [])
      refl (omega arith) (refl, omega arith)

abbrev pieces : List Piece
pieces = pinging key there ∷ fragment key (1 ∷ []) ∷ ponging key [] ∷ []

abbrev in_pieces : List ℕ
in_pieces =
    client_frame false (opcode_for true) key hi
    ++ (all_of piece_bytes pieces ++ (client_frame true 0 key there ++ (9 ∷ [])))

in_pieces-Within : Within (opened in_pieces []) 0 [] in_pieces
in_pieces-Within = record {
  fresh = refl;
  kind = refl;
  held = holding-Holds [];
  arrived = holding-Holds in_pieces;
  bytes = all_bytes-All in_pieces refl;
  capacity = ltb→lt (length in_pieces) (2 ^ 63) refl;
  ready = opened-IsReady in_pieces [];
}

message_of_pieces_example :
    (v : WebSocketConnection) × (decode app (suc (length pieces + suc 5)) (opened in_pieces []) ≡ (
      on_text ((hi ++ all_of piece_text pieces) ++ there) true v >>= λ u.
      resume app 5 (clear_decode_status (record u { fragmented_op_code = 0 })) true))
    × Holds v.decode_buf []
    × Holds v.conn.buf (9 ∷ [])
    × Passes (opened in_pieces []) v (all_of piece_reply pieces) (
        all_of (piece_notes ping_notes pong_notes) pieces
        ++ (message ((hi ++ all_of piece_text pieces) ++ there) true ∷ []))
message_of_pieces_example =
    message_of_pieces app on_ping-ReturnsNoting on_pong-ReturnsNoting refl (opened in_pieces [])
      true 5 key hi pieces key there (9 ∷ []) (refl, refl) (omega arith, omega arith, omega arith)
      ((refl, omega arith), ((refl, omega arith), ((refl, omega arith), tt))) in_pieces-Within

abbrev one_byte : WebSocketConnection
one_byte = opened (129 ∷ []) []

-- A binary frame of 200 bytes, of which the key and the payload are still to come.
abbrev cut_off : WebSocketConnection
cut_off = opened (130 ∷ 254 ∷ 0 ∷ 200 ∷ []) []

abbrev behind : List ℕ
behind = 0 ∷ 200 ∷ []

read_header_lem_example :
    ((2 + length behind < header_size 254)
      × Waits cut_off cut_off.conn.buf (2 + length behind) (header_size 254) (read_header cut_off))
    ⊎ ((header_size 254 ≤ 2 + length behind)
        × (w' : WebSocketConnection) × (read_header cut_off ≡ ok (w', parsed))
        × Read cut_off 130 254
            (frame_length 254 behind)
            (take 4 (drop (extension 254) behind))
            (drop (header_size 254 - 2) behind)
            w')
read_header_lem_example =
    read_header_lem cut_off (holding-Holds (130 ∷ 254 ∷ 0 ∷ 200 ∷ [])) (omega arith) (omega arith)
      (omega arith) (omega arith, (omega arith, tt)) (omega arith)
