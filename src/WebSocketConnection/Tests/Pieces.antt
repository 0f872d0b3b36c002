-- ===== src/WebSocketConnection/Tests/Pieces.antt =====
-- A frame that arrives in two reads, and its mask, at a concrete input.
use websocket_engine.Base.{ℕ, ◌≤◌, ◌≡◌, refl, true, false, List, [], ◌∷◌, ◌++◌, arith, ok}
use websocket_engine.Base.{All}
use websocket_engine.Buffer.Queue.{Holds}
use websocket_engine.WebSocketConnection.Types.{set_input, WebSocketConnection}
use websocket_engine.WebSocketConnection.Decode.{unmask, decode_step, dispatch}
use websocket_engine.WebSocketConnection.Frames.{client_frame, Arrived}
use websocket_engine.WebSocketConnection.Masking.{masked, unmask-masked}
use websocket_engine.WebSocketConnection.Pieces.{frame_in_pieces}
use websocket_engine.WebSocketConnection.Tests.{
  IsByte, holding, holding-Holds, opened, app, all_bytes-All, key, hi,
}

-- The header and the first byte of the payload, and the other byte.
abbrev first_read : List ℕ
first_read = 129 ∷ 130 ∷ 1 ∷ 2 ∷ 3 ∷ 4 ∷ 73 ∷ []

abbrev second_read : List ℕ
second_read = 107 ∷ []

cut_frame : client_frame true 1 key hi ≡ first_read ++ second_read
cut_frame = refl

cut_frame-IsByte : All IsByte (client_frame true 1 key hi ++ (9 ∷ []))
cut_frame-IsByte = all_bytes-All (client_frame true 1 key hi ++ (9 ∷ [])) refl

frame_in_pieces_example :
    (w1 w' : WebSocketConnection) × (decode_step app (opened first_read []) ≡ ok (w1, false))
    × Holds w1.conn.buf (73 ∷ [])
    × (w1.wanted ≤ 2)
    × (decode_step app (set_input w1 (holding (73 ∷ 107 ∷ 9 ∷ []))) ≡ dispatch app w' 0)
    × Arrived
        (set_input (opened first_read []) (holding (73 ∷ 107 ∷ 9 ∷ [])))
        true
        1
        []
        hi
        (9 ∷ [])
        w'
frame_in_pieces_example =
    frame_in_pieces app (opened first_read []) true 1 [] key hi first_read second_read (9 ∷ [])
      (holding (73 ∷ 107 ∷ 9 ∷ [])) refl (holding-Holds []) cut_frame (omega arith) cut_frame-IsByte
      (omega arith) (omega arith) (omega arith) refl (holding-Holds first_read) (omega arith)
      (omega arith) (holding-Holds (73 ∷ 107 ∷ 9 ∷ []))

unmask-masked_example : unmask key 0 (masked key (9 ∷ hi ++ hi)) ≡ 9 ∷ hi ++ hi
unmask-masked_example = unmask-masked key (9 ∷ hi ++ hi) refl
