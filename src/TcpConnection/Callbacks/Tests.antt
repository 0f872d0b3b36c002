-- ===== src/TcpConnection/Callbacks/Tests.antt =====
-- Connections with callbacks, and addresses, at concrete inputs.
use websocket_engine.Base.{ℕ, ◌≡◌, refl, true, false, List, [], ◌∷◌, ◌++◌, some, Outcome, ok, ◌>>=◌}
use websocket_engine.TcpConnection.{TcpConnection, connected, writting}
use websocket_engine.TcpConnection.{set_state}
use websocket_engine.TcpConnection.Callbacks
use websocket_engine.TcpConnection.Callbacks.{
  Connection, create, create_open, create_first, adopt, adopt_first, connection_established,
  attach_to_loop, send_string, shutdown,
}
use websocket_engine.TcpConnection.Callbacks.Quiet.{AreSet}
use websocket_engine.Base.Int.{pos}
use websocket_engine.TcpConnection.Address.{Names, SockaddrStorage, get_peer_address}
use websocket_engine.Base.Text.{decimal}

-- The owner's state is a log of the callbacks that ran.
abbrev log : ℕ → Connection ℕ → List ℕ → Outcome (Connection ℕ × List ℕ)
log cb p s = ok (p, s ++ (cb ∷ []))

abbrev busy : Connection ℕ
busy = record {
  conn = record {
    id = 7;
    loop = 0;
    state = writting;
    buf = record { buf = 5 ∷ 0 ∷ 0 ∷ 0 ∷ []; read_index = 0; write_index = 1; last_expand = 0 };
    output_buf = record { buf = []; read_index = 0; write_index = 0; last_expand = 0 };
    is_last_write = false;
    bytes_read = 1;
    bytes_written = 0;
    last_write = 3;
    reading = true;
    written = 1 ∷ 2 ∷ 3 ∷ [];
    in_flight = 1;
    connection_calls = 0;
    close_calls = 0;
  };
  calls = record { connection = some 1; message = some 2; close = some 3; write_complete = some 4 };
  fd = some 12;
  shutting = false;
}

busy-AreSet : AreSet busy.calls
busy-AreSet = record { connection = 1; connection_set = refl; close = 3; close_set = refl }

abbrev calls_of : Outcome (Connection ℕ × List ℕ) → Outcome (List ℕ)
calls_of r = r >>= λ out. ok out.1

-- The connection callback runs before the close callback, once the last write is done.
close_order :
    calls_of
      (Callbacks.handle_close log busy [] >>= λ out. Callbacks.write_done log out.0 false out.1)
    ≡ ok (4 ∷ 1 ∷ 3 ∷ [])
unfolding Callbacks.handle_close Callbacks.write_done set_state
close_order = refl

made : (create_open {C = ℕ} 0 12 7 0).fd ≡ some 12
unfolding create_open
made = refl

abbrev loopback : SockaddrStorage
loopback = record { is_inet6 = false; sin_port = 11 ∷ 184 ∷ []; address = 127 ∷ 0 ∷ 0 ∷ 1 ∷ [] }

abbrev names : Names
names = record {
  peer_name = λ len c. loopback;
  sock_name = λ len c. loopback;
  ip4_name = λ a. b'h' ∷ [];
  ip6_name = λ a. b'i' ∷ [];
}

abbrev open_again : TcpConnection
open_again = record busy.conn { state = connected }

asked :
    get_peer_address names (pos 16) open_again ≡ ok (b'h' ∷ b':' ∷ b'3' ∷ b'0' ∷ b'0' ∷ b'0' ∷ [])
unfolding get_peer_address decimal
asked = refl
