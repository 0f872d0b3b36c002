-- ===== src/TcpConnection/Address.antt =====
-- include/ws/TcpConnection.h: the addresses of a connection as text. What libuv and the system know
-- of an address is a parameter.
use websocket_engine.Base.{
  ℕ, zero, suc, ◌+◌, ◌-◌, ◌*◌, ◌/◌, ◌%◌, ◌^◌, ◌<◌, ◌≡◌, refl, ap, inl, inr, Bool, true, false, List,
  [], ◌∷◌, ◌++◌, arith, ltb, Bool-cases, if◌then◌else◌, length, All, Outcome, ok, abort, assert,
  ◌>>◌,
}
use websocket_engine.Base.Int.{ℤ}
use websocket_engine.Base.Text.{digits, decimal, undecimal}
use websocket_engine.Buffer.{host}
use websocket_engine.Buffer.Numbers.{IsByte, host-lt}
use websocket_engine.TcpConnection.{TcpConnection, is_state, connected}

-- What `formatAddr` reads of a `sockaddr_storage`: its family, the two bytes of its port and the rest.
pub record SockaddrStorage : Type 0 where
  pub is_inet6 : Bool
  pub sin_port : List ℕ
  pub address : List ℕ

-- What `uv_tcp_getpeername` and `uv_tcp_getsockname` leave in the storage when they are told the given
-- number of bytes for it, which may be too few, and the text that `uv_ip4_name`, `uv_ip6_name` leave.
pub record Names : Type 0 where
  pub peer_name : ℤ → TcpConnection → SockaddrStorage
  pub sock_name : ℤ → TcpConnection → SockaddrStorage
  pub ip4_name : List ℕ → List ℕ
  pub ip6_name : List ℕ → List ℕ

unfoldable pub format_addr : Names → SockaddrStorage → List ℕ
format_addr uv storage =
    let port = host storage.sin_port in
    if storage.is_inet6
    then uv.ip6_name storage.address ++ (b':' ∷ decimal port)
    else uv.ip4_name storage.address ++ (b':' ∷ decimal port)

-- `len` is not initialised, so it is any number; what libuv returns is not looked at.
unfoldable pub get_peer_address : Names → ℤ → TcpConnection → Outcome (List ℕ)
unfolding format_addr
get_peer_address uv len c = do
  assert (is_state c.state connected)
  ok (format_addr uv (uv.peer_name len c))

unfoldable pub get_local_address : Names → ℤ → TcpConnection → Outcome (List ℕ)
unfolding format_addr
get_local_address uv len c = do
  assert (is_state c.state connected)
  ok (format_addr uv (uv.sock_name len c))

undecimal-append :
    (n : ℕ) (xs : List ℕ) (c : ℕ) → undecimal n (xs ++ (c ∷ [])) ≡ undecimal n xs * 10 + (c - 48)
undecimal-append n [] c = refl
undecimal-append n (x ∷ xs) c = undecimal-append (n * 10 + (x - 48)) xs c

div-lt : (n fuel : ℕ) → n < 10 ^ suc fuel → n / 10 < 10 ^ fuel
div-lt n fuel h = omega arith

undecimal-digits : (fuel n : ℕ) → n < 10 ^ fuel → undecimal 0 (digits fuel n) ≡ n
unfolding digits
undecimal-digits zero n h = omega arith
undecimal-digits (suc fuel) n h = elim (Bool-cases (ltb n 10)) [
  | inl small ↦ rw small (omega arith)
  | inr large ↦
      rw
        (
          large,
          undecimal-append 0 (digits fuel (n / 10)) (48 + n % 10),
          undecimal-digits fuel (n / 10) (div-lt n fuel h),
        )
        (omega arith)
]

port_digits :
    (bytes : List ℕ)
    → length bytes ≡ 2
    → All IsByte bytes
    → undecimal 0 (decimal (host bytes)) ≡ host bytes
unfolding decimal
port_digits bytes two small =
    undecimal-digits 10 (host bytes) (omega (arith, host-lt bytes small, ap (λ n. 256 ^ n) two))

-- The name that libuv gives to the address in a storage.
abbrev pub name_of : Names → SockaddrStorage → List ℕ
name_of uv storage =
    if storage.is_inet6 then uv.ip6_name storage.address else uv.ip4_name storage.address

address_text :
    (uv : Names) (storage : SockaddrStorage) (c : TcpConnection)
    → (do assert (is_state c.state connected); ok (format_addr uv storage)) ≡ (
        if is_state c.state connected
        then ok (name_of uv storage ++ (b':' ∷ decimal (host storage.sin_port)))
        else abort)
unfolding format_addr
address_text uv storage c = ground arith

-- The text of either side of a connection in the state `kConnected`, where the two bytes of the port are
-- in the storage: the name of the address that libuv left there, a colon and digits that stand for the
-- port. In every other state, which includes `kWritting`, asking for it fails an assertion.
pub address_lem :
    (uv : Names) (len : ℤ) (c : TcpConnection) (side : Bool)
    → length (if side then uv.peer_name len c else uv.sock_name len c).sin_port ≡ 2
    → All IsByte (if side then uv.peer_name len c else uv.sock_name len c).sin_port
    → (let storage = if side then uv.peer_name len c else uv.sock_name len c in
        (text : List ℕ) × ((if side then get_peer_address uv len c else get_local_address uv len c)
          ≡ (if is_state c.state connected
              then ok (name_of uv storage ++ (b':' ∷ text))
              else abort))
        × (undecimal 0 text ≡ host storage.sin_port))
unfolding get_peer_address get_local_address
address_lem uv len c true two bytes = (
  decimal (host (uv.peer_name len c).sin_port),
  address_text uv (uv.peer_name len c) c,
  port_digits (uv.peer_name len c).sin_port two bytes,
)
address_lem uv len c false two bytes = (
  decimal (host (uv.sock_name len c).sin_port),
  address_text uv (uv.sock_name len c) c,
  port_digits (uv.sock_name len c).sin_port two bytes,
)
