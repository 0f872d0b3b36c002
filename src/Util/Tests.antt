-- ===== src/Util/Tests.antt =====
-- An address at a concrete input.
use websocket_engine.Base.{ℕ, zero, suc, ◌+◌, ◌≤◌, ◌≡◌, refl, List, [], ◌∷◌, arith, length, get_or}
use websocket_engine.Base.Text.{decimal}
use websocket_engine.Buffer.{network}
use websocket_engine.Buffer.Numbers.{IsByte}
use websocket_engine.Util.{parse_addr}
use websocket_engine.Util.Dotted.{dotted, parse_addr_lem}

-- Port 3000 at 127.0.10.255, behind a byte of a request.
abbrev request : List ℕ
request = 1 ∷ 11 ∷ 184 ∷ 127 ∷ 0 ∷ 10 ∷ 255 ∷ []

request-IsByte : (i : ℕ) → IsByte (get_or request i 0)
request-IsByte zero = omega arith
request-IsByte (suc zero) = omega arith
request-IsByte (suc (suc zero)) = omega arith
request-IsByte (suc (suc (suc zero))) = omega arith
request-IsByte (suc (suc (suc (suc zero)))) = omega arith
request-IsByte (suc (suc (suc (suc (suc zero))))) = omega arith
request-IsByte (suc (suc (suc (suc (suc (suc zero)))))) = omega arith
request-IsByte (suc (suc (suc (suc (suc (suc (suc i))))))) = omega arith

parsed : parse_addr request 1 ≡ record {
  ip = b'1' ∷ b'2' ∷ b'7' ∷ b'.' ∷ b'0' ∷ b'.' ∷ b'1' ∷ b'0' ∷ b'.' ∷ b'2' ∷ b'5' ∷ b'5' ∷ [];
  port = 3000;
}
unfolding parse_addr decimal
parsed = refl

parse_addr_lem_example :
    (length (parse_addr request 1).ip + 1 ≤ 16)
    × (dotted 0 (parse_addr request 1).ip
        ≡ get_or request 3 0 ∷ get_or request 4 0 ∷ get_or request 5 0 ∷ get_or request 6 0 ∷ [])
    × (network 2 (parse_addr request 1).port ≡ get_or request 1 0 ∷ get_or request 2 0 ∷ [])
parse_addr_lem_example = parse_addr_lem request 1 request-IsByte
