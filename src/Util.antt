-- ===== src/Util.antt =====
-- include/ws/util.h: an address as six bytes.
pub mod Dotted
mod Tests
use websocket_engine.Base.{ℕ, ◌+◌, ◌*◌, ◌^◌, List, [], ◌∷◌, ◌++◌, get_or}
use websocket_engine.Base.Text.{decimal}

-- `struct Addr`; `ip` is what stands in the array before the NUL.
pub record Addr : Type 0 where
  pub ip : List ℕ
  pub port : ℕ

unfoldable pub read_port : List ℕ → ℕ → ℕ
read_port buf offset = get_or buf (0 + offset) 0 * 2 ^ 8 + get_or buf (1 + offset) 0

-- `sprintf` with the format `%d.%d.%d.%d`
unfoldable pub parse_addr : List ℕ → ℕ → Addr
unfolding read_port
parse_addr buf offset = record {
  ip =
      decimal (get_or buf (2 + offset) 0)
      ++ (b'.' ∷ decimal (get_or buf (3 + offset) 0)
          ++ (b'.' ∷ decimal (get_or buf (4 + offset) 0)
              ++ (b'.' ∷ decimal (get_or buf (5 + offset) 0))));
  port = read_port buf offset;
}
