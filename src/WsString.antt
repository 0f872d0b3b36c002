-- ===== src/WsString.antt =====
-- include/ws/String.h: the string class.
-- `data_` is `none` where it is the null pointer, else the array it points to. `live` is the number of
-- arrays that are allocated and not yet deleted; an operation that allocates or deletes takes it and
-- returns it. `junk` stands for the memory that `new char[n]` returns. `none` as a result is a read
-- through the null pointer, or of deleted memory.
pub mod Copies
mod Tests
use websocket_engine.Base.{
  ℕ, zero, suc, ◌+◌, ◌-◌, Bool, true, false, ◌||◌, List, [], ◌∷◌, ◌++◌, Option, none, some, ◌==◌,
  if◌then◌else◌, length, take, overwrite,
}

pub record WsString : Type 0 where
  pub data_ : Option (List ℕ)
  pub size : ℕ

-- The bytes before the first NUL, as `strlen` and `strcpy` find it.
unfoldable pub c_string : List ℕ → List ℕ
c_string [] = []
c_string (x ∷ xs) = let rest = c_string xs in if x == 0 then [] else x ∷ rest

-- `delete[]`: of the null pointer it does nothing.
abbrev pub delete_array : Option (List ℕ) → ℕ → ℕ
delete_array none live = live
delete_array (some _) live = live - 1

-- `String()`
unfoldable pub new : ℕ → WsString × ℕ
new live = (record { data_ = some (0 ∷ []); size = 0 }, live + 1)

-- `String(const char*)`
unfoldable pub of_c_string : List ℕ → ℕ → WsString × ℕ
unfolding c_string
of_c_string src live =
    (record { data_ = some (c_string src ++ (0 ∷ [])); size = length (c_string src) }, live + 1)

-- `String(const char*, size_t)`
unfoldable pub of_bytes : List ℕ → ℕ → ℕ → WsString × ℕ
of_bytes src size live =
    (record { data_ = some (take size src ++ (0 ∷ [])); size = size }, live + 1)

-- `new char[size + 1]`, `strcpy` and the NUL at `size`, which two operations share.
unfoldable pub duplicate : List ℕ → List ℕ → ℕ → WsString
unfolding c_string
duplicate junk src size = record {
  data_ =
      some
        (overwrite (overwrite (take (size + 1) junk) 0 (c_string src ++ (0 ∷ []))) size (0 ∷ []));
  size = size;
}

-- `String(const String&)`
unfoldable pub copy : List ℕ → WsString → ℕ → Option (WsString × ℕ)
unfolding duplicate
copy junk lhs live = elim lhs.data_ [
  | none ↦ none
  | some src ↦ some (duplicate junk src lhs.size, live + 1)
]

-- `operator=(const String&)`, of another string.
unfoldable pub assign : List ℕ → WsString → WsString → ℕ → Option (WsString × ℕ)
unfolding duplicate
assign junk this lhs live = elim lhs.data_ [
  | none ↦ none
  | some src ↦ some (duplicate junk src lhs.size, delete_array this.data_ live + 1)
]

-- `String(String&&)`: the new string, and the one that it is made of.
unfoldable pub move : WsString → WsString × WsString
move rhs = (rhs, record { data_ = none; size = 0 })

-- `swap`: both strings after it.
unfoldable pub swap : WsString → WsString → WsString × WsString
swap this rhs = (rhs, this)

-- `operator=(String&&)`
unfoldable pub move_assign : WsString → WsString → WsString × WsString
unfolding swap
move_assign this rhs = let (this', rhs') = swap this rhs in (this', record rhs' { data_ = none })

-- `data`, and `c_str`, which has the same body
abbrev pub c_str : WsString → Option (List ℕ)
c_str s = s.data_

abbrev pub is_null : Option (List ℕ) → Bool
is_null none = true
is_null (some _) = false

unfoldable pub empty : WsString → Bool
empty s = is_null s.data_ || s.size == 0

-- The destructor.
unfoldable pub destroy : WsString → ℕ → ℕ
destroy s live = delete_array s.data_ live

-- What `operator<<` writes.
unfoldable pub output : WsString → List ℕ
unfolding empty c_string
output s = if empty s then [] else elim s.data_ [ none ↦ [] | some d ↦ c_string d ]
