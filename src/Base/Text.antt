-- ===== src/Base/Text.antt =====
-- Header names and values as lists of bytes, and a header table.
use Prim.Native.Nat.{ℕ, zero, suc, ◌+◌, ◌-◌, ◌*◌, ◌/◌, ◌%◌, ◌≤◌, ◌<◌}
use Prim.Native.Char.{code}
use Prim.Native.String.{String}
use mathlib.Core.Path.{◌≡◌, refl}
use mathlib.Core.Logic.{◌↔◌}
use mathlib.Core.Bool.{Bool, true, false, ◌&&◌}
use mathlib.Core.Option.{Option, none, some}
use mathlib.Core.List.{List, [], ◌∷◌, ◌++◌, map}
use native.Mathlib.Omega.{arith}
use websocket_engine.Base.Tests.{◌==◌, ltb, leb, lt→ltb, le→ltb_false, if◌then◌else◌}

abbrev pub codes : String → List ℕ
codes String.[] = []
codes (String.◌∷◌ c s) = code c ∷ codes s

-- `==` on `std::string`
unfoldable pub bytes_eq : List ℕ → List ℕ → Bool
bytes_eq [] [] = true
bytes_eq (x ∷ xs) (y ∷ ys) = x == y && bytes_eq xs ys
bytes_eq [] (y ∷ ys) = false
bytes_eq (x ∷ xs) [] = false

pub bytes_eq_iff : (xs ys : List ℕ) → (bytes_eq xs ys ≡ true) ↔ (xs ≡ ys)
unfolding bytes_eq
bytes_eq_iff [] [] = (λ h. refl, λ h. refl)
bytes_eq_iff [] (y ∷ ys) = (λ h. cc, λ h. cc)
bytes_eq_iff (x ∷ xs) [] = (λ h. cc, λ h. cc)
bytes_eq_iff (x ∷ xs) (y ∷ ys) =
    (λ h. ground (arith, bytes_eq_iff xs ys), λ h. ground (arith, bytes_eq_iff xs ys))

-- `boost::to_lower_copy` on ASCII
unfoldable pub to_lower : List ℕ → List ℕ
to_lower = map λ c. if leb b'A' c && leb c b'Z' then c + 32 else c

-- `find` of an `std::unordered_map`
unfoldable pub find : List ℕ → List (List ℕ × List ℕ) → Option (List ℕ)
unfolding bytes_eq
find name [] = none
find name ((n, v) ∷ rest) = if bytes_eq n name then some v else find name rest

-- its `insert`, which keeps the value of a name that is there
unfoldable pub insert_new : List ℕ → List ℕ → List (List ℕ × List ℕ) → List (List ℕ × List ℕ)
unfolding bytes_eq
insert_new name value [] = (name, value) ∷ []
insert_new name value ((n, v) ∷ rest) =
    if bytes_eq n name then (n, v) ∷ rest else (n, v) ∷ insert_new name value rest

pub find-insert_new :
    (name other value : List ℕ) (table : List (List ℕ × List ℕ))
    → find other (insert_new name value table) ≡ (elim (find other table) [
      | some v ↦ some v
      | none ↦ if bytes_eq name other then some value else none
    ])
unfolding find insert_new
find-insert_new name other value [] = ground arith
find-insert_new name other value ((n, v) ∷ rest) = ground (
  arith,
  find-insert_new name other value rest,
  bytes_eq_iff n name,
  bytes_eq_iff n other,
  bytes_eq_iff name other,
)

-- A number in decimal, as `sprintf` writes `%d` and `std::to_string` writes it, up to ten digits.
unfoldable pub digits : ℕ → ℕ → List ℕ
digits zero n = []
digits (suc fuel) n =
    let front = digits fuel (n / 10) ++ ((48 + n % 10) ∷ []) in
    if ltb n 10 then (48 + n) ∷ [] else front

unfoldable pub decimal : ℕ → List ℕ
unfolding digits
decimal n = digits 10 n

-- The number that decimal digits stand for.
abbrev pub undecimal : ℕ → List ℕ → ℕ
undecimal n [] = n
undecimal n (c ∷ cs) = undecimal (n * 10 + (c - 48)) cs

module _ (n : ℕ) where
  pub decimal_one : n < 10 → decimal n ≡ (48 + n) ∷ []
  unfolding decimal
  decimal_one h = rw (lt→ltb n 10 h)

  pub decimal_two : 10 ≤ n → n < 100 → decimal n ≡ (48 + n / 10) ∷ (48 + n % 10) ∷ []
  unfolding decimal
  decimal_two h g = rw (le→ltb_false n 10 h, lt→ltb (n / 10) 10 (omega arith))

  pub decimal_three :
      100 ≤ n → n < 1000 → decimal n ≡ (48 + n / 10 / 10) ∷ (48 + n / 10 % 10) ∷ (48 + n % 10) ∷ []
  unfolding decimal
  decimal_three h g = rw (
    le→ltb_false n 10 (omega arith),
    le→ltb_false (n / 10) 10 (omega arith),
    lt→ltb (n / 10 / 10) 10 (omega arith),
  )
