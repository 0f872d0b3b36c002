-- ===== src/Base/Table.antt =====
-- Maps from numbers, as `std::map` and `std::unordered_map` are used here: a list of keys and values.
use Prim.Native.Nat.{ℕ}
use mathlib.Core.Path.{◌≡◌, refl}
use mathlib.Core.Logic.{◌≢◌}
use mathlib.Core.Bool.{Bool, true, false}
use mathlib.Core.Option.{Option, none, some}
use mathlib.Core.List.{List, [], ◌∷◌}
use native.Mathlib.Omega.{arith}
use websocket_engine.Base.Tests.{◌==◌, if◌then◌else◌}

module _ {A : Type 0} where
  -- `find`
  abbrev pub lookup : ℕ → List (ℕ × A) → Option A
  lookup k [] = none
  lookup k ((n, v) ∷ rest) = if n == k then some v else lookup k rest

  abbrev pub has_key : ℕ → List (ℕ × A) → Bool
  has_key k t = elim (lookup k t) [ none ↦ false | some v ↦ true ]

  -- `t[k] = v`
  abbrev pub assign : ℕ → A → List (ℕ × A) → List (ℕ × A)
  assign k v [] = (k, v) ∷ []
  assign k v ((n, x) ∷ rest) = if n == k then (n, v) ∷ rest else (n, x) ∷ assign k v rest

  -- `erase`
  abbrev pub erase : ℕ → List (ℕ × A) → List (ℕ × A)
  erase k [] = []
  erase k ((n, x) ∷ rest) = if n == k then erase k rest else (n, x) ∷ erase k rest

  pub lookup-assign_self : (k : ℕ) (v : A) (t : List (ℕ × A)) → lookup k (assign k v t) ≡ some v
  lookup-assign_self k v [] = ground arith
  lookup-assign_self k v ((n, x) ∷ rest) = ground (arith, lookup-assign_self k v rest)

  pub lookup-assign_ne :
      (k j : ℕ) (v : A) (t : List (ℕ × A)) → j ≢ k → lookup j (assign k v t) ≡ lookup j t
  lookup-assign_ne k j v [] h = ground arith
  lookup-assign_ne k j v ((n, x) ∷ rest) h = ground (arith, lookup-assign_ne k j v rest)

  pub lookup-erase_self : (k : ℕ) (t : List (ℕ × A)) → lookup k (erase k t) ≡ none
  lookup-erase_self k [] = refl
  lookup-erase_self k ((n, x) ∷ rest) = ground (arith, lookup-erase_self k rest)

  pub lookup-erase_ne : (k j : ℕ) (t : List (ℕ × A)) → j ≢ k → lookup j (erase k t) ≡ lookup j t
  lookup-erase_ne k j [] h = refl
  lookup-erase_ne k j ((n, x) ∷ rest) h = ground (arith, lookup-erase_ne k j rest)

  pub assign-found :
      (k j : ℕ) (v w : A) (t : List (ℕ × A)) → j ≡ k → lookup j (assign k v t) ≡ some w → w ≡ v
  assign-found k j v w t e f = cc (lookup-assign_self k v t)

  pub assign-assign :
      (k : ℕ) (v w : A) (t : List (ℕ × A)) → assign k v (assign k w t) ≡ assign k v t
  assign-assign k v w [] = ground arith
  assign-assign k v w ((n, x) ∷ rest) = ground (arith, assign-assign k v w rest)
