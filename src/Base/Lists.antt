-- ===== src/Base/Lists.antt =====
-- Byte arrays as lists measured by native numbers, under the library's names, with the copies and
-- resizes that the source makes.
use Prim.Native.Nat.{ℕ, zero, suc, ◌+◌, ◌-◌, ◌≤◌, min}
use mathlib.Core.Path.{◌≡◌, refl, ap, ◌∙◌}
use mathlib.Core.List.{List, [], ◌∷◌, ◌++◌}
use mathlib.Core.Option.{Option, none, some}
use native.Mathlib.Omega.{arith}

module _ {ℓ} {A : Type ℓ} where
  abbrev pub length : List A → ℕ
  length [] = 0
  length (x ∷ xs) = suc (length xs)

  abbrev pub get_or : List A → ℕ → A → A
  get_or [] i d = d
  get_or (x ∷ xs) zero d = x
  get_or (x ∷ xs) (suc i) d = get_or xs i d

  abbrev pub get_elem? : List A → ℕ → Option A
  get_elem? [] i = none
  get_elem? (x ∷ xs) zero = some x
  get_elem? (x ∷ xs) (suc i) = get_elem? xs i

  abbrev pub take : ℕ → List A → List A
  take zero xs = []
  take (suc n) [] = []
  take (suc n) (x ∷ xs) = x ∷ take n xs

  abbrev pub drop : ℕ → List A → List A
  drop zero xs = xs
  drop (suc n) [] = []
  drop (suc n) (x ∷ xs) = drop n xs

  abbrev pub replicate : ℕ → A → List A
  replicate zero a = []
  replicate (suc n) a = a ∷ replicate n a

  abbrev pub All {κ} : (A → Type κ) → List A → Type κ
  All P [] = Unit {κ}
  All P (x ∷ xs) = P x × All P xs

  -- A copy of `src` into an array, from index `i` on. What would fall past the end is not stored.
  abbrev pub overwrite : List A → ℕ → List A → List A
  overwrite [] i src = []
  overwrite (x ∷ xs) (suc i) src = x ∷ overwrite xs i src
  overwrite (x ∷ xs) zero [] = x ∷ xs
  overwrite (x ∷ xs) zero (y ∷ ys) = y ∷ overwrite xs zero ys

  -- `std::vector::resize`, where new elements have the value `d`.
  abbrev pub resize : ℕ → A → List A → List A
  resize zero d xs = []
  resize (suc n) d [] = d ∷ resize n d []
  resize (suc n) d (x ∷ xs) = x ∷ resize n d xs

  pub length-append : (xs ys : List A) → length (xs ++ ys) ≡ length xs + length ys
  length-append [] ys = omega arith
  length-append (x ∷ xs) ys = omega (arith, length-append xs ys)

  pub take-append-drop : (n : ℕ) (xs : List A) → take n xs ++ drop n xs ≡ xs
  take-append-drop zero xs = refl
  take-append-drop (suc n) [] = refl
  take-append-drop (suc n) (x ∷ xs) = ap (◌∷◌ x) (take-append-drop n xs)

  pub length-take : (n : ℕ) (xs : List A) → length (take n xs) ≡ min n (length xs)
  length-take zero xs = omega arith
  length-take (suc n) [] = omega arith
  length-take (suc n) (x ∷ xs) = omega (arith, length-take n xs)

  pub length-drop : (n : ℕ) (xs : List A) → length (drop n xs) ≡ length xs - n
  length-drop zero xs = omega arith
  length-drop (suc n) [] = omega arith
  length-drop (suc n) (x ∷ xs) = omega (arith, length-drop n xs)

  pub length-replicate : (n : ℕ) (a : A) → length (replicate n a) ≡ n
  length-replicate zero a = refl
  length-replicate (suc n) a = ap suc (length-replicate n a)

  pub length-overwrite :
      (xs : List A) (i : ℕ) (src : List A) → length (overwrite xs i src) ≡ length xs
  length-overwrite [] i src = refl
  length-overwrite (x ∷ xs) (suc i) src = ap suc (length-overwrite xs i src)
  length-overwrite (x ∷ xs) zero [] = refl
  length-overwrite (x ∷ xs) zero (y ∷ ys) = ap suc (length-overwrite xs zero ys)

  pub length-resize : (n : ℕ) (d : A) (xs : List A) → length (resize n d xs) ≡ n
  length-resize zero d xs = refl
  length-resize (suc n) d [] = ap suc (length-resize n d [])
  length-resize (suc n) d (x ∷ xs) = ap suc (length-resize n d xs)

  pub take-length-append : (xs ys : List A) → take (length xs) (xs ++ ys) ≡ xs
  take-length-append [] ys = refl
  take-length-append (x ∷ xs) ys = ap (◌∷◌ x) (take-length-append xs ys)

  pub drop-length-append : (xs ys : List A) → drop (length xs) (xs ++ ys) ≡ ys
  drop-length-append [] ys = refl
  drop-length-append (x ∷ xs) ys = drop-length-append xs ys

  pub take_all : (n : ℕ) (xs : List A) → length xs ≤ n → take n xs ≡ xs
  take_all zero [] h = refl
  take_all zero (x ∷ xs) h = absurd (omega arith)
  take_all (suc n) [] h = refl
  take_all (suc n) (x ∷ xs) h = ap (◌∷◌ x) (take_all n xs (omega arith))

  pub drop_all : (n : ℕ) (xs : List A) → length xs ≤ n → drop n xs ≡ []
  drop_all zero [] h = refl
  drop_all zero (x ∷ xs) h = absurd (omega arith)
  drop_all (suc n) [] h = refl
  drop_all (suc n) (x ∷ xs) h = drop_all n xs (omega arith)

  pub take-take : (n m : ℕ) (xs : List A) → n ≤ m → take n (take m xs) ≡ take n xs
  take-take zero m xs h = refl
  take-take (suc n) zero xs h = absurd (omega arith)
  take-take (suc n) (suc m) [] h = refl
  take-take (suc n) (suc m) (x ∷ xs) h = ap (◌∷◌ x) (take-take n m xs (omega arith))

  pub drop-drop : (n m k : ℕ) (xs : List A) → n + m ≡ k → drop n (drop m xs) ≡ drop k xs
  drop-drop n zero k xs h = ap (λ t. drop t xs) (omega arith)
  drop-drop zero (suc m) zero xs h = absurd (omega arith)
  drop-drop (suc n) (suc m) zero xs h = absurd (omega arith)
  drop-drop zero (suc m) (suc k) [] h = refl
  drop-drop (suc n) (suc m) (suc k) [] h = refl
  drop-drop n (suc m) (suc k) (x ∷ xs) h = drop-drop n m k xs (omega arith)

  pub nil-take : (k : ℕ) → ◌≡◌ {A = List A} [] (take k [])
  nil-take zero = refl
  nil-take (suc k) = refl

  pub drop-take : (n m : ℕ) (xs : List A) → drop n (take m xs) ≡ take (m - n) (drop n xs)
  drop-take zero m xs = ap (λ t. take t xs) (omega arith)
  drop-take (suc n) zero xs =
      let e : 0 ≡ zero - suc n = omega arith in ap (λ t. take t (drop (suc n) xs)) e
  drop-take (suc n) (suc m) [] = nil-take (suc m - suc n)
  drop-take (suc n) (suc m) (x ∷ xs) = drop-take n m xs ∙ ap (λ t. take t (drop n xs)) (omega arith)

  -- Writing past an index leaves what stands before it.
  pub drop-overwrite :
      (r w : ℕ) (xs src : List A)
      → r ≤ w
      → drop r (overwrite xs w src) ≡ overwrite (drop r xs) (w - r) src
  drop-overwrite zero w xs src h = ap (λ t. overwrite xs t src) (omega arith)
  drop-overwrite (suc r) zero xs src h = absurd (omega arith)
  drop-overwrite (suc r) (suc w) [] src h = refl
  drop-overwrite (suc r) (suc w) (x ∷ xs) src h =
      drop-overwrite r w xs src (omega arith) ∙ ap (λ t. overwrite (drop r xs) t src) (omega arith)

  -- The written prefix is what stood before the index, then the source.
  pub take-overwrite :
      (w n : ℕ) (xs src : List A)
      → w + length src ≤ length xs
      → w + length src ≡ n
      → take n (overwrite xs w src) ≡ take w xs ++ src
  take-overwrite zero zero xs [] h e = refl
  take-overwrite zero (suc n) xs [] h e = absurd (omega arith)
  take-overwrite zero n [] (y ∷ ys) h e = absurd (omega arith)
  take-overwrite zero zero (x ∷ xs) (y ∷ ys) h e = absurd (omega arith)
  take-overwrite zero (suc n) (x ∷ xs) (y ∷ ys) h e =
      ap (◌∷◌ y) (take-overwrite zero n xs ys (omega arith) (omega arith))
  take-overwrite (suc w) n [] src h e = absurd (omega arith)
  take-overwrite (suc w) zero (x ∷ xs) src h e = absurd (omega arith)
  take-overwrite (suc w) (suc n) (x ∷ xs) src h e =
      ap (◌∷◌ x) (take-overwrite w n xs src (omega arith) (omega arith))

  -- Growing or shrinking an array keeps what stands below both sizes.
  pub window-resize :
      (r k n : ℕ) (d : A) (xs : List A)
      → r + k ≤ n
      → r + k ≤ length xs
      → take k (drop r (resize n d xs)) ≡ take k (drop r xs)
  window-resize zero zero n d xs h g = refl
  window-resize zero (suc k) n d [] h g = absurd (omega arith)
  window-resize zero (suc k) zero d (x ∷ xs) h g = absurd (omega arith)
  window-resize zero (suc k) (suc n) d (x ∷ xs) h g =
      ap (◌∷◌ x) (window-resize zero k n d xs (omega arith) (omega arith))
  window-resize (suc r) k zero d xs h g = absurd (omega arith)
  window-resize (suc r) k (suc n) d [] h g = absurd (omega arith)
  window-resize (suc r) k (suc n) d (x ∷ xs) h g =
      window-resize r k n d xs (omega arith) (omega arith)
