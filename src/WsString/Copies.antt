-- ===== src/WsString/Copies.antt =====
-- include/ws/String.h: what copies, moves and assignments of a string keep.
use mathlib.Core.List.{append_assoc}
use mathlib.Core.Path.{ap₂}
use websocket_engine.Base.{
  ℕ, zero, suc, ◌+◌, ◌-◌, ◌≤◌, ◌<◌, ◌≡◌, ◌≢◌, refl, sym, ap, ◌∙◌, true, List, [], ◌∷◌, ◌++◌, some,
  arith, length, take, drop, overwrite, All, length-append, length-overwrite, length-take,
  length-drop, take-take, take-length-append,
}
use websocket_engine.WsString.{
  WsString, c_string, delete_array, of_bytes, duplicate, copy, assign, move, swap, move_assign,
  empty, destroy,
}

-- The string has the bytes `text`, and a NUL behind them.
pub record IsText (s : WsString) (text : List ℕ) : Type 0 where
  pub bytes : s.data_ ≡ some (text ++ (0 ∷ []))
  pub size : s.size ≡ length text

abbrev pub HasNoNul : List ℕ → Type 0
HasNoNul = All (λ x. x ≢ 0)

pub c_string-append : (a b : List ℕ) → HasNoNul a → c_string (a ++ (0 ∷ b)) ≡ a
unfolding c_string
c_string-append [] b h = refl
c_string-append (x ∷ a) b h = ground (arith, c_string-append a b h.1, h.0)

overwrite_front :
    (xs src : List ℕ) → length src ≤ length xs → overwrite xs 0 src ≡ src ++ drop (length src) xs
overwrite_front [] [] h = refl
overwrite_front [] (y ∷ src) h = absurd (omega arith)
overwrite_front (x ∷ xs) [] h = refl
overwrite_front (x ∷ xs) (y ∷ src) h = ap (◌∷◌ y) (overwrite_front xs src (omega arith))

overwrite_last :
    (xs : List ℕ) (n y : ℕ) → length xs ≡ suc n → overwrite xs n (y ∷ []) ≡ take n xs ++ (y ∷ [])
overwrite_last [] n y h = absurd (omega arith)
overwrite_last (x ∷ []) zero y h = refl
overwrite_last (x ∷ z ∷ xs) zero y h = absurd (omega arith)
overwrite_last (x ∷ xs) (suc n) y h = ap (◌∷◌ x) (overwrite_last xs n y (omega arith))

-- The array of a copy of `size` bytes whose first NUL stands behind `a`.
duplicate_lem :
    (junk a b : List ℕ) (size : ℕ)
    → HasNoNul a
    → length a ≤ size
    → size < length junk
    → (duplicate junk (a ++ (0 ∷ b)) size).data_
      ≡ some
          (take size ((a ++ (0 ∷ [])) ++ drop (suc (length a)) (take (suc size) junk)) ++ (0 ∷ []))
unfolding duplicate
duplicate_lem junk a b size clean fits room =
    ap₂ (λ c n. some (overwrite (overwrite (take n junk) 0 (c ++ (0 ∷ []))) size (0 ∷ [])))
      (c_string-append a b clean) one_more
    ∙ ap (λ t. some (overwrite t size (0 ∷ []))) front
    ∙ ap some (overwrite_last _ size 0 (ap length (sym front) ∙ whole))
  where
    one_more : size + 1 ≡ suc size
    one_more = omega arith

    ended : length (a ++ (0 ∷ [])) ≡ suc (length a)
    ended = omega (arith, length-append a (0 ∷ []))

    front :
        overwrite (take (suc size) junk) 0 (a ++ (0 ∷ []))
        ≡ (a ++ (0 ∷ [])) ++ drop (suc (length a)) (take (suc size) junk)
    front =
        overwrite_front (take (suc size) junk) (a ++ (0 ∷ []))
          (omega (arith, ended, length-take (suc size) junk))
        ∙ ap (λ n. (a ++ (0 ∷ [])) ++ drop n (take (suc size) junk)) ended

    whole : length (overwrite (take (suc size) junk) 0 (a ++ (0 ∷ []))) ≡ suc size
    whole = omega (
      arith,
      length-overwrite (take (suc size) junk) 0 (a ++ (0 ∷ [])),
      length-take (suc size) junk,
    )

-- What a duplicate of a text without a NUL is.
duplicate-IsText :
    (junk text : List ℕ)
    → HasNoNul text
    → length text < length junk
    → IsText (duplicate junk (text ++ (0 ∷ [])) (length text)) text
unfolding duplicate
duplicate-IsText junk text clean room = record {
  bytes =
      duplicate_lem junk text [] (length text) clean (omega arith) room
      ∙ ap (λ t. some (t ++ (0 ∷ [])))
          (ap (take (length text)) (
              append_assoc text (0 ∷ []) (drop (suc (length text)) (take (suc (length text)) junk)))
            ∙ take-length-append text _);
  size = refl;
}

take_behind : (a xs : List ℕ) (n : ℕ) → take (length a + n) (a ++ xs) ≡ a ++ take n xs
take_behind [] xs n = ap (λ k. take k xs) (omega arith)
take_behind (x ∷ a) xs n =
    let e : length (x ∷ a) + n ≡ suc (length a + n) = omega arith in
    ap (λ k. take k (x ∷ a ++ xs)) e ∙ ap (◌∷◌ x) (take_behind a xs n)

drop-take : (m k n : ℕ) (xs : List ℕ) → m + k ≡ n → drop m (take n xs) ≡ take k (drop m xs)
drop-take zero k n xs e = ap (λ t. take t xs) (omega arith)
drop-take (suc m) k zero xs e = absurd (omega arith)
drop-take (suc m) k (suc n) (x ∷ xs) e = drop-take m k n xs (omega arith)
drop-take (suc m) zero (suc n) [] e = refl
drop-take (suc m) (suc k) (suc n) [] e = refl

duplicate_nul-IsText :
    (junk a b : List ℕ)
    → HasNoNul a
    → length a + length b + 1 < length junk
    → IsText
        (duplicate junk ((a ++ (0 ∷ b)) ++ (0 ∷ [])) (length (a ++ (0 ∷ b))))
        (a ++ (0 ∷ take (length b) (drop (suc (length a)) junk)))
unfolding duplicate
duplicate_nul-IsText junk a b clean room = record {
  bytes =
      ap (λ t. (duplicate junk t (length (a ++ (0 ∷ b)))).data_) (append_assoc a (0 ∷ b) (0 ∷ []))
      ∙ duplicate_lem junk a (b ++ (0 ∷ [])) (length (a ++ (0 ∷ b))) clean (omega (arith, long))
          (omega (arith, long))
      ∙ ap (λ t. some (t ++ (0 ∷ [])))
          (ap₂ take long (append_assoc a (0 ∷ []) _)
            ∙ take_behind a _ (suc (length b))
            ∙ ap (λ t. a ++ (0 ∷ take (length b) t))
                (drop-take (suc (length a)) (suc (length b)) (suc (length (a ++ (0 ∷ b)))) junk
                  (omega (arith, long)))
            ∙ ap (λ t. a ++ (0 ∷ t))
                (take-take (length b) (suc (length b)) (drop (suc (length a)) junk) (omega arith)));
  size = omega (
    arith,
    long,
    length-append a (0 ∷ take (length b) (drop (suc (length a)) junk)),
    length-take (length b) (drop (suc (length a)) junk),
    length-drop (suc (length a)) junk,
  );
}
  where
    long : length (a ++ (0 ∷ b)) ≡ length a + suc (length b)
    long = omega (arith, length-append a (0 ∷ b))

module _ (junk : List ℕ) where
  -- A copy, and an assignment, of a string whose bytes have no NUL: the new string has the same bytes,
  -- the old one keeps them, and exactly the arrays that strings use are allocated.
  pub copies_keep :
      (this lhs : WsString) (old text : List ℕ) (live : ℕ)
      → IsText this old
      → IsText lhs text
      → HasNoNul text
      → length text < length junk
      → (s : WsString) × IsText s text
        × (copy junk lhs live ≡ some (s, live + 1))
        × (assign junk this lhs (live + 1) ≡ some (s, live + 1))
  unfolding copy assign
  copies_keep this lhs old text live k l clean room = (
    duplicate junk (text ++ (0 ∷ [])) (length text),
    duplicate-IsText junk text clean room,
    ap₂ (λ d n. copy junk (record { data_ = d; size = n }) live) l.bytes l.size,
    ap₂ (λ d n. assign junk this (record { data_ = d; size = n }) (live + 1)) l.bytes l.size
        ∙ ap
            (λ d.
              some (duplicate junk (text ++ (0 ∷ [])) (length text), delete_array d (live + 1) + 1))
            k.bytes
        ∙ ap (λ n. some (duplicate junk (text ++ (0 ∷ [])) (length text), n)) deleted,
  )
    where
      deleted : live + 1 - 1 + 1 ≡ live + 1
      deleted = omega arith

  -- A copy of a string that has a NUL within it keeps the bytes before it, and loses all behind it:
  -- they are whatever the new memory held, so strings that differ only behind a NUL have the same copy.
  pub copy_loses :
      (this : WsString) (a b : List ℕ) (live : ℕ)
      → IsText this (a ++ (0 ∷ b))
      → HasNoNul a
      → length a + length b + 1 < length junk
      → (s : WsString) × IsText s (a ++ (0 ∷ take (length b) (drop (suc (length a)) junk)))
        × (copy junk this live ≡ some (s, live + 1))
  unfolding copy
  copy_loses this a b live k clean room = (
    duplicate junk ((a ++ (0 ∷ b)) ++ (0 ∷ [])) (length (a ++ (0 ∷ b))),
    duplicate_nul-IsText junk a b clean room,
    ap₂ (λ d n. copy junk (record { data_ = d; size = n }) live) k.bytes k.size,
  )

-- A string of `size` bytes of an array, as far as it has them: those bytes, NULs too.
pub of_bytes-IsText :
    (src : List ℕ) (n live : ℕ) → n ≤ length src → IsText (of_bytes src n live).0 (take n src)
unfolding of_bytes
of_bytes-IsText src n live h = record { bytes = refl; size = omega (arith, length-take n src) }

-- Moving a string, by the constructor, takes its bytes and leaves an empty string without an array, so
-- that destroying both strings deletes one array. Moving by assignment takes the bytes too, but the old
-- array of the string assigned to is never deleted, and the string moved from keeps a size.
pub moves_lem :
    (this rhs : WsString) (old text : List ℕ) (live : ℕ)
    → IsText this old
    → IsText rhs text
    → 1 < live
    → IsText (move rhs).0 text
      × (empty (move rhs).1 ≡ true)
      × (destroy (move rhs).1 (destroy (move rhs).0 live) ≡ live - 1)
      × IsText (move_assign this rhs).0 text
      × (empty (move_assign this rhs).1 ≡ true)
      × ((move_assign this rhs).1.size ≡ length old)
      × (destroy (move_assign this rhs).1 (destroy (move_assign this rhs).0 live) ≡ live - 1)
unfolding move move_assign empty destroy swap
moves_lem this rhs old text live k l h = (
  l,
  refl,
  ap (λ d. delete_array d live) l.bytes,
  record { bytes = l.bytes; size = l.size },
  refl,
  k.size,
  ap (λ d. delete_array d live) l.bytes,
)
