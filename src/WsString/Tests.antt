-- ===== src/WsString/Tests.antt =====
-- Strings at concrete inputs.
use websocket_engine.Base.{
  ℕ, suc, ◌+◌, ◌-◌, ◌≡◌, refl, true, List, [], ◌∷◌, ◌++◌, some, arith, take, drop, length,
}
use websocket_engine.WsString.{
  WsString, of_c_string, copy, assign, move, move_assign, empty, destroy, output,
}
use websocket_engine.WsString.Copies.{IsText, HasNoNul, copies_keep, copy_loses, moves_lem}

abbrev hi : List ℕ
hi = 72 ∷ 105 ∷ []

abbrev hi_string : WsString
hi_string = record { data_ = some (hi ++ (0 ∷ [])); size = 2 }

hi-IsText : IsText hi_string hi
hi-IsText = record { bytes = refl; size = refl }

-- A string with a NUL within it.
abbrev split_string : WsString
split_string = record { data_ = some (hi ++ (0 ∷ 7 ∷ 8 ∷ []) ++ (0 ∷ [])); size = 5 }

split-IsText : IsText split_string (hi ++ (0 ∷ 7 ∷ 8 ∷ []))
split-IsText = record { bytes = refl; size = refl }

hi-HasNoNul : HasNoNul hi
hi-HasNoNul = (omega arith, (omega arith, tt))

abbrev memory : List ℕ
memory = 1 ∷ 1 ∷ 1 ∷ 1 ∷ 1 ∷ 1 ∷ 1 ∷ []

abbrev behind : List ℕ
behind = 7 ∷ 8 ∷ []

test_c_string : (of_c_string (72 ∷ 105 ∷ 0 ∷ 9 ∷ []) 3).0 ≡ hi_string
unfolding of_c_string
test_c_string = refl

test_output : output split_string ≡ hi
unfolding output
test_output = refl

copies_keep_example :
    (s : WsString) × IsText s hi
    × (copy memory hi_string 5 ≡ some (s, 5 + 1))
    × (assign memory split_string hi_string (5 + 1) ≡ some (s, 5 + 1))
copies_keep_example =
    copies_keep memory split_string hi_string (hi ++ (0 ∷ 7 ∷ 8 ∷ [])) hi 5 split-IsText hi-IsText
      hi-HasNoNul (omega arith)

copy_loses_example :
    (s : WsString) × IsText s (hi ++ (0 ∷ take (length behind) (drop (suc (length hi)) memory)))
    × (copy memory split_string 5 ≡ some (s, 5 + 1))
copy_loses_example =
    copy_loses memory split_string hi behind 5 split-IsText hi-HasNoNul (omega arith)

moves_lem_example :
    IsText (move hi_string).0 hi
    × (empty (move hi_string).1 ≡ true)
    × (destroy (move hi_string).1 (destroy (move hi_string).0 5) ≡ 5 - 1)
    × IsText (move_assign split_string hi_string).0 hi
    × (empty (move_assign split_string hi_string).1 ≡ true)
    × ((move_assign split_string hi_string).1.size ≡ length (hi ++ (0 ∷ 7 ∷ 8 ∷ [])))
    × (destroy
          (move_assign split_string hi_string).1
          (destroy (move_assign split_string hi_string).0 5)
        ≡ 5 - 1)
moves_lem_example =
    moves_lem split_string hi_string (hi ++ (0 ∷ 7 ∷ 8 ∷ [])) hi 5 split-IsText hi-IsText
      (omega arith)
