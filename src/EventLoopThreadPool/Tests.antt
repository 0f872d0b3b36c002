-- ===== src/EventLoopThreadPool/Tests.antt =====
-- The pool at concrete inputs.
use websocket_engine.Base.{ℕ, ◌≡◌, refl, List, [], ◌∷◌, ◌++◌, some, map, arith, length, take}
use websocket_engine.EventLoopThreadPool.{EventLoopThreadPool, new, start_threads, set_thread_nums}
use websocket_engine.EventLoopThreadPool.Rounds.{turns, set_thread_nums_lem, one_round}

abbrev three : EventLoopThreadPool
three = record { threads = 11 ∷ 12 ∷ 13 ∷ []; loops = 11 ∷ 12 ∷ 13 ∷ []; next = 0; base_loop = 1 }

test_first : (set_thread_nums (11 ∷ 12 ∷ 13 ∷ []) (new 1)).loops ≡ 11 ∷ 12 ∷ 13 ∷ []
unfolding set_thread_nums start_threads new
test_first = refl

-- A second call deals out the loop of an old thread twice, and that of the new one never.
test_second : (set_thread_nums (14 ∷ []) three).loops ≡ 11 ∷ 12 ∷ 13 ∷ 11 ∷ []
unfolding set_thread_nums start_threads
test_second = refl

abbrev made : List ℕ
made = 14 ∷ []

set_thread_nums_lem_example :
    (set_thread_nums made three).loops ≡ three.loops ++ take (length made) (three.threads ++ made)
set_thread_nums_lem_example = set_thread_nums_lem made three

one_round_example : turns (length three.loops) three ≡ (map some three.loops, three)
one_round_example = one_round three (omega arith) (omega arith) refl
