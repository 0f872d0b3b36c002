-- ===== src/EventLoopThreadPool/Rounds.antt =====
-- How the pool deals out its loops.
use mathlib.Core.List.{append_assoc, append-nil}
use mathlib.Core.Path.{ap₂}
use websocket_engine.Base.{
  ℕ, zero, suc, ◌+◌, ◌-◌, ◌≤◌, ◌<◌, ◌≡◌, ◌≢◌, refl, sym, ap, ◌∙◌, List, [], ◌∷◌, ◌++◌, Option, some,
  map, arith, ◌==◌, if◌then◌else◌, length, get_or, get_elem?, take, drop, length-append, drop_all,
  drop_all,
}
use websocket_engine.EventLoopThreadPool.{
  EventLoopThreadPool, start_threads, set_thread_nums, get_next_loop,
}

-- The loops that `n` calls of `getNextLoop` return, and the pool after them.
pub turns : ℕ → EventLoopThreadPool → List (Option ℕ) × EventLoopThreadPool
turns zero p = ([], p)
turns (suc n) p =
    let (q, loop) = get_next_loop p in let (rest, last) = turns n q in (loop ∷ rest, last)

get_or-append : (xs ys : List ℕ) (y : ℕ) → get_or (xs ++ (y ∷ ys)) (length xs) 0 ≡ y
get_or-append [] ys y = refl
get_or-append (x ∷ xs) ys y = get_or-append xs ys y

take-suc :
    (i n : ℕ) (xs : List ℕ)
    → i < length xs
    → get_or xs i 0 ∷ take n (drop (suc i) xs) ≡ take (suc n) (drop i xs)
take-suc i n [] h = absurd (omega arith)
take-suc zero n (x ∷ xs) h = refl
take-suc (suc i) n (x ∷ xs) h = take-suc i n xs (omega arith)

get_or-front : (i : ℕ) (xs ys : List ℕ) → i < length xs → get_or (xs ++ ys) i 0 ≡ get_or xs i 0
get_or-front i [] ys h = absurd (omega arith)
get_or-front zero (x ∷ xs) ys h = refl
get_or-front (suc i) (x ∷ xs) ys h = get_or-front i xs ys (omega arith)

start_threads_lem :
    (i : ℕ) (made : List ℕ) (p : EventLoopThreadPool)
    → i ≤ length p.threads
    → (start_threads i made p).loops ≡ p.loops ++ take (length made) (drop i (p.threads ++ made))
unfolding start_threads
start_threads_lem i [] p h = sym (append-nil p.loops)
start_threads_lem i (x ∷ rest) p h =
    let threads = p.threads ++ (x ∷ []) in
    let behind : i + 1 ≡ suc i = omega arith in
    let few : i < length threads = omega (arith, length-append p.threads (x ∷ [])) in
    start_threads_lem (i + 1) rest
      (record p { threads = threads; loops = p.loops ++ (get_or threads i 0 ∷ []) }) (omega arith)
    ∙ append_assoc p.loops (get_or threads i 0 ∷ []) _
    ∙ ap (◌++◌ p.loops) (
        ap₂ (λ t j. t ∷ take (length rest) (drop j (threads ++ rest)))
          (sym (get_or-front i threads rest few)) behind
        ∙ take-suc i (length rest) (threads ++ rest) (omega (arith, length-append threads rest))
        ∙ ap (λ t. take (suc (length rest)) (drop i t)) (append_assoc p.threads (x ∷ []) rest))

-- `setThreadNums` on any pool puts the loops of the first threads of the pool, as many as are made
-- now, behind the loops that it deals out: those of the new threads only if there were none before.
pub set_thread_nums_lem :
    (made : List ℕ) (p : EventLoopThreadPool)
    → (set_thread_nums made p).loops ≡ p.loops ++ take (length made) (p.threads ++ made)
unfolding set_thread_nums
set_thread_nums_lem made p = start_threads_lem 0 made p (omega arith)

get_elem?-drop :
    (i : ℕ) (xs : List ℕ)
    → i < length xs
    → get_elem? xs i ∷ map some (drop (suc i) xs) ≡ map some (drop i xs)
get_elem?-drop i [] h = absurd (omega arith)
get_elem?-drop zero (x ∷ xs) h = refl
get_elem?-drop (suc i) (x ∷ xs) h = get_elem?-drop i xs (omega arith)

one_turn :
    (p : EventLoopThreadPool)
    → length p.threads ≢ 0
    → get_next_loop p ≡ (
      record p { next = if p.next + 1 == length p.loops then 0 else p.next + 1 },
      get_elem? p.loops p.next,
    )
unfolding get_next_loop
one_turn p h = ground arith

round_from :
    (n : ℕ) (p : EventLoopThreadPool)
    → length p.threads ≢ 0
    → suc n + p.next ≡ length p.loops
    → turns (suc n) p ≡ (map some (drop p.next p.loops), record p { next = 0 })
unfolding turns
round_from zero p h e =
    ap (λ (t : EventLoopThreadPool × Option ℕ). (t.1 ∷ (turns 0 t.0).0, (turns 0 t.0).1))
      (one_turn p h)
    ∙ ap₂ (λ (a : List (Option ℕ)) (b : ℕ). (get_elem? p.loops p.next ∷ a, record p { next = b }))
        (ap (map some) (sym (drop_all (suc p.next) p.loops (omega arith)))) (ground arith)
    ∙ ap (λ (a : List (Option ℕ)). (a, record p { next = 0 }))
        (get_elem?-drop p.next p.loops (omega arith))
round_from (suc n) p h e =
    let q : EventLoopThreadPool = record p { next = suc p.next } in
    ap
      (λ (t : EventLoopThreadPool × Option ℕ). (t.1 ∷ (turns (suc n) t.0).0, (turns (suc n) t.0).1))
      (one_turn p h)
    ∙ ap
        (λ (b : ℕ). (
          get_elem? p.loops p.next ∷ (turns (suc n) (record p { next = b })).0,
          (turns (suc n) (record p { next = b })).1,
        ))
        (ground arith)
    ∙ ap (λ (t : List (Option ℕ) × EventLoopThreadPool). (get_elem? p.loops p.next ∷ t.0, t.1))
        (round_from n q h (omega arith))
    ∙ ap (λ (a : List (Option ℕ)). (a, record p { next = 0 }))
        (get_elem?-drop p.next p.loops (omega arith))

-- In a pool with threads and loops that is to start with its first loop, as many calls of
-- `getNextLoop` as there are loops return each loop once, in order and never out of range, and leave
-- the pool as it was.
pub one_round :
    (p : EventLoopThreadPool)
    → length p.threads ≢ 0
    → 0 < length p.loops
    → p.next ≡ 0
    → turns (length p.loops) p ≡ (map some p.loops, p)
one_round p h some_loops z =
    ap (λ n. turns n p) (omega arith)
    ∙ round_from (length p.loops - 1) p h (omega arith)
    ∙ ap₂ (λ (i j : ℕ). (map some (drop i p.loops), record p { next = j })) z (sym z)
