-- ===== src/EventLoopThreadPool.antt =====
-- include/ws/EventLoopThreadPool.h and src/EventLoopThreadPool.cpp: which loop a connection gets.
-- A thread stands for its loop, which `startLoop` returns; the loops of the threads that
-- `setThreadNums` makes are its argument.
pub mod Rounds
mod Tests
use websocket_engine.Base.{
  ℕ, ◌+◌, Bool, List, [], ◌∷◌, ◌++◌, Option, some, ◌==◌, if◌then◌else◌, length, get_or, get_elem?,
}

pub record EventLoopThreadPool : Type 0 where
  pub threads : List ℕ
  pub loops : List ℕ
  pub next : ℕ
  pub base_loop : ℕ

unfoldable pub new : ℕ → EventLoopThreadPool
new base_loop = record { threads = []; loops = []; next = 0; base_loop = base_loop }

unfoldable pub is_single_thread : EventLoopThreadPool → Bool
is_single_thread p = length p.threads == 0

-- The loop of `setThreadNums` from `i` on.
unfoldable pub start_threads : ℕ → List ℕ → EventLoopThreadPool → EventLoopThreadPool
start_threads i [] p = p
start_threads i (made ∷ rest) p =
    let threads = p.threads ++ (made ∷ []) in
    start_threads (i + 1) rest
      (record p { threads = threads; loops = p.loops ++ (get_or threads i 0 ∷ []) })

unfoldable pub set_thread_nums : List ℕ → EventLoopThreadPool → EventLoopThreadPool
unfolding start_threads
set_thread_nums made p = start_threads 0 made p

-- `none` where the vector is read out of its range.
unfoldable pub get_next_loop : EventLoopThreadPool → EventLoopThreadPool × Option ℕ
get_next_loop p = if length p.threads == 0 then (p, some p.base_loop) else (
  record p { next = if p.next + 1 == length p.loops then 0 else p.next + 1 },
  get_elem? p.loops p.next,
)

-- The destructor, which ends the threads that the vector holds.
unfoldable pub destroy : EventLoopThreadPool → EventLoopThreadPool
destroy p = record p { threads = [] }
