-- ===== src/EventLoopThread/Start.antt =====
-- src/EventLoopThread.cpp, over all interleavings: what `startLoop` returns, and when.
use websocket_engine.Base.{ℕ, ◌≡◌, refl, ◌⊎◌, Bool, true, false, Option, none, some, arith}
use websocket_engine.EventLoopThread.{
  ThreadPoint, entered, called, flagged, looping, leaving, over, OwnerPoint, testing, refused,
  waiting, released, returned, EventLoopThread, new, Move, call_back, flag, notify, finish, ran,
  lock, test, wait, relock, get, stop, join, thread_move, start_move, end_move, move, Reach, here,
  after, outside, construct, wake, construct_move, is_wake, ReachUnprompted, still, then_move,
}

-- Behind `started_ = true`
abbrev flag_set : ThreadPoint → Bool
flag_set entered = false
flag_set called = false
flag_set _ = true

abbrev is_entered : ThreadPoint → Bool
is_entered entered = true
is_entered _ = false

-- Behind the wait
abbrev is_through : OwnerPoint → Bool
is_through released = true
is_through (returned r) = true
is_through _ = false

abbrev loop_at : ℕ → ThreadPoint → Option ℕ
loop_at l over = none
loop_at l _ = some l

abbrev Returned : ℕ → ThreadPoint → OwnerPoint → Type 0
Returned l t (returned r) = (r ≡ some l) ⊎ ((r ≡ none) × (t ≡ over))
Returned l t _ = Unit

record Inv (l : ℕ) (has_callback : Bool) (s : EventLoopThread) : Type 0 where
  started : s.started ≡ flag_set s.thread
  loop : s.loop ≡ loop_at l s.thread
  through : is_through s.owner ≡ true → s.started ≡ true
  result : Returned l s.thread s.owner
  callback : is_entered s.thread ≡ false → s.callback_ran ≡ has_callback

-- Behind the notification
abbrev is_past : ThreadPoint → Bool
is_past looping = true
is_past leaving = true
is_past over = true
is_past _ = false

module _ (l : ℕ) (b : Bool) where
  owner_step : (m : Move) (s u : EventLoopThread) → Inv l b s → start_move m s ≡ some u → Inv l b u
  unfolding start_move
  owner_step lock s u h e = ground arith
  owner_step test s u h e = ground arith
  owner_step wait s u h e = ground arith
  owner_step wake s u h e = ground arith
  owner_step relock s u h e = ground arith
  owner_step get s u h e = ground arith
  owner_step _ s u h e = ground arith

  construct_step : (s u : EventLoopThread) → Inv l b s → construct_move s ≡ some u → Inv l b u
  unfolding construct_move
  construct_step s u h e = ground arith

  end_step : (m : Move) (s u : EventLoopThread) → Inv l b s → end_move m s ≡ some u → Inv l b u
  unfolding end_move
  end_step stop s u h e = ground arith
  end_step join s u h e = ground arith
  end_step _ s u h e = ground arith

  thread_step :
      (m : Move) (s u : EventLoopThread) → Inv l b s → thread_move b m s ≡ some u → Inv l b u
  unfolding thread_move
  thread_step call_back s u h e = ground arith
  thread_step flag s u h e = ground arith
  thread_step notify s u h e = ground arith
  thread_step (ran zero) s u h e = ground arith
  thread_step finish s u h e = ground arith
  thread_step _ s u h e = ground arith

  move_step : (m : Move) (s u : EventLoopThread) → Inv l b s → move b m s ≡ some u → Inv l b u
  unfolding move
  move_step lock s u h e = owner_step lock s u h e
  move_step test s u h e = owner_step test s u h e
  move_step wait s u h e = owner_step wait s u h e
  move_step wake s u h e = owner_step wake s u h e
  move_step construct s u h e = construct_step s u h e
  move_step relock s u h e = owner_step relock s u h e
  move_step get s u h e = owner_step get s u h e
  move_step stop s u h e = end_step stop s u h e
  move_step join s u h e = end_step join s u h e
  move_step call_back s u h e = thread_step call_back s u h e
  move_step flag s u h e = thread_step flag s u h e
  move_step notify s u h e = thread_step notify s u h e
  move_step finish s u h e = thread_step finish s u h e
  move_step (ran zero) s u h e = thread_step (ran zero) s u h e

  Reach-Inv : (s : EventLoopThread) → Reach b (new l false) s → Inv l b s
  unfolding new
  Reach-Inv _ here = ground arith
  Reach-Inv s (after t _ m r e) = move_step m t s (Reach-Inv t r) e

  -- If `started_` happens to be false at first: in every state that the two threads can reach where
  -- `startLoop` has returned, the thread has called its callback, if there is one, and set `started_`,
  -- and the result is the loop, or null where the thread had already ended.
  pub start_loop_lem :
      (s : EventLoopThread) (r : Option ℕ)
      → Reach b (new l false) s
      → s.owner ≡ returned r
      → (s.started ≡ true)
        × (s.callback_ran ≡ b)
        × ((r ≡ some l) ⊎ ((r ≡ none) × (s.thread ≡ over)))
  start_loop_lem s r reached back = ground (arith, Reach-Inv s reached)

-- The thread has notified and the owner waits.
abbrev IsLost : EventLoopThread → Type 0
IsLost s = (s.owner ≡ waiting) × (is_past s.thread ≡ true)

move-IsLost :
    (b : Bool) (m : Move) (s u : EventLoopThread)
    → is_wake m ≡ false
    → IsLost s
    → move b m s ≡ some u
    → IsLost u
unfolding move
move-IsLost b lock s u n h e = ground arith
move-IsLost b test s u n h e = ground arith
move-IsLost b wait s u n h e = ground arith
move-IsLost b wake s u n h e = ground arith
move-IsLost b construct s u n h e = ground arith
move-IsLost b relock s u n h e = ground arith
move-IsLost b get s u n h e = ground arith
move-IsLost b stop s u n h e = ground arith
move-IsLost b join s u n h e = ground arith
move-IsLost b call_back s u n h e = ground arith
move-IsLost b flag s u n h e = ground arith
move-IsLost b notify s u n h e = ground arith
move-IsLost b finish s u n h e = ground arith
move-IsLost b (ran zero) s u n h e = ground arith

ReachUnprompted-IsLost :
    (b : Bool) (s u : EventLoopThread) → IsLost s → ReachUnprompted b s u → IsLost u
ReachUnprompted-IsLost b s _ h still = h
ReachUnprompted-IsLost b s u h (then_move t _ m r n e) =
    move-IsLost b m t u n (ReachUnprompted-IsLost b s t h r) e

-- The state that the schedule of `lost_wakeup` leads to.
abbrev lost : ℕ → Bool → EventLoopThread
lost l b = record {
  loop = some l;
  started = true;
  locked = false;
  thread = looping;
  owner = waiting;
  callback_ran = b;
  null_stopped = false;
  unconstructed_use = false;
}

schedule : (l : ℕ) (b : Bool) → Reach b (new l false) (lost l b)
unfolding move new
schedule l b =
    let entering : EventLoopThread = record (lost l b) {
      owner = testing;
      locked = true;
      thread = entered;
      started = false;
      callback_ran = false;
    } in
    let ready : EventLoopThread = record (new l false) { owner = outside } in
    let refusing : EventLoopThread = record entering { owner = refused } in
    let calling : EventLoopThread = record refusing { thread = called; callback_ran = b } in
    let flagging : EventLoopThread = record calling { thread = flagged; started = true } in
    let missed : EventLoopThread = record flagging { thread = looping } in
    after missed (lost l b) wait
      (after flagging missed notify
        (after calling flagging flag
          (after refusing calling call_back
            (after entering refusing test
              (after ready entering lock (after (new l false) ready construct here refl) refl) refl)
            refl)
          refl)
        refl)
      refl

-- `notify_one` is not under the mutex, so it can come between the owner's test of `started_` and its
-- wait: there is an interleaving, from a new object with `started_` false, after which the thread runs
-- its loop with `started_` set, and from which no moves but a spurious wakeup, which the standard permits
-- and does not promise, let `startLoop` return or even wake up.
pub lost_wakeup :
    (l : ℕ) (b : Bool)
    → (s : EventLoopThread) × Reach b (new l false) s
      × (s.started ≡ true)
      × (s.thread ≡ looping)
      × ((u : EventLoopThread) → ReachUnprompted b s u → u.owner ≡ waiting)
lost_wakeup l b = (
  lost l b,
  schedule l b,
  refl,
  refl,
  λ u r. (ReachUnprompted-IsLost b (lost l b) u (refl, refl) r).0,
)
