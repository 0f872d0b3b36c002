-- ===== src/EventLoopThread.antt =====
-- include/ws/EventLoopThread.h and src/EventLoopThread.cpp: a thread that runs a loop, and the thread
-- that starts and ends it. Each move is one action of one of the two threads; an order of moves is an
-- interleaving. A wait on the condition may also end without a notification, as the standard permits.
-- The thread starts before `mutex_` and `condition_` are constructed; what it then does with them is
-- undefined, which a ghost records.
pub mod Start
mod Tests
use websocket_engine.Base.{ℕ, ◌≡◌, Bool, true, false, Option, none, some, if◌then◌else◌}

-- Where `threadFunc` stands: at its start, behind the callback, behind `started_ = true`, in the loop,
-- behind it, and behind its end.
pub data ThreadPoint : Type 0 where
  entered called flagged looping leaving over : ThreadPoint

-- Where the owner stands: in the constructor behind the start of the thread, before `startLoop`, at the
-- test of `started_` with the mutex held, behind a test that failed, waiting with the mutex released,
-- woken, behind the wait, behind `startLoop` with what it returned, and in the destructor behind
-- `uv_stop` and behind `join`.
pub data OwnerPoint : Type 0 where
  constructing outside testing refused waiting woken released : OwnerPoint
  returned : Option ℕ → OwnerPoint
  joining joined : OwnerPoint

-- `locked` says whether the mutex is held. The ghosts: whether `cb_` was called, whether `uv_stop` was
-- called on a null pointer, and whether the thread used the condition or the mutex before it was
-- constructed.
pub record EventLoopThread : Type 0 where
  pub loop : Option ℕ
  pub started : Bool
  pub locked : Bool
  pub thread : ThreadPoint
  pub owner : OwnerPoint
  pub callback_ran : Bool
  pub null_stopped : Bool
  pub unconstructed_use : Bool

-- The constructors, up to the start of the thread; the members behind `thread_` are still to be
-- constructed. `started_` is not initialised.
unfoldable pub new : ℕ → Bool → EventLoopThread
new loop junk = record {
  loop = some loop;
  started = junk;
  locked = false;
  thread = entered;
  owner = constructing;
  callback_ran = false;
  null_stopped = false;
  unconstructed_use = false;
}

-- The moves of `threadFunc`, where `ran` is one call of `uv_run`, with whether it returned 0; the rest
-- of the constructor; the moves of `startLoop`, where `wake` is a spurious wakeup, and of the destructor.
pub data Move : Type 0 where
  call_back flag notify finish : Move
  ran : Bool → Move
  construct : Move
  lock test wait wake relock get : Move
  stop join : Move

abbrev pub is_constructing : OwnerPoint → Bool
is_constructing constructing = true
is_constructing _ = false

-- The thread uses a member behind `thread_`.
abbrev pub use_member : EventLoopThread → EventLoopThread
use_member s = if is_constructing s.owner then record s { unconstructed_use = true } else s

-- `threadFunc`, with `has_callback` for `cb_ != nullptr`
unfoldable pub thread_move : Bool → Move → EventLoopThread → Option EventLoopThread
thread_move has_callback call_back s = elim s.thread [
  | entered ↦ elim s.loop [
    | none ↦ none
    | some l ↦ some (record s { thread = called; callback_ran = has_callback })
  ]
  | _ ↦ none
]
thread_move has_callback flag s = elim s.thread [
  | called ↦ some (record s { thread = flagged; started = true })
  | _ ↦ none
]
thread_move has_callback notify s = elim s.thread [
  | flagged ↦ elim s.owner [
    | waiting ↦ some (record s { thread = looping; owner = woken })
    | _ ↦ some (record (use_member s) { thread = looping })
  ]
  | _ ↦ none
]
thread_move has_callback (ran zero) s = elim s.thread [
  | looping ↦ some (if zero then s else record s { thread = leaving })
  | _ ↦ none
]
thread_move has_callback finish s = elim s.thread [
  | leaving ↦ if s.locked then none else some (record (use_member s) { thread = over; loop = none })
  | _ ↦ none
]
thread_move has_callback _ s = none

-- The end of the constructor
unfoldable pub construct_move : EventLoopThread → Option EventLoopThread
construct_move s = if is_constructing s.owner then some (record s { owner = outside }) else none

-- `startLoop`
unfoldable pub start_move : Move → EventLoopThread → Option EventLoopThread
start_move lock s = elim s.owner [
  | outside ↦ if s.locked then none else some (record s { owner = testing; locked = true })
  | _ ↦ none
]
start_move test s = elim s.owner [
  | testing ↦ some (
      if s.started
      then record s { owner = released; locked = false }
      else record s { owner = refused })
  | _ ↦ none
]
start_move wait s = elim s.owner [
  | refused ↦ some (record s { owner = waiting; locked = false })
  | _ ↦ none
]
start_move wake s = elim s.owner [ waiting ↦ some (record s { owner = woken }) | _ ↦ none ]
start_move relock s = elim s.owner [
  | woken ↦ if s.locked then none else some (record s { owner = testing; locked = true })
  | _ ↦ none
]
start_move get s = elim s.owner [
  | released ↦ some (record s { owner = returned s.loop })
  | _ ↦ none
]
start_move _ s = none

-- `uv_stop` on the loop, if there is one
abbrev pub stop_loop : EventLoopThread → EventLoopThread
stop_loop s = record s {
  owner = joining;
  null_stopped = elim s.loop [ none ↦ true | some l ↦ false ];
}

-- `~EventLoopThread`, whether `startLoop` was called or not
unfoldable pub end_move : Move → EventLoopThread → Option EventLoopThread
end_move stop s = elim s.owner [
  | outside ↦ some (stop_loop s)
  | returned r ↦ some (stop_loop s)
  | _ ↦ none
]
end_move join s = elim s.owner [
  | joining ↦ elim s.thread [ over ↦ some (record s { owner = joined }) | _ ↦ none ]
  | _ ↦ none
]
end_move _ s = none

-- One move; `none` where it is not possible.
unfoldable pub move : Bool → Move → EventLoopThread → Option EventLoopThread
unfolding thread_move construct_move start_move end_move
move has_callback construct s = construct_move s
move has_callback lock s = start_move lock s
move has_callback test s = start_move test s
move has_callback wait s = start_move wait s
move has_callback wake s = start_move wake s
move has_callback relock s = start_move relock s
move has_callback get s = start_move get s
move has_callback stop s = end_move stop s
move has_callback join s = end_move join s
move has_callback m s = thread_move has_callback m s

-- The states that moves lead to.
pub data Reach (has_callback : Bool) (s : EventLoopThread) : EventLoopThread → Type 0 where
  here : Reach has_callback s s
  after :
      (t u : EventLoopThread) (m : Move)
      → Reach has_callback s t
      → move has_callback m t ≡ some u
      → Reach has_callback s u

abbrev pub is_wake : Move → Bool
is_wake wake = true
is_wake _ = false

-- The states that moves other than spurious wakeups lead to.
pub data ReachUnprompted (has_callback : Bool) (s : EventLoopThread)
    : EventLoopThread → Type 0 where
  still : ReachUnprompted has_callback s s
  then_move :
      (t u : EventLoopThread) (m : Move)
      → ReachUnprompted has_callback s t
      → is_wake m ≡ false
      → move has_callback m t ≡ some u
      → ReachUnprompted has_callback s u
