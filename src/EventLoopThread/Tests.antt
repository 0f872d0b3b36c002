-- ===== src/EventLoopThread/Tests.antt =====
-- The two threads on concrete interleavings.
use websocket_engine.Base.{ℕ, ◌≡◌, refl, ◌⊎◌, true, false, Option, none, some, List, [], ◌∷◌}
use websocket_engine.EventLoopThread.{
  entered, outside, called, flagged, looping, over, waiting, testing, released, returned,
  EventLoopThread, new, Move, call_back, flag, lock, test, get, move, Reach, here, after, construct,
  ReachUnprompted, notify, constructing,
}
use websocket_engine.EventLoopThread.Start.{start_loop_lem, lost_wakeup}

abbrev run : List Move → EventLoopThread → Option EventLoopThread
run [] s = some s
run (m ∷ ms) s = elim (move true m s) [ none ↦ none | some t ↦ run ms t ]

abbrev called_thread : EventLoopThread
called_thread = record {
  loop = some 5;
  started = false;
  locked = false;
  thread = called;
  owner = outside;
  callback_ran = true;
  null_stopped = false;
  unconstructed_use = false;
}

abbrev flagged_thread : EventLoopThread
flagged_thread = record called_thread { thread = flagged; started = true }

abbrev locked_thread : EventLoopThread
locked_thread = record flagged_thread { owner = testing; locked = true }

abbrev released_thread : EventLoopThread
released_thread = record flagged_thread { owner = released }

abbrev returned_thread : EventLoopThread
returned_thread = record flagged_thread { owner = returned (some 5) }

abbrev built_thread : EventLoopThread
built_thread = record called_thread { thread = entered; callback_ran = false }

reached : Reach true (new 5 false) returned_thread
unfolding new move
reached =
    after released_thread returned_thread get
      (after locked_thread released_thread test
        (after flagged_thread locked_thread lock
          (after called_thread flagged_thread flag
            (after built_thread called_thread call_back
              (after (new 5 false) built_thread construct here refl) refl)
            refl)
          refl)
        refl)
      refl

start_loop_lem_example :
    (returned_thread.started ≡ true)
    × (returned_thread.callback_ran ≡ true)
    × ((◌≡◌ {A = Option ℕ} (some 5) (some 5))
        ⊎ ((◌≡◌ {A = Option ℕ} (some 5) none) × (flagged ≡ over)))
start_loop_lem_example = start_loop_lem 5 true returned_thread (some 5) reached refl

lost_wakeup_example :
    (s : EventLoopThread) × Reach true (new 5 false) s
    × (s.started ≡ true)
    × (s.thread ≡ looping)
    × ((u : EventLoopThread) → ReachUnprompted true s u → u.owner ≡ waiting)
lost_wakeup_example = lost_wakeup 5 true

-- With `started_` true by chance, `startLoop` returns before the thread has done anything.
early :
    run (construct ∷ lock ∷ test ∷ get ∷ []) (new 5 true)
    ≡ some (record called_thread {
      started = true;
      thread = entered;
      owner = returned (some 5);
      callback_ran = false;
    })
unfolding move new
early = refl

-- The thread notifies before the condition is constructed.
premature :
    run (call_back ∷ flag ∷ notify ∷ []) (new 5 false)
    ≡ some
        (record flagged_thread { thread = looping; owner = constructing; unconstructed_use = true })
unfolding move new
premature = refl
