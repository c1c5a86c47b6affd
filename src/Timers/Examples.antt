-- ===== src/Timers/Examples.antt =====
-- src/timeImpl.cc: two next ticks, of which one asks for another, and a timeout that clears itself.
use threadjs_lib.Base.{none, ◌≡◌, refl, true, [], ◌∷◌, none, arith}
use threadjs_lib.IdContainer.{contains, insert}
use threadjs_lib.StdMap.{find}
use threadjs_lib.StdMap
use threadjs_lib.Timers.{
  ok, Script, done, next_tick, clear, freed, Timer, TimerPool, run, do_tick, timeout_one_cb,
  create_timer, start,
}
use threadjs_lib.Timers.Valid.{ticks, work, IsValid, Safe, Keeps}
use threadjs_lib.Timers.Callbacks.{run-Keeps}
use threadjs_lib.Timers.Ticks.{do_tick-IsValid}
use threadjs_lib.Timers.Order.{do_tick-reversed}
use threadjs_lib.Base.{List, some, ◌+◌}
use threadjs_lib.Errors.{codes}
use threadjs_lib.Timers.Methods.{
  Arg, function, uint32, object, undefined, j_set_interval, j_clear_time, invoke, j_time, Global,
  value, init_timer_functions, uninstall_timer_functions,
}
use threadjs_lib.Timers.Globals.{Installed, Uninstalled, uninstall_timer_functions-init}
use threadjs_lib.Timers.Handles.{clear_time-invoke}
use threadjs_lib.Timers.Freed.{timeout_one_cb-clear}

abbrev timer : Script → Timer
timer s = record { fn = s; has_pool = true; started = none }

-- The callback of 2 asks for a tick and clears 3, which waits too.
abbrev waiting : TimerPool
waiting = record {
  timers = (2, timer (next_tick done (clear 3 done))) ∷ (3, timer done) ∷ [];
  pool = 2 ∷ 3 ∷ [];
  id = 3;
  tick_queue = 2 ∷ 3 ∷ [];
  ran = [];
}

waiting-IsValid : IsValid waiting
unfolding contains find
waiting-IsValid = record {
  queue_old = (omega arith, (omega arith, tt));
  timers_old = (omega arith, (omega arith, tt));
  pool_distinct = (refl, (refl, tt));
  pool_alive = λ i h. ground arith;
}

do_tick-IsValid_example : Safe (λ w'. IsValid w' × (w'.tick_queue ≡ [])) (do_tick 4 waiting)
unfolding work ticks find
do_tick-IsValid_example = do_tick-IsValid 4 waiting waiting-IsValid (omega arith)

run-Keeps_example : Safe (Keeps 1 waiting) (run (next_tick done (clear 3 done)) waiting)
unfolding ticks
run-Keeps_example = run-Keeps (next_tick done (clear 3 done)) waiting waiting-IsValid

-- The timeout 2 clears itself.
abbrev self : TimerPool
self = record {
  timers = (2, timer (clear 2 done)) ∷ [];
  pool = 2 ∷ [];
  id = 2;
  tick_queue = [];
  ran = [];
}

timeout_one_cb-clear_example : timeout_one_cb 9 2 self ≡ freed
unfolding find contains
timeout_one_cb-clear_example =
    timeout_one_cb-clear 8 2 self (timer (clear 2 done)) refl refl refl refl

-- The next tick 3 clears the timeout 2.
abbrev crossed : TimerPool
crossed = record {
  timers = (2, timer done) ∷ (3, timer (clear 2 done)) ∷ [];
  pool = 2 ∷ 3 ∷ [];
  id = 3;
  tick_queue = 3 ∷ [];
  ran = [];
}

-- The ticks 2 and 3 do nothing; 2 was asked for first.
abbrev quiet : TimerPool
quiet = record {
  timers = (2, timer done) ∷ (3, timer done) ∷ [];
  pool = 2 ∷ 3 ∷ [];
  id = 3;
  tick_queue = 2 ∷ 3 ∷ [];
  ran = [];
}

do_tick-reversed_example : (w' : TimerPool) × (do_tick 9 quiet ≡ ok w') × (w'.ran ≡ 3 ∷ 2 ∷ [])
unfolding contains find
do_tick-reversed_example =
    do_tick-reversed (3 ∷ 2 ∷ []) 9 quiet refl
      ((refl, timer done, refl, refl), ((refl, timer done, refl, refl), tt)) (refl, (refl, tt))
      (omega arith)

-- setInterval with a callback that asks for a tick, and clearInterval of what it returned.
abbrev interval_args : List Arg
interval_args = function (next_tick done done) ∷ uint32 20 ∷ []

abbrev ticking : TimerPool
ticking = record {
  timers =
      (2, timer (next_tick done (clear 3 done)))
      ∷ (3, timer done)
      ∷ (4, record { fn = next_tick done done; has_pool = true; started = some (20, 20) })
      ∷ [];
  pool = 4 ∷ 2 ∷ 3 ∷ [];
  id = 4;
  tick_queue = 2 ∷ 3 ∷ [];
  ran = [];
}

clear_time-invoke_example :
    (4 ≡ 3 + 1)
    × (invoke j_clear_time (object (some 4) ∷ []) ticking
        ≡ undefined (record waiting { id = 4; tick_queue = ticking.tick_queue }))
unfolding invoke find contains StdMap.insert StdMap.assign insert create_timer start j_time
clear_time-invoke_example =
    clear_time-invoke j_set_interval interval_args 4 waiting ticking waiting-IsValid refl

-- A global object that has a setTimeout of its own.
abbrev with_own : Global
with_own = record {
  properties = (codes "Math", value 1) ∷ (codes "setTimeout", value 2) ∷ [];
  event_target = none;
}

uninstall_timer_functions-init_example :
    Installed 7 9 with_own (init_timer_functions 7 9 with_own)
    × Uninstalled with_own (uninstall_timer_functions (init_timer_functions 7 9 with_own))
uninstall_timer_functions-init_example = uninstall_timer_functions-init 7 9 with_own
