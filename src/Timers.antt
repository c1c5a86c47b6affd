-- ===== src/Timers.antt =====
-- src/timeImpl.cc and src/timeImpl.h: the timers of a thread and its queue of next ticks.
-- A Timer is named by its id, and the heap of timers has those that are not deleted. A callback is
-- what it does to the pool when it is called, the same each time, and finite with the callbacks that
-- it asks for: one that asks for itself again, which keeps do_tick busy for ever, is none of them; libuv calls the handlers one at a
-- time, for timers that are started. When the tick event fires, and what keeps the loop alive, is not
-- modelled. `new` does not fail.
pub mod Steps
pub mod Valid
pub mod Callbacks
pub mod Ticks
pub mod Order
pub mod Freed
pub mod Pool
pub mod Methods
pub mod Globals
pub mod Handles
mod Examples
use threadjs_lib.Base.{
  ℕ, zero, suc, ◌+◌, ◌-◌, ◌*◌, ltb, ◌==◌, Bool, true, false, List, [], ◌∷◌, ◌++◌, Option, none,
  some, if◌then◌else◌,
}
use threadjs_lib.IdContainer.{contains, insert, erase}
use threadjs_lib.StdMap.{Map}
use threadjs_lib.StdMap

-- The functions that a callback calls: _next_tick, setTimeout, setInterval or setImmediate with its
-- times, and one of the clear functions.
pub data Script : Type 0 where
  done : Script
  next_tick : (callback more : Script) → Script
  set_timer : (timeout repeat : ℕ) (callback more : Script) → Script
  clear : (id : ℕ) (more : Script) → Script

-- `overflow` is that of the counter of ids, `freed` a use of a deleted timer.
pub data Outcome (A : Type 0) : Type 0 where
  ok : A → Outcome A
  overflow freed no_fuel : Outcome A

abbrev pub and_then : {A B : Type 0} → Outcome A → (A → Outcome B) → Outcome B
and_then (ok a) f = f a
and_then overflow f = overflow
and_then freed f = freed
and_then no_fuel f = no_fuel

-- `started` is the timeout and the repeat of the handle.
pub record Timer : Type 0 where
  pub fn : Script
  pub has_pool : Bool
  pub started : Option (ℕ × ℕ)

-- `pool` is the keys of the map in some order, whose timers are named alike, and `ran` the calls so
-- far.
pub record TimerPool : Type 0 where
  pub timers : Map Timer
  pub pool : List ℕ
  pub id : ℕ
  pub tick_queue : List ℕ
  pub ran : List ℕ

-- The pool of a new thread.
unfoldable pub new_pool : TimerPool
new_pool = record { timers = []; pool = []; id = 1; tick_queue = []; ran = [] }

-- A use of a timer through its pointer.
abbrev pub on_timer : {B : Type 0} → ℕ → TimerPool → (Timer → Outcome B) → Outcome B
on_timer i w f = elim (StdMap.find i w.timers) [ none ↦ freed | some t ↦ f t ]

-- The largest int32_t.
abbrev pub id_max : ℕ
id_max = 2147483647

unfoldable pub create_timer : Script → TimerPool → Outcome (ℕ × TimerPool)
create_timer cb w =
    let i = w.id + 1 in
    let t : Timer = record { fn = cb; has_pool = true; started = none } in
    if ltb w.id id_max
    then ok (i, record w { timers = StdMap.insert i t w.timers; pool = insert i w.pool; id = i })
    else overflow

-- Whether there was a timer of that id.
unfoldable pub pop : ℕ → TimerPool → Bool × TimerPool
pop i w = if contains i w.pool then (true, record w { pool = erase i w.pool }) else (false, w)

unfoldable pub push_tick : ℕ → TimerPool → TimerPool
push_tick i w = record w { tick_queue = w.tick_queue ++ i ∷ [] }

-- setPool(0).
unfoldable pub leave_pool : ℕ → TimerPool → Outcome TimerPool
leave_pool i w =
    on_timer i w
      (λ t. ok (record w { timers = StdMap.assign i (record t { has_pool = false }) w.timers }))

-- The destructor; an id is never 0.
unfoldable pub delete_timer : ℕ → TimerPool → Outcome TimerPool
unfolding pop
delete_timer i w = on_timer i w (λ t.
    let w' : TimerPool = record w { timers = StdMap.erase i w.timers } in
    ok (if t.has_pool then (pop i w').1 else w'))

unfoldable pub start : ℕ → ℕ → ℕ → TimerPool → Outcome TimerPool
start timeout repeat i w = on_timer i w (λ t. ok (record w {
  timers = StdMap.assign i (record t { started = some (timeout, repeat) }) w.timers;
}))

-- j_clear_time behind its tests of the argument.
unfoldable pub clear_time : ℕ → TimerPool → Outcome TimerPool
unfolding pop leave_pool delete_timer
clear_time i w =
    let (found, w₁) = pop i w in
    if found then and_then (leave_pool i w₁) (delete_timer i) else ok w₁

-- A callback. Its calls of j_next_tick and of the functions that start a timer are _j_time.
unfoldable pub run : Script → TimerPool → Outcome TimerPool
unfolding create_timer push_tick start clear_time
run done w = ok w
run (next_tick cb more) w = and_then (create_timer cb w) (λ (i, w₁). run more (push_tick i w₁))
run (set_timer timeout repeat cb more) w =
    and_then (create_timer cb w) (λ (i, w₁). and_then (start timeout repeat i w₁) (run more))
run (clear i more) w = and_then (clear_time i w) (run more)

-- fn.call() of the timer, which is a field of it: behind the call of the function it reads its target.
unfoldable pub call_fn : ℕ → TimerPool → Outcome TimerPool
unfolding run
call_fn i w = on_timer i w (λ t.
    and_then (run t.fn (record w { ran = w.ran ++ i ∷ [] })) (λ w₁. on_timer i w₁ (λ t₁. ok w₁)))

-- back() and pop_back() of the queue.
unfoldable pub back : List ℕ → Option (List ℕ × ℕ)
back [] = none
back (i ∷ q) = elim (back q) [ none ↦ some ([], i) | some (rest, j) ↦ some (i ∷ rest, j) ]

-- What do_tick does with a timer that it took out of the pool.
unfoldable pub tick : ℕ → TimerPool → Outcome TimerPool
unfolding call_fn leave_pool delete_timer
tick i w = and_then (and_then (call_fn i w) (leave_pool i)) (delete_timer i)

-- A round costs a unit of fuel.
unfoldable pub do_tick : ℕ → TimerPool → Outcome TimerPool
unfolding back pop tick
do_tick zero w = no_fuel
do_tick (suc f) w = elim (back w.tick_queue) [
  | none ↦ ok w
  | some (rest, i) ↦
      let (found, w₁) = pop i (record w { tick_queue = rest }) in
      let ticked = and_then (tick i w₁) (do_tick f) in
      let skipped = do_tick f w₁ in if found then ticked else skipped
]

-- `call` as the handlers of libuv use it.
unfoldable pub call : ℕ → ℕ → TimerPool → Outcome TimerPool
unfolding do_tick call_fn
call f i w = on_timer i w (λ t. and_then (if t.has_pool then do_tick f w else ok w) (call_fn i))

unfoldable pub timeout_one_cb : ℕ → ℕ → TimerPool → Outcome TimerPool
unfolding call delete_timer
timeout_one_cb f i w = and_then (call f i w) (delete_timer i)

unfoldable pub timeout_repeat_cb : ℕ → ℕ → TimerPool → Outcome TimerPool
unfolding call
timeout_repeat_cb f i w = call f i w

-- libuv calls the handler that `start` chose.
unfoldable pub fire : ℕ → ℕ → TimerPool → Outcome TimerPool
unfolding timeout_one_cb timeout_repeat_cb
fire f i w = on_timer i w (λ t. elim t.started [
  | none ↦ ok w
  | some (timeout, repeat) ↦ if repeat == 0 then timeout_one_cb f i w else timeout_repeat_cb f i w
])

-- The handler of the tick event.
unfoldable pub recv_tick_event : ℕ → TimerPool → Outcome TimerPool
unfolding do_tick
recv_tick_event f w = do_tick f w

-- ~TimerPool: its loop, and pool.clear().
unfoldable pub delete_all : List ℕ → TimerPool → Outcome TimerPool
unfolding leave_pool delete_timer
delete_all [] w = ok w
delete_all (i ∷ is) w = and_then (and_then (leave_pool i w) (delete_timer i)) (delete_all is)

unfoldable pub delete_pool : TimerPool → Outcome TimerPool
unfolding delete_all
delete_pool w = and_then (delete_all w.pool w) (λ w'. ok (record w' { pool = [] }))
