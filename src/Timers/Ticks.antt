-- ===== src/Timers/Ticks.antt =====
-- src/timeImpl.cc, TimerPool::do_tick: its rounds, on a valid pool.
use threadjs_lib.Base.{
  ℕ, zero, suc, ◌+◌, ◌≤◌, ◌<◌, ◌≡◌, refl, false, List, [], ◌∷◌, ◌++◌, some, if◌then◌else◌, arith,
  Bool-cases, inl, inr, All-split, ◌-◌,
}
use threadjs_lib.IdContainer.{contains, erase}
use threadjs_lib.IdContainer.Lifetime.{contains-erase}
use threadjs_lib.StdMap.{find}
use threadjs_lib.Timers.Steps.{on_timer_found, leave_pool-delete_timer, pop_there, pop_gone}
use threadjs_lib.Timers.{
  Outcome, ok, overflow, freed, no_fuel, and_then, Timer, TimerPool, pop, leave_pool, delete_timer,
  on_timer, run, call_fn, tick, do_tick,
}
use threadjs_lib.Timers.Callbacks.{run-Keeps, without-IsValid}
use threadjs_lib.Timers.Valid.{
  ticks, ticks_of, work, IsValid, Safe, Safe-then, work-append, back_cases, alive_timer,
  popped-IsValid, Keeps,
}

and_then_assoc :
    (o : Outcome TimerPool) (f g : TimerPool → Outcome TimerPool)
    → and_then (and_then o f) g ≡ and_then o (λ a. and_then (f a) g)
and_then_assoc (ok a) f g = refl
and_then_assoc overflow f g = refl
and_then_assoc freed f g = refl
and_then_assoc no_fuel f g = refl

-- One round: a timer that is out of the pool is called and deleted.
tick-IsValid :
    (i : ℕ) (w : TimerPool) (t : Timer)
    → IsValid w
    → i ≤ w.id
    → contains i w.pool ≡ false
    → find i w.timers ≡ some t
    → Safe
        (λ w'.
          IsValid w' × (work w'.tick_queue w'.timers ≤ work w.tick_queue w.timers + ticks t.fn))
        (tick i w)
unfolding tick call_fn
tick-IsValid i w t h le out e = rw (and_then_assoc (call_fn i w) (leave_pool i) (delete_timer i)) (
    Safe-then (Keeps (ticks t.fn) called) _ (call_fn i w) _ ran (λ w' kept.
      let (_, out', alive) = kept.out i le out (rw e refl) in
      let (t', e') = alive_timer (find i w'.timers) alive in
      let (valid, less) = without-IsValid w' kept.valid i t' e' out' in
      rw (leave_pool-delete_timer i w' t' e') (valid, omega (arith, less, kept.less))))
  where
    called : TimerPool
    called = record w { ran = w.ran ++ i ∷ [] }

    ran : Safe (Keeps (ticks t.fn) called) (call_fn i w)
    ran =
        rw
          (on_timer_found i w t e
            (λ t. and_then (run t.fn called) (λ w₁. on_timer i w₁ (λ _. ok w₁))))
          (Safe-then (Keeps (ticks t.fn) called) (Keeps (ticks t.fn) called) (run t.fn called) _
            (run-Keeps t.fn called (record {
              queue_old = h.queue_old;
              timers_old = h.timers_old;
              pool_distinct = h.pool_distinct;
              pool_alive = h.pool_alive;
            }))
            (λ w' kept.
              let (_, out', alive) = kept.out i le out (rw e refl) in
              let (t', e') = alive_timer (find i w'.timers) alive in
              rw (on_timer_found i w' t' e' (λ _. ok w')) kept))

-- What is left when the last id is taken out of the queue.
rest-IsValid :
    (w : TimerPool) (rest : List ℕ) (i : ℕ)
    → IsValid w
    → w.tick_queue ≡ rest ++ i ∷ []
    → IsValid (record w { tick_queue = rest })
      × (i ≤ w.id)
      × (work rest w.timers + suc (ticks_of (find i w.timers)) ≡ work w.tick_queue w.timers)
unfolding work
rest-IsValid w rest i h p =
    let (old, last) = All-split (λ j. j ≤ w.id) rest (i ∷ []) (rw p at h.queue_old) in
    (
      record {
        queue_old = old;
        timers_old = h.timers_old;
        pool_distinct = h.pool_distinct;
        pool_alive = h.pool_alive;
      },
      last.0,
      rw (p, work-append rest (i ∷ []) w.timers) (omega arith),
    )

-- One round, with what the rounds after it do.
round-IsValid :
    (Q : TimerPool → Type 0) (go : TimerPool → Outcome TimerPool) (n i : ℕ) (w : TimerPool)
    → IsValid w
    → i ≤ w.id
    → work w.tick_queue w.timers + ticks_of (find i w.timers) ≤ n
    → ((w' : TimerPool) → IsValid w' → work w'.tick_queue w'.timers ≤ n → Safe Q (go w'))
    → Safe Q (if (pop i w).0 then and_then (tick i (pop i w).1) go else go (pop i w).1)
round-IsValid Q go n i w h le few next = elim (Bool-cases (contains i w.pool)) [
  | inr gone ↦ rw (pop_gone i w gone) (next w h (omega arith))
  | inl there ↦
      let (t, e) = alive_timer (find i w.timers) (h.pool_alive i there) in
      let popped : TimerPool = record w { pool = erase i w.pool } in
      let out : contains i (erase i w.pool) ≡ false = ground (arith, contains-erase i i w.pool) in
      let enough : work w.tick_queue w.timers + ticks t.fn ≤ n = rw e at few in
      rw (pop_there i w there) (
        Safe-then _ Q (tick i popped) go (tick-IsValid i popped t (popped-IsValid i w h) le out e)
          (λ w' (valid, less). next w' valid (omega arith)))
]

-- Where the callbacks, with those that they ask for and so on, make finitely many calls, so that
-- none asks for itself again, do_tick comes from a valid pool to its end with as much fuel as the
-- queue has work, and one round more: it uses no deleted timer, and leaves the queue empty and the
-- pool valid; an overflow of the counter of ids is the one other result.
pub do_tick-IsValid :
    (f : ℕ) (w : TimerPool)
    → IsValid w
    → work w.tick_queue w.timers < f
    → Safe (λ w'. IsValid w' × (w'.tick_queue ≡ [])) (do_tick f w)
unfolding do_tick
do_tick-IsValid zero w h le = ground arith
do_tick-IsValid (suc f) w h le = elim (back_cases w.tick_queue) [
  | inl (e, p) ↦ rw (do_tick, e) (h, p)
  | inr (rest, i, e, p) ↦
      rw (do_tick, e)
        (let (valid, old, same) = rest-IsValid w rest i h p in
          round-IsValid _ (do_tick f) (work w.tick_queue w.timers - 1) i
            (record w { tick_queue = rest }) valid old (omega (arith, same))
            (λ w' valid' few. do_tick-IsValid f w' valid' (omega (arith, same))))
]
