-- ===== src/Timers/Callbacks.antt =====
-- src/timeImpl.cc: what a callback does to the pool, call by call.
use threadjs_lib.Base.{
  ℕ, suc, ◌+◌, ◌≤◌, ◌==◌, ◌≡◌, refl, true, false, [], ◌∷◌, none, some, if◌then◌else◌, arith,
  Bool-cases, inl, inr, All-append, All-map, Option-cases, ltb,
}
use threadjs_lib.IdContainer.{contains, erase}
use threadjs_lib.IdContainer.Lifetime.{contains-insert, contains-erase}
use threadjs_lib.StdMap.{
  find, is_some, AllKeys, find-insert_new, find-assign, find-erase, find-AllKeys, insert-AllKeys,
  erase-AllKeys, assign-AllKeys,
}
use threadjs_lib.StdMap
use threadjs_lib.Timers.Steps.{
  on_timer_found, find-without, without, clear_time_found, clear_time_gone,
}
use threadjs_lib.Timers.{
  Script, done, next_tick, set_timer, clear, Outcome, ok, overflow, freed, no_fuel, Timer,
  TimerPool, create_timer, push_tick, start, clear_time, run, id_max,
}
use threadjs_lib.Timers.Valid.{
  insert-Distinct, ticks, work, IsValid, Safe, Safe-then, work-append, work_mono, alive_timer,
  popped-IsValid, same_pool, Keeps, Keeps-trans,
}

abbrev pub created : Script → Timer
created cb = record { fn = cb; has_pool = true; started = none }

module _ (w : TimerPool) (h : IsValid w) where
  pub fresh_id : find (w.id + 1) w.timers ≡ none
  fresh_id = elim (Option-cases (find (w.id + 1) w.timers)) [
    | inl e ↦ e
    | inr (t, e) ↦
        elim (above (find-AllKeys (λ i. i ≤ w.id) (w.id + 1) w.timers h.timers_old e)) [ ]
  ]
    where
      above : w.id + 1 ≤ w.id → ⊥
      above le = omega arith

  find_new :
      (cb : Script) (j : ℕ)
      → find j (StdMap.insert (w.id + 1) (created cb) w.timers)
        ≡ (if w.id + 1 == j then some (created cb) else find j w.timers)
  find_new cb j = find-insert_new (w.id + 1) j _ w.timers fresh_id

  create_timer-IsValid :
      (cb : Script)
      → Safe
          (λ (i, w'). Keeps 0 w w' × (find i w'.timers ≡ some (created cb)) × (i ≤ w'.id))
          (create_timer cb w)
  unfolding create_timer
  create_timer-IsValid cb = elim (Bool-cases (ltb w.id id_max)) [
    | inr full ↦ rw full tt
    | inl room ↦ rw room (
      record {
        valid = record {
          queue_old = All-map (λ i le. omega arith) w.tick_queue h.queue_old;
          timers_old =
              insert-AllKeys (λ i. i ≤ w.id + 1) (w.id + 1) _ w.timers (omega arith)
                (All-map (λ e le. omega arith) w.timers h.timers_old);
          pool_distinct = insert-Distinct (w.id + 1) w.pool h.pool_distinct;
          pool_alive = λ i in_pool.
              ground (
                arith,
                find_new cb i,
                contains-insert (w.id + 1) i w.pool,
                h.pool_alive i,
                in_pool,
              );
        };
        less = omega (
          arith,
          work_mono w.tick_queue w.timers (StdMap.insert (w.id + 1) (created cb) w.timers)
              (All-map (λ i le. ground (arith, find_new cb i)) w.tick_queue h.queue_old),
        );
        out = λ i le out alive. (
          omega arith,
          ground (arith, contains-insert (w.id + 1) i w.pool),
          ground (arith, find_new cb i),
        );
      },
      ground (arith, find_new cb (w.id + 1)),
      omega arith,
    )
  ]

  push_tick-IsValid :
      (i : ℕ) (t : Timer)
      → find i w.timers ≡ some t
      → i ≤ w.id
      → Keeps (suc (ticks t.fn)) w (push_tick i w)
  unfolding push_tick work
  push_tick-IsValid i t e le = record {
    valid = record {
      queue_old = All-append _ w.tick_queue (i ∷ []) h.queue_old (le, tt);
      timers_old = h.timers_old;
      pool_distinct = h.pool_distinct;
      pool_alive = h.pool_alive;
    };
    less = rw (work-append w.tick_queue (i ∷ []) w.timers, e) (omega arith);
    out = λ i le out alive. (le, out, alive);
  }

  -- A write to a timer that leaves its callback.
  assign-IsValid :
      (i : ℕ) (t t' : Timer)
      → find i w.timers ≡ some t
      → t.fn ≡ t'.fn
      → Keeps 0 w (record w { timers = StdMap.assign i t' w.timers })
  assign-IsValid i t t' e same = record {
    valid = record {
      queue_old = h.queue_old;
      timers_old = assign-AllKeys _ i t' w.timers h.timers_old;
      pool_distinct = h.pool_distinct;
      pool_alive =
          λ j in_pool. ground (arith, find-assign i j t' t w.timers e, h.pool_alive j in_pool);
    };
    less = omega (
      arith,
      work_mono w.tick_queue w.timers (StdMap.assign i t' w.timers) (
          All-map (λ j le. ground (arith, find-assign i j t' t w.timers e)) w.tick_queue
            h.queue_old),
    );
    out = λ j le out alive. (le, out, ground (arith, find-assign i j t' t w.timers e));
  }

  -- The end of a timer that is in the pool no more.
  pub without-IsValid :
      (i : ℕ) (t : Timer)
      → find i w.timers ≡ some t
      → contains i w.pool ≡ false
      → IsValid (without i t w)
        × (work w.tick_queue (without i t w).timers ≤ work w.tick_queue w.timers)
  without-IsValid i t e out = (
    record {
      queue_old = h.queue_old;
      timers_old = erase-AllKeys _ i _ (assign-AllKeys _ i _ w.timers h.timers_old);
      pool_distinct = h.pool_distinct;
      pool_alive =
          λ j in_pool. ground (arith, find-without i j w t e, h.pool_alive j in_pool, out, in_pool);
    },
    work_mono w.tick_queue w.timers _
        (All-map (λ j le. ground (arith, find-without i j w t e)) w.tick_queue h.queue_old),
  )

clear_time-IsValid : (i : ℕ) (w : TimerPool) → IsValid w → Safe (Keeps 0 w) (clear_time i w)
clear_time-IsValid i w h = elim (Bool-cases (contains i w.pool)) [
  | inr gone ↦ rw (clear_time_gone i w gone) (same_pool w h)
  | inl there ↦
      let (t, e) = alive_timer (find i w.timers) (h.pool_alive i there) in
      let popped : TimerPool = record w { pool = erase i w.pool } in
      let out : contains i (erase i w.pool) ≡ false = ground (arith, contains-erase i i w.pool) in
      let (valid, less) = without-IsValid popped (popped-IsValid i w h) i t e out in
      rw (clear_time_found i w t e there) (record {
        valid = valid;
        less = omega (arith, less);
        out = λ j le gone alive.
            (le, ground (arith, contains-erase i j w.pool), ground (arith, find-without i j w t e));
      })
]

start-IsValid :
    (to re i : ℕ) (w : TimerPool) (t : Timer)
    → IsValid w
    → find i w.timers ≡ some t
    → Safe (Keeps 0 w) (start to re i w)
unfolding start
start-IsValid to re i w t h e =
    rw
      (on_timer_found i w t e (λ t.
        ok (record w { timers = StdMap.assign i (record t { started = some (to, re) }) w.timers })))
      (assign-IsValid w h i t _ e refl)

Safe-Keeps :
    (m n k : ℕ) (w w' : TimerPool) (o : Outcome TimerPool)
    → m + n ≤ k
    → Keeps m w w'
    → (IsValid w' → Safe (Keeps n w') o)
    → Safe (Keeps k w) o
Safe-Keeps m n k w w' (ok w'') le a b = Keeps-trans m n k w w' w'' le a (b a.valid)
Safe-Keeps m n k w w' overflow le a b = tt
Safe-Keeps m n k w w' freed le a b = b a.valid
Safe-Keeps m n k w w' no_fuel le a b = b a.valid

-- A callback that creates and clears timers and asks for next ticks in any order uses no deleted
-- timer, keeps the pool valid, adds no more work to the queue than it asks for, and leaves a timer
-- that is out of the pool alive and out of it; the one other result is an overflow of the counter
-- of ids.
pub run-Keeps : (s : Script) (w : TimerPool) → IsValid w → Safe (Keeps (ticks s) w) (run s w)
unfolding run ticks
run-Keeps done w h = same_pool w h
run-Keeps (next_tick cb more) w h =
    Safe-then _ _ (create_timer cb w) _ (create_timer-IsValid w h cb) (λ (i, w₁) (made, found, le).
      Safe-Keeps (suc (ticks cb)) (ticks more) _ w (push_tick i w₁) (run more (push_tick i w₁))
        (omega arith)
        (Keeps-trans 0 _ _ w w₁ _ (omega arith) made (push_tick-IsValid w₁ made.valid i _ found le))
        (run-Keeps more (push_tick i w₁)))
run-Keeps (set_timer to re cb more) w h =
    Safe-then _ _ (create_timer cb w) _ (create_timer-IsValid w h cb) (λ (i, w₁) (made, found, le).
      Safe-then _ _ (start to re i w₁) _ (start-IsValid to re i w₁ _ made.valid found)
        (λ w₂ started.
          Safe-Keeps 0 (ticks more) _ w w₂ (run more w₂) (omega arith)
            (Keeps-trans 0 0 0 w w₁ w₂ (omega arith) made started) (run-Keeps more w₂)))
run-Keeps (clear i more) w h =
    Safe-then _ _ (clear_time i w) _ (clear_time-IsValid i w h) (λ w₁ cleared.
      Safe-Keeps 0 (ticks more) _ w w₁ (run more w₁) (omega arith) cleared (run-Keeps more w₁))
