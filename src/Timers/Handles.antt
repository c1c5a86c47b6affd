-- ===== src/Timers/Handles.antt =====
-- src/timeImpl.cc: what the functions of JavaScript that make a timer return, and j_clear_time of it.
use threadjs_lib.Base.{
  ℕ, ◌+◌, ◌≡◌, refl, sym, ap, ◌∙◌, Bool, true, false, List, [], ◌∷◌, none, some, if◌then◌else◌,
  arith, ltb, Bool-cases, inl, inr, subst,
}
use threadjs_lib.IdContainer.{contains, insert, erase}
use threadjs_lib.IdContainer.Lifetime.{contains-insert, erase-insert}
use threadjs_lib.StdMap.{
  find, is_some, find-insert_new, find-assign_same, erase-insert_new, erase-assign,
}
use threadjs_lib.StdMap
use threadjs_lib.Errors.{codes}
use threadjs_lib.Timers.{
  Script, Outcome, ok, overflow, freed, no_fuel, and_then, Timer, TimerPool, id_max, create_timer,
  push_tick, start, clear_time,
}
use threadjs_lib.Timers.Valid.{IsValid}
use threadjs_lib.Timers.Steps.{without, clear_time_found, on_timer_found}
use threadjs_lib.Timers.Callbacks.{created, fresh_id}
use threadjs_lib.Timers.Methods.{
  Arg, function, uint32, object, other, arg, Reply, handle, undefined, throws, fault, replied,
  cleared, j_time, FunctionCallback, j_set_timeout, j_set_interval, j_set_immediate, j_clear_time,
  j_next_tick, invoke,
}

-- The handle `i` that a call on `w` gave, which left `w₁`, and what clearing it leaves.
abbrev pub Clears : TimerPool → ℕ → TimerPool → Type 0
Clears w i w₁ =
    (i ≡ w.id + 1)
    × (invoke j_clear_time (object (some i) ∷ []) w₁
        ≡ undefined (record w { id = i; tick_queue = w₁.tick_queue }))

module _ (w : TimerPool) (h : IsValid w) where
  not_in_pool : contains (w.id + 1) w.pool ≡ false
  not_in_pool = elim (Bool-cases (contains (w.id + 1) w.pool)) [
    | inr out ↦ out
    | inl inside ↦ cc (h.pool_alive (w.id + 1) inside, fresh_id w h)
  ]

  -- A timer that was just made, in a pool that has nothing else new.
  new_Clears :
      (t : Timer) (m : StdMap.Map Timer) (q : List ℕ)
      → find (w.id + 1) m ≡ some t
      → StdMap.erase (w.id + 1) m ≡ w.timers
      → Clears w
          (w.id + 1)
          (record w { timers = m; pool = insert (w.id + 1) w.pool; id = w.id + 1; tick_queue = q })
  unfolding invoke
  new_Clears t m q there rest =
      let i : ℕ = w.id + 1 in
      let w₁ : TimerPool = record w {
        timers = m;
        pool = insert i w.pool;
        id = i;
        tick_queue = q;
      } in
      let in_pool : contains i w₁.pool ≡ true = ground (arith, contains-insert i i w.pool) in
      let timers : StdMap.erase i (StdMap.assign i (record t { has_pool = false }) m) ≡ w.timers =
        erase-assign i _ m ∙ rest in
      let pool : erase i (insert i w.pool) ≡ w.pool = erase-insert i w.pool not_in_pool in
      let left : ◌≡◌ {A = Outcome TimerPool}
          (ok (without i t (record w₁ { pool = erase i w₁.pool })))
          (ok (record w { id = i; tick_queue = q })) =
        ap (λ ms. ok (record w₁ { timers = ms; pool = erase i w₁.pool })) timers
        ∙ ap (λ ks. ok (record w₁ { timers = w.timers; pool = ks })) pool in
      (refl, ap cleared (clear_time_found i w₁ t there in_pool ∙ left))

  abbrev made_with : Script → TimerPool
  made_with cb = record w {
    timers = StdMap.insert (w.id + 1) (created cb) w.timers;
    pool = insert (w.id + 1) w.pool;
    id = w.id + 1;
  }

  new_timer :
      (cb : Script)
      → find (w.id + 1) (StdMap.insert (w.id + 1) (created cb) w.timers) ≡ some (created cb)
  new_timer cb =
      ground (arith, find-insert_new (w.id + 1) (w.id + 1) (created cb) w.timers (fresh_id w h))

  ticked : (cb : Script) → Clears w (w.id + 1) (push_tick (w.id + 1) (made_with cb))
  unfolding push_tick
  ticked cb =
      new_Clears (created cb) _ _ (new_timer cb)
        (erase-insert_new (w.id + 1) (created cb) w.timers (fresh_id w h))

  start_made :
      (cb : Script) (timeout repeat : ℕ)
      → start timeout repeat (w.id + 1) (made_with cb)
        ≡ ok (record (made_with cb) {
          timers =
              StdMap.assign
                (w.id + 1)
                (record (created cb) { started = some (timeout, repeat) })
                (made_with cb).timers;
        })
  unfolding start
  start_made cb timeout repeat =
      on_timer_found (w.id + 1) (made_with cb) (created cb) (new_timer cb) _

  timed :
      (cb : Script) (timeout repeat : ℕ)
      → Clears w (w.id + 1) (record (made_with cb) {
        timers =
            StdMap.assign
              (w.id + 1)
              (record (created cb) { started = some (timeout, repeat) })
              (made_with cb).timers;
      })
  timed cb timeout repeat =
      new_Clears (record (created cb) { started = some (timeout, repeat) }) _ _
        (find-assign_same (w.id + 1) _ (created cb) _ (new_timer cb))
        (erase-assign (w.id + 1) _ (made_with cb).timers
          ∙ erase-insert_new (w.id + 1) (created cb) w.timers (fresh_id w h))

  -- What a handle that a call gave clears.
  abbrev pub AllClear : Reply → Type 0
  AllClear (handle i w₁) = Clears w i w₁
  AllClear _ = Unit {0}

  j_time-AllClear :
      (args : List Arg) (timeout repeat : ℕ) (is_tick : Bool)
      → AllClear (j_time args timeout repeat is_tick w)
  unfolding j_time create_timer push_tick start
  j_time-AllClear args timeout repeat is_tick = from (arg 0 args) is_tick
    where
      from :
          (a : Arg) (b : Bool)
          → AllClear (elim a [
            | function cb ↦ replied (
                and_then (create_timer cb w) (λ (i, w₁).
                  if b
                  then ok (i, push_tick i w₁)
                  else and_then (start timeout repeat i w₁) (λ w₂. ok (i, w₂))))
            | _ ↦ throws (codes "callback function is null")
          ])
      from (uint32 n) b = tt
      from (object o) b = tt
      from other b = tt
      from (function cb) b = elim (Bool-cases (ltb w.id id_max)) [
        | inr full ↦ rw (create_timer, full) tt
        | inl room ↦ rw (create_timer, room) (both b)
      ]
        where
          both :
              (b : Bool)
              → AllClear (
                  replied (
                    if b
                    then ok (w.id + 1, push_tick (w.id + 1) (made_with cb))
                    else and_then
                        (start timeout repeat (w.id + 1) (made_with cb))
                        (λ w₂. ok (w.id + 1, w₂))))
          both true = ticked cb
          both false =
              subst (λ o. AllClear (replied (and_then o (λ w₂. ok (w.id + 1, w₂)))))
                (sym (start_made cb timeout repeat)) (timed cb timeout repeat)

  -- The handle that one of the functions gave on a valid pool is clear.
  pub invoke-AllClear : (fn : FunctionCallback) (args : List Arg) → AllClear (invoke fn args w)
  unfolding invoke
  invoke-AllClear j_set_immediate args = j_time-AllClear args 0 0 false
  invoke-AllClear j_next_tick args = j_time-AllClear args 0 0 true
  invoke-AllClear j_set_timeout args = from (arg 1 args)
    where
      from :
          (a : Arg)
          → AllClear (elim a [
            | uint32 delay ↦ j_time args delay 0 false w
            | _ ↦ throws (codes "delay milliseconds is null")
          ])
      from (uint32 delay) = j_time-AllClear args delay 0 false
      from (function cb) = tt
      from (object o) = tt
      from other = tt
  invoke-AllClear j_set_interval args = from (arg 1 args)
    where
      from :
          (a : Arg)
          → AllClear (elim a [
            | uint32 repeat ↦ j_time args repeat repeat false w
            | _ ↦ throws (codes "repeat milliseconds is null")
          ])
      from (uint32 repeat) = j_time-AllClear args repeat repeat false
      from (function cb) = tt
      from (object o) = tt
      from other = tt
  invoke-AllClear j_clear_time args = from (arg 0 args)
    where
      cleared_AllClear : (o : Outcome TimerPool) → AllClear (cleared o)
      cleared_AllClear (ok w') = tt
      cleared_AllClear overflow = tt
      cleared_AllClear freed = tt
      cleared_AllClear no_fuel = tt

      from :
          (a : Arg)
          → AllClear (elim a [
            | object none ↦ fault
            | object (some id) ↦ cleared (clear_time id w)
            | _ ↦ undefined w
          ])
      from (object none) = tt
      from (object (some id)) = cleared_AllClear (clear_time id w)
      from (function cb) = tt
      from (uint32 n) = tt
      from other = tt

-- On a valid pool clearTimeout, clearInterval and clearImmediate undo what setTimeout, setInterval,
-- setImmediate or _next_tick did whose handle they get: the timers and the pool are as before the
-- call, the counter is one higher and the queue of next ticks as the call left it.
pub clear_time-invoke :
    (fn : FunctionCallback) (args : List Arg) (i : ℕ) (w w₁ : TimerPool)
    → IsValid w
    → invoke fn args w ≡ handle i w₁
    → (i ≡ w.id + 1)
      × (invoke j_clear_time (object (some i) ∷ []) w₁
          ≡ undefined (record w { id = i; tick_queue = w₁.tick_queue }))
clear_time-invoke fn args i w w₁ h e = subst (AllClear w h) e (invoke-AllClear w h fn args)
