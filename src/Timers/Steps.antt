-- ===== src/Timers/Steps.antt =====
-- src/timeImpl.cc: what the single operations do where the timer exists.
use threadjs_lib.Base.{
  ℕ, [], ◌∷◌, ◌++◌, ◌≡◌, refl, ap, ◌∙◌, Bool, true, false, none, some, if◌then◌else◌, ◌==◌, arith,
}
use threadjs_lib.IdContainer.{contains, erase}
use threadjs_lib.StdMap.{find, find-assign_same, find-erase_same, find-assign, find-erase}
use threadjs_lib.StdMap
use threadjs_lib.Timers.{
  Outcome, ok, freed, and_then, on_timer, Timer, TimerPool, pop, leave_pool, delete_timer,
  clear_time, run, call_fn,
}

-- The pool without the timer `i`, which it had told to leave.
abbrev pub without : ℕ → Timer → TimerPool → TimerPool
without i t w = record w {
  timers = StdMap.erase i (StdMap.assign i (record t { has_pool = false }) w.timers);
}

pub pop_there :
    (i : ℕ) (w : TimerPool)
    → contains i w.pool ≡ true
    → pop i w ≡ (true, record w { pool = erase i w.pool })
unfolding pop
pop_there i w h = rw h refl

pub pop_gone : (i : ℕ) (w : TimerPool) → contains i w.pool ≡ false → pop i w ≡ (false, w)
unfolding pop
pop_gone i w h = rw h refl

pub on_timer_gone :
    {B : Type 0} (i : ℕ) (w : TimerPool) (f : Timer → Outcome B)
    → find i w.timers ≡ none
    → on_timer i w f ≡ freed
on_timer_gone i w f e = ap (λ o. elim o [ none ↦ freed | some t ↦ f t ]) e

module _ (i : ℕ) (w : TimerPool) (t : Timer) (e : find i w.timers ≡ some t) where
  pub on_timer_found : {B : Type 0} (f : Timer → Outcome B) → on_timer i w f ≡ f t
  on_timer_found f = ap (λ o. elim o [ none ↦ freed | some t ↦ f t ]) e

  delete_timer_left :
      t.has_pool ≡ false → delete_timer i w ≡ ok (record w { timers = StdMap.erase i w.timers })
  unfolding delete_timer
  delete_timer_left left = on_timer_found _ ∙ rw left refl

module _ (i : ℕ) (w : TimerPool) (t : Timer) (e : find i w.timers ≡ some t) where
  -- setPool(0) and delete, as do_tick, j_clear_time and the pool's destructor have them.
  pub leave_pool-delete_timer : and_then (leave_pool i w) (delete_timer i) ≡ ok (without i t w)
  unfolding leave_pool
  leave_pool-delete_timer =
      ap (λ o. and_then o (delete_timer i)) (on_timer_found i w t e _)
      ∙ delete_timer_left i _ _ (find-assign_same i (record t { has_pool = false }) t w.timers e)
          refl

module _ (i : ℕ) (w : TimerPool) (t : Timer) (e : find i w.timers ≡ some t) where
  -- A clear of a timer in the pool.
  pub clear_time_found :
      contains i w.pool ≡ true
      → clear_time i w ≡ ok (without i t (record w { pool = erase i w.pool }))
  unfolding clear_time
  clear_time_found h =
      ap
        (λ (p : Bool × TimerPool).
          if p.0 then and_then (leave_pool i p.1) (delete_timer i) else ok p.1)
        (pop_there i w h)
      ∙ leave_pool-delete_timer i (record w { pool = erase i w.pool }) t e

pub clear_time_gone : (i : ℕ) (w : TimerPool) → contains i w.pool ≡ false → clear_time i w ≡ ok w
unfolding clear_time
clear_time_gone i w h =
    ap
      (λ (p : Bool × TimerPool).
        if p.0 then and_then (leave_pool i p.1) (delete_timer i) else ok p.1)
      (pop_gone i w h)

pub find-without :
    (i j : ℕ) (w : TimerPool) (t : Timer)
    → find i w.timers ≡ some t
    → find j (without i t w).timers ≡ (if i == j then none else find j w.timers)
find-without i j w t e = ground (
  arith,
  find-erase i j (without' w.timers),
  find-assign i j (record t { has_pool = false }) t w.timers e,
)
  where
    without' : StdMap.Map Timer → StdMap.Map Timer
    without' m = StdMap.assign i (record t { has_pool = false }) m

-- A call whose function came to an end, with the timer still there and without it.
module _ (i : ℕ) (w : TimerPool) (t : Timer) (w' : TimerPool) (e : find i w.timers ≡ some t)
    (r : run t.fn (record w { ran = w.ran ++ i ∷ [] }) ≡ ok w') where
  call_fn_run : call_fn i w ≡ on_timer i w' (λ t₁. ok w')
  unfolding call_fn
  call_fn_run =
      on_timer_found i w t e _ ∙ ap (λ o. and_then o (λ w₁. on_timer i w₁ (λ t₁. ok w₁))) r

  pub call_fn_there : (t' : Timer) → find i w'.timers ≡ some t' → call_fn i w ≡ ok w'
  call_fn_there t' e' = call_fn_run ∙ on_timer_found i w' t' e' _

  pub call_fn_gone : find i w'.timers ≡ none → call_fn i w ≡ freed
  call_fn_gone gone = call_fn_run ∙ on_timer_gone i w' _ gone
