-- ===== src/Timers/Freed.antt =====
-- src/timeImpl.cc: callbacks that clear a timer which is being called.
use threadjs_lib.Base.{
  ℕ, suc, ◌==◌, ◌≡◌, refl, ap, ◌∙◌, true, false, [], ◌∷◌, ◌++◌, none, some, if◌then◌else◌, arith,
  Bool-cases, inl, inr,
}
use threadjs_lib.IdContainer.Lifetime.{contains-erase}
use threadjs_lib.IdContainer.{contains, erase}
use threadjs_lib.StdMap.{find, find-assign, find-erase, find-assign_same, find-erase_same}
use threadjs_lib.StdMap
use threadjs_lib.Timers.Steps.{
  call_fn_there, call_fn_gone, on_timer_found, on_timer_gone, find-without, pop_there,
  leave_pool-delete_timer, without, clear_time_found,
}
use threadjs_lib.Timers.{
  done, clear, ok, freed, and_then, Timer, TimerPool, leave_pool, delete_timer, run, call_fn,
  do_tick, call, timeout_one_cb, timeout_repeat_cb, back, tick,
}

-- A call of a timer whose callback clears it: SaveCallFunction::call reads its target behind that.
call_self :
    (f i : ℕ) (w : TimerPool) (t : Timer)
    → find i w.timers ≡ some t
    → t.fn ≡ clear i done
    → contains i w.pool ≡ true
    → w.tick_queue ≡ []
    → call (suc f) i w ≡ freed
unfolding call do_tick run back
call_self f i w t e g h q =
    on_timer_found i w t e _
    ∙ ap (λ o. and_then o (call_fn i)) ticked
    ∙ call_fn_gone i w t (without i t (record called { pool = erase i w.pool })) e ran
        (find-erase_same i _)
  where
    called : TimerPool
    called = record w { ran = w.ran ++ i ∷ [] }

    ticked : (if t.has_pool then do_tick (suc f) w else ok w) ≡ ok w
    ticked = elim (Bool-cases t.has_pool) [ inl p ↦ rw (p, q) refl | inr p ↦ rw p refl ]

    ran : run t.fn called ≡ ok (without i t (record called { pool = erase i w.pool }))
    ran =
        ap (λ s. run s called) g ∙ ap (λ o. and_then o (run done)) (clear_time_found i called t e h)

-- An interval in the pool whose callback clears that timer and does nothing else is used after it
-- was deleted, when no next tick waits.
timeout_repeat_cb-clear :
    (f i : ℕ) (w : TimerPool) (t : Timer)
    → find i w.timers ≡ some t
    → t.fn ≡ clear i done
    → contains i w.pool ≡ true
    → w.tick_queue ≡ []
    → timeout_repeat_cb (suc f) i w ≡ freed
unfolding timeout_repeat_cb
timeout_repeat_cb-clear f i w t e g h q = call_self f i w t e g h q

-- A timeout in the pool whose callback clears that timer and does nothing else is used after it was
-- deleted, whatever the fuel, when no next tick waits.
pub timeout_one_cb-clear :
    (f i : ℕ) (w : TimerPool) (t : Timer)
    → find i w.timers ≡ some t
    → t.fn ≡ clear i done
    → contains i w.pool ≡ true
    → w.tick_queue ≡ []
    → timeout_one_cb (suc f) i w ≡ freed
unfolding timeout_one_cb
timeout_one_cb-clear f i w t e g h q =
    ap (λ o. and_then o (delete_timer i)) (call_self f i w t e g h q)

-- A timer in the pool is used after it was deleted when it is called while one next tick waits, of
-- another timer in the pool, whose callback clears the first and does nothing else.
pub call-clear :
    (f i j : ℕ) (w : TimerPool) (t u : Timer)
    → (j == i) ≡ false
    → find i w.timers ≡ some t
    → t.has_pool ≡ true
    → contains i w.pool ≡ true
    → find j w.timers ≡ some u
    → u.fn ≡ clear i done
    → contains j w.pool ≡ true
    → w.tick_queue ≡ j ∷ []
    → call (suc (suc f)) i w ≡ freed
unfolding call do_tick back tick run
call-clear f i j w t u other e in_pool h e' g h' q =
    on_timer_found i w t e _
    ∙ rw in_pool (ap (λ o. and_then o (call_fn i)) ticked ∙ on_timer_gone i last _ gone)
  where
    called : TimerPool
    called = record w { tick_queue = []; pool = erase j w.pool; ran = w.ran ++ j ∷ [] }

    after : TimerPool
    after = without i t (record called { pool = erase i called.pool })

    last : TimerPool
    last = without j u after

    still : find j after.timers ≡ some u
    still = ground (arith, find-without i j w t e)

    gone : find i last.timers ≡ none
    gone = ground (
      arith,
      find-without j i after u still,
      find-erase_same i (StdMap.assign i (record t { has_pool = false }) w.timers),
    )

    in_pool' : contains i (erase j w.pool) ≡ true
    in_pool' = ground (arith, contains-erase j i w.pool)

    ran_tick : call_fn j (record w { tick_queue = []; pool = erase j w.pool }) ≡ ok after
    ran_tick =
        call_fn_there j (record w { tick_queue = []; pool = erase j w.pool }) u after e'
          (ap (λ s. run s called) g
            ∙ ap (λ o. and_then o (run done)) (clear_time_found i called t e in_pool'))
          u still

    ticked : do_tick (suc (suc f)) w ≡ ok last
    ticked =
        rw (do_tick, q)
          (rw (pop_there j (record w { tick_queue = [] }) h') (
            ap
              (λ o.
                and_then (and_then (and_then o (leave_pool j)) (delete_timer j)) (do_tick (suc f)))
              ran_tick
            ∙ ap (λ o. and_then o (do_tick (suc f))) (leave_pool-delete_timer j after u still)))
