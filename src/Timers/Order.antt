-- ===== src/Timers/Order.antt =====
-- src/timeImpl.cc, TimerPool::do_tick: in which order the next ticks run.
use threadjs_lib.Base.{
  ℕ, zero, suc, ◌<◌, ◌≡◌, refl, sym, ap, ◌∙◌, true, false, List, [], ◌∷◌, ◌++◌, none, some, arith,
  All, length, append_assoc, append-nil,
}
use threadjs_lib.IdContainer.{contains, erase}
use threadjs_lib.IdContainer.Lifetime.{contains-erase}
use threadjs_lib.StdMap.{find}
use threadjs_lib.Timers.Steps.{
  call_fn_there, without, find-without, leave_pool-delete_timer, pop_there,
}
use threadjs_lib.Timers.Valid.{Distinct}
use threadjs_lib.Timers.{
  done, ok, and_then, Timer, TimerPool, leave_pool, delete_timer, run, tick, do_tick, back,
}

abbrev pub reversed : List ℕ → List ℕ
reversed [] = []
reversed (i ∷ p) = reversed p ++ i ∷ []

back-append : (q : List ℕ) (i : ℕ) → back (q ++ i ∷ []) ≡ some (q, i)
unfolding back
back-append [] i = refl
back-append (j ∷ q) i =
    ap (λ o. elim o [ none ↦ some ([], j) | some (rest, k) ↦ some (j ∷ rest, k) ]) (back-append q i)

-- The timer `i` is in the pool and its callback does nothing.
abbrev pub Quiet : TimerPool → ℕ → Type 0
Quiet w i = (contains i w.pool ≡ true) × (t : Timer) × (find i w.timers ≡ some t) × (t.fn ≡ done)

-- The pool behind a round for `i`.
abbrev ticked : ℕ → Timer → List ℕ → TimerPool → TimerPool
ticked i t rest w =
    without i t (record w { tick_queue = rest; pool = erase i w.pool; ran = w.ran ++ i ∷ [] })

tick_quiet :
    (i : ℕ) (w : TimerPool) (t : Timer)
    → find i w.timers ≡ some t
    → t.fn ≡ done
    → tick i w ≡ ok (without i t (record w { ran = w.ran ++ i ∷ [] }))
unfolding tick run
tick_quiet i w t e d =
    let w' : TimerPool = record w { ran = w.ran ++ i ∷ [] } in
    ap (λ o. and_then (and_then o (leave_pool i)) (delete_timer i))
      (call_fn_there i w t w' e (ap (λ s. run s w') d) t e)
    ∙ leave_pool-delete_timer i w' t e

do_tick_round :
    (f i : ℕ) (rest : List ℕ) (w : TimerPool) (t : Timer)
    → w.tick_queue ≡ rest ++ i ∷ []
    → contains i w.pool ≡ true
    → find i w.timers ≡ some t
    → t.fn ≡ done
    → do_tick (suc f) w ≡ do_tick f (ticked i t rest w)
unfolding do_tick
do_tick_round f i rest w t q h e d =
    rw (do_tick, q)
      (rw (back-append rest i) (
        rw (pop_there i (record w { tick_queue = rest }) h) (
          ap (λ o. and_then o (do_tick f))
            (tick_quiet i (record w { tick_queue = rest; pool = erase i w.pool }) t e d))))

do_tick_empty : (f : ℕ) (w : TimerPool) → back w.tick_queue ≡ none → do_tick (suc f) w ≡ ok w
unfolding do_tick
do_tick_empty f w e = rw (do_tick, e) refl

-- The timers that still wait are what they were.
Quiet-ticked :
    (i : ℕ) (t : Timer) (rest : List ℕ) (w : TimerPool)
    → find i w.timers ≡ some t
    → (p : List ℕ) → contains i p ≡ false
    → All (Quiet w) p
    → All (Quiet (ticked i t rest w)) p
unfolding contains
Quiet-ticked i t rest w e [] new quiet = tt
Quiet-ticked i t rest w e (j ∷ p) new ((h, u, e', d), quiet) = (
  (ground (arith, contains-erase i j w.pool), u, ground (arith, find-without i j w t e), d),
  Quiet-ticked i t rest w e p (ground (arith, new)) quiet,
)

-- Next ticks that wait for timers in the pool, all different, whose callbacks do nothing, run in the
-- reverse of the order in which they were asked for, each once, with more fuel than there are ticks.
pub do_tick-reversed :
    (p : List ℕ) (f : ℕ) (w : TimerPool)
    → w.tick_queue ≡ reversed p
    → All (Quiet w) p
    → Distinct p
    → length p < f
    → (w' : TimerPool) × (do_tick f w ≡ ok w') × (w'.ran ≡ w.ran ++ p)
unfolding back
do_tick-reversed p zero w q quiet d le = ground arith
do_tick-reversed [] (suc f) w q quiet d le =
    (w, do_tick_empty f w (ap back q), sym (append-nil w.ran))
do_tick-reversed (i ∷ p) (suc f) w q ((h, t, e, d'), quiet) d le =
    let w₁ : TimerPool = ticked i t (reversed p) w in
    let (w', run', ran) =
      do_tick-reversed p f w₁ refl (Quiet-ticked i t (reversed p) w e p d.0 quiet) d.1
        (omega arith) in
    (w', do_tick_round f i (reversed p) w t q h e d' ∙ run', ran ∙ append_assoc w.ran (i ∷ []) p)
