-- ===== src/Timers/Pool.antt =====
-- src/timeImpl.cc, the end of a TimerPool.
use threadjs_lib.Base.{ℕ, ◌≡◌, refl, ap, ◌∙◌, true, List, [], ◌∷◌, none, if◌then◌else◌, arith}
use threadjs_lib.IdContainer.{contains}
use threadjs_lib.StdMap.{find, is_some}
use threadjs_lib.Timers.Steps.{without, find-without, leave_pool-delete_timer}
use threadjs_lib.Timers.Valid.{IsValid, Distinct, alive_timer}
use threadjs_lib.Timers.{Outcome, ok, and_then, TimerPool, delete_all, delete_pool}

delete_all-find :
    (is : List ℕ) (w : TimerPool)
    → Distinct is
    → ((i : ℕ) → contains i is ≡ true → is_some (find i w.timers) ≡ true)
    → (w' : TimerPool) × (delete_all is w ≡ ok w')
      × ((j : ℕ) → find j w'.timers ≡ (if contains j is then none else find j w.timers))
unfolding delete_all contains
delete_all-find [] w d alive = (w, refl, λ j. refl)
delete_all-find (i ∷ is) w d alive =
    let (t, e) = alive_timer (find i w.timers) (alive i (ground arith)) in
    let (w', done, found) =
      delete_all-find is (without i t w) d.1
        (λ j h. ground (arith, find-without i j w t e, alive j, d.0, h)) in
    (
      w',
      ap (λ o. and_then o (delete_all is)) (leave_pool-delete_timer i w t e) ∙ done,
      λ j. ground (arith, found j, find-without i j w t e),
    )

-- The destructor of a valid pool empties it and deletes each timer that was in the pool, once, and
-- no other.
pub delete_pool-find :
    (w : TimerPool)
    → IsValid w
    → (w' : TimerPool) × (delete_pool w ≡ ok w')
      × (w'.pool ≡ [])
      × ((j : ℕ) → find j w'.timers ≡ (if contains j w.pool then none else find j w.timers))
unfolding delete_pool
delete_pool-find w h =
    let (w', e, found) = delete_all-find w.pool w h.pool_distinct h.pool_alive in
    let close : TimerPool → Outcome TimerPool = λ w'. ok (record w' { pool = [] }) in
    (record w' { pool = [] }, ap (λ o. and_then o close) e, refl, found)
