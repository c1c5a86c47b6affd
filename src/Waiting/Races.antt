-- ===== src/Waiting/Races.antt =====
-- src/tools.h and src/main.cc: two things that the callers of wait have to reckon with.
use threadjs_lib.Base.{ℕ, ◌≡◌, refl, true, false, List, [], ◌∷◌}
use threadjs_lib.Waiting.{throws, must_unlock, lock, get_data}
use threadjs_lib.Waiting.System.{
  waiting, woken, resting, System, calls_wait, locks, wakes_spuriously, finds_free, Reach, start,
  later,
}

-- The message of wait goes out before the lock is taken. For every message there is a run in which
-- the main thread answers it by notify at once, gets false, and the sub thread then suspends itself.
pub notify_too_early :
    (e : List ℕ)
    → (s : System) × Reach false s
      × (s.sent ≡ e ∷ [])
      × (s.answers ≡ false ∷ [])
      × (s.given ≡ [])
      × (s.sub ≡ waiting)
      × (s.main ≡ resting)
unfolding lock
notify_too_early e = (
  _,
  later (later (later start (calls_wait e refl refl)) (finds_free refl refl)) (locks refl refl),
  refl,
  refl,
  refl,
  refl,
  refl,
)

-- lock() waits without a loop. If uv_cond_wait returns with no broadcast, as it may, then for every
-- message there is a run in which j_wait goes on to getData while the lock is taken, which throws.
pub getdata_throws :
    (e : List ℕ)
    → (s : System) × Reach true s
      × (s.sent ≡ e ∷ [])
      × (s.answers ≡ [])
      × (s.sub ≡ woken)
      × (get_data s.wait ≡ throws must_unlock)
unfolding lock get_data
getdata_throws e = (
  _,
  later (later (later start (calls_wait e refl refl)) (locks refl refl))
      (wakes_spuriously refl refl),
  refl,
  refl,
  refl,
  refl,
)
