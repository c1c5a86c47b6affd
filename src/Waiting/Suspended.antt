-- ===== src/Waiting/Suspended.antt =====
-- src/tools.h and src/main.cc: how long a thread in j_wait stays suspended, if uv_cond_wait returns
-- only after a broadcast.
use threadjs_lib.Base.{
  ℕ, ◌+◌, ◌≡◌, ◌≢◌, ap, Bool, true, false, List, [], ◌∷◌, ◌++◌, Option, none, some, refl, arith,
  length, length-append,
}
use threadjs_lib.Waiting.{fresh, lock, set_data, unlock, get_data, reply_text}
use threadjs_lib.Waiting.Handover.{Inv, Reach-Inv}
use threadjs_lib.Waiting.System.{
  running, resting, Reach, waiting, System, Step, calls_wait, wait_fails, locks, wakes_spuriously,
  takes, finds_free, finds_locked, sets, sets_nothing, unlocks,
}

-- The states of later moments.
pub data Later (spurious : Bool) (s : System) : System → Type 0 where
  now : Later spurious s s
  next : {t u : System} → Later spurious s t → Step spurious t u → Later spurious s u

-- What became of a thread that was suspended in `s`.
data Since (s t : System) : Type 0 where
  let_go : (k : ℕ) → length t.given ≡ length s.given + 1 + k → Since s t
  still :
      t.given ≡ s.given → t.sub ≡ waiting → t.sent ≡ s.sent → t.returned ≡ s.returned → Since s t

-- A step that adds nothing to `given` keeps it.
given_grows : {s t : System} → Step false s t → (k : ℕ) × (length t.given ≡ length s.given + k)
given_grows (calls_wait e p q) = (0, omega arith)
given_grows (wait_fails p q) = (0, omega arith)
given_grows (locks p q) = (0, omega arith)
given_grows (wakes_spuriously p q) = (0, omega arith)
given_grows (takes p q) = (0, omega arith)
given_grows (finds_free p q) = (0, omega arith)
given_grows (finds_locked arg p q) = (0, omega arith)
given_grows (sets p q) = (0, omega arith)
given_grows (sets_nothing p) = (0, omega arith)
given_grows {s} (unlocks {arg} p q) = (1, length-append s.given (arg ∷ []))

let_go_on :
    {s : System} (t : System) {u : System} (k : ℕ)
    → length t.given ≡ length s.given + 1 + k
    → (j : ℕ) × (length u.given ≡ length t.given + j)
    → Since s u
let_go_on t k e (j, f) = let_go (k + j) (omega arith)

Step-Since : {s t u : System} → Since s t → Step false t u → Since s u
Step-Since {t = t} (let_go k e) st = let_go_on t k e (given_grows st)
Step-Since (still g at p q) (calls_wait e x y) = absurd cc
Step-Since (still g at p q) (wait_fails x y) = still g at p q
Step-Since (still g at p q) (locks x y) = absurd cc
Step-Since (still g at p q) (wakes_spuriously x y) = absurd cc
Step-Since (still g at p q) (takes x y) = absurd cc
Step-Since (still g at p q) (finds_free x y) = still g at p q
Step-Since (still g at p q) (finds_locked arg x y) = still g at p q
Step-Since (still g at p q) (sets x y) = still g at p q
Step-Since (still g at p q) (sets_nothing x) = still g at p q
Step-Since {s} {t} (still g at p q) (unlocks {arg} x y) =
    let_go 0 (rw (length-append t.given (arg ∷ [])) (rw g (omega arith)))

Later-Since : {s t : System} → s.sub ≡ waiting → Later false s t → Since s t
Later-Since at now = still refl at refl refl
Later-Since at (next l st) = Step-Since (Later-Since at l) st

-- Whenever the thread is suspended and the main thread not in a notify, without spurious wake-ups
-- up to then, a notify can end the wait: there are steps of the two to a moment at which the thread
-- is out of j_wait, which returned the argument up to its first NUL, or true without one, the main
-- thread is out of j_notify, which answered true, and the WaitThread is as when it was new.
pub notify-wait :
    {s : System} (arg : Option (List ℕ))
    → Reach false s
    → s.sub ≡ waiting
    → s.main ≡ resting
    → (t : System) × Later false s t
      × (t.sub ≡ running)
      × (t.main ≡ resting)
      × (t.answers ≡ s.answers ++ true ∷ [])
      × (t.returned ≡ s.returned ++ reply_text arg ∷ [])
      × (t.wait ≡ fresh)
unfolding fresh lock set_data unlock get_data
notify-wait {s} arg r at idle = answered arg
  where
    v : Inv s
    v = Reach-Inv r

    taken : s.wait.locked ≡ true
    taken = ground (arith, v.suspended)

    empty : s.wait.reply ≡ none
    empty = rw (at, idle) at v.held

    answered :
        (arg : Option (List ℕ))
        → (t : System) × Later false s t
          × (t.sub ≡ running)
          × (t.main ≡ resting)
          × (t.answers ≡ s.answers ++ true ∷ [])
          × (t.returned ≡ s.returned ++ reply_text arg ∷ [])
          × (t.wait ≡ fresh)
    answered none = (
      _,
      next
          (next (next (next now (finds_locked none idle taken)) (sets_nothing refl))
            (unlocks {w = record s.wait { locked = false }} refl (rw taken refl)))
          (takes {w = record { locked = false; reply = none }} {r = none} (rw at refl)
            (rw empty refl)),
      refl,
      refl,
      refl,
      refl,
      refl,
    )
    answered (some d) = (
      _,
      next
          (next
            (next (next now (finds_locked (some d) idle taken))
              (sets {d = d} {w = record s.wait { reply = some d }} refl (rw taken refl)))
            (unlocks {w = record { locked = false; reply = some d }} refl (rw taken refl)))
          (takes {w = record { locked = false; reply = none }} {r = some d} (rw at refl) refl),
      refl,
      refl,
      refl,
      refl,
      refl,
    )

-- A thread that is suspended in wait stays so until a notify has answered true: at any later moment up to which none has, without spurious wake-ups,
-- it is suspended still, has sent nothing more, and no wait call has returned.
suspended_until_given :
    {s t : System}
    → s.sub ≡ waiting
    → Later false s t
    → t.given ≡ s.given
    → (t.sub ≡ waiting) × (t.sent ≡ s.sent) × (t.returned ≡ s.returned)
suspended_until_given {s} {t} at l same = elim (Later-Since at l) [
  | let_go k e ↦ absurd (longer k e (ap length same))
  | still _ w p q ↦ (w, p, q)
]
  where
    longer : (k : ℕ) → length t.given ≡ length s.given + 1 + k → length t.given ≢ length s.given
    longer k e f = omega arith
