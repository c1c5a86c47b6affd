-- ===== src/Waiting/Handover.antt =====
-- src/tools.h and src/main.cc: what passes between wait and notify, if uv_cond_wait returns only
-- after a broadcast.
use threadjs_lib.Base.{
  ℕ, ◌≡◌, ◌≢◌, if◌then◌else◌, refl, Bool, true, false, List, [], ◌∷◌, ◌++◌, Option, none, some,
  arith, append-nil, map, map-append,
}
use threadjs_lib.Waiting.{
  WaitThread, ok, on_ok, lock, unlock, set_data, get_data, notify, reply_text,
}
use threadjs_lib.Waiting.System.{
  Sub, running, sending, waiting, woken, Main, resting, looked, ready, System, sub_call, main_call,
  Step, broadcast, calls_wait, wait_fails, locks, wakes_spuriously, takes, finds_free, finds_locked,
  sets, sets_nothing, unlocks, Reach, start, later,
}

abbrev pub is_waiting : Sub → Bool
is_waiting waiting = true
is_waiting _ = false

-- In j_notify, behind its look at a lock that was taken.
abbrev pub is_busy : Main → Bool
is_busy resting = false
is_busy _ = true

-- The reply on its way to a thread that is awake.
abbrev pub in_flight : Sub → Option (List ℕ) → List (Option (List ℕ))
in_flight woken r = reply_text r ∷ []
in_flight _ r = []

-- Which reply the object holds.
abbrev IsReply : Sub → Main → Option (List ℕ) → Type 0
IsReply woken _ r = Unit {0}
IsReply _ (ready arg) r = r ≡ arg
IsReply _ _ r = r ≡ none

pub record Inv (s : System) : Type 0 where
  pub suspended : is_waiting s.sub ≡ s.wait.locked
  pub busy : is_busy s.main ≡ true → s.wait.locked ≡ true
  pub handed : map reply_text s.given ≡ s.returned ++ in_flight s.sub s.wait.reply
  pub held : IsReply s.sub s.main s.wait.reply

takes-Inv :
    {s : System} {w : WaitThread} {r : Option (List ℕ)}
    → s.sub ≡ woken
    → get_data s.wait ≡ ok (r, w)
    → Inv s
    → Inv (record s { wait = w; sub = running; returned = s.returned ++ reply_text r ∷ [] })
unfolding get_data
takes-Inv {s} {w} {r} p q v = ground (arith, v.busy, append-nil (s.returned ++ reply_text r ∷ []))

unlocks-Inv :
    {s : System} {w : WaitThread} {arg : Option (List ℕ)}
    → s.main ≡ ready arg
    → unlock s.wait ≡ ok w
    → Inv s
    → Inv (record s {
      wait = w;
      sub = broadcast s.sub;
      main = resting;
      answers = s.answers ++ true ∷ [];
      given = s.given ++ arg ∷ [];
    })
unfolding unlock
unlocks-Inv {s} {arg = arg} p q v =
    ground (arith, append-nil s.returned, map-append reply_text s.given (arg ∷ []))

Step-Inv : {s t : System} → Step false s t → Inv s → Inv t
unfolding lock set_data
Step-Inv (calls_wait e p q) v = ground (arith, v.busy)
Step-Inv (wait_fails p q) v = v
Step-Inv (locks p q) v = ground (arith, v.busy)
Step-Inv (wakes_spuriously p q) v = cc
Step-Inv (takes p q) v = takes-Inv p q v
Step-Inv (finds_free p q) v = ground (arith, v.busy)
Step-Inv (finds_locked arg p q) v = ground (arith, v.busy)
Step-Inv (sets p q) v = ground (arith, v.busy)
Step-Inv (sets_nothing p) v = ground (arith, v.busy)
Step-Inv (unlocks p q) v = unlocks-Inv p q v

pub Reach-Inv : {s : System} → Reach false s → Inv s
Reach-Inv start = record { suspended = refl; busy = λ e. cc; handed = refl; held = refl }
Reach-Inv (later r st) = Step-Inv st (Reach-Inv r)

-- In every state that j_wait and j_notify reach in any order of their steps, without spurious wake-
-- ups, the arguments of the notify calls that answered true, each up to its first NUL, are in order
-- what the wait calls returned and the one reply on its way.
pub wait_returns_given :
    {s : System}
    → Reach false s
    → map reply_text s.given ≡ s.returned ++ in_flight s.sub s.wait.reply
wait_returns_given r = (Reach-Inv r).handed

sub_call_ok : (s : System) → Inv s → (w : WaitThread) × (sub_call s.sub s.wait ≡ ok w)
unfolding sub_call
sub_call_ok s v = by_place s.sub refl
  where
    by_place : (p : Sub) → s.sub ≡ p → (w : WaitThread) × (sub_call s.sub s.wait ≡ ok w)
    by_place running e = (s.wait, rw e)
    by_place sending e = (record s.wait { locked = true }, rw e (ground (arith, v.suspended)))
    by_place waiting e = (s.wait, rw e)
    by_place woken e = (record s.wait { reply = none }, rw e (ground (arith, v.suspended)))

main_call_ok : (s : System) → Inv s → (w : WaitThread) × (main_call s.main s.wait ≡ ok w)
unfolding main_call
main_call_ok s v = by_place s.main refl
  where
    by_place : (p : Main) → s.main ≡ p → (w : WaitThread) × (main_call s.main s.wait ≡ ok w)
    by_place resting e = (s.wait, rw e)
    by_place (looked none) e = (s.wait, rw e)
    by_place (looked (some d)) e = (record s.wait { reply = some d }, rw e (ground (arith, v.busy)))
    by_place (ready a) e = (record s.wait { locked = false }, rw e (ground (arith, v.busy)))

-- No method throws: in any reachable state the call of WaitThread that either thread is about to
-- make returns.
pub no_throw :
    {s : System}
    → Reach false s
    → ((w : WaitThread) × (sub_call s.sub s.wait ≡ ok w))
      × ((w : WaitThread) × (main_call s.main s.wait ≡ ok w))
no_throw {s} r = (sub_call_ok s (Reach-Inv r), main_call_ok s (Reach-Inv r))

-- A suspended thread is let go by nothing but a notify that answers true.
pub only_notify_wakes :
    {s t : System}
    → Step false s t
    → s.sub ≡ waiting
    → t.sub ≢ waiting
    → (t.answers ≡ s.answers ++ true ∷ []) × (t.sub ≡ woken)
only_notify_wakes (calls_wait e p q) at moved = cc
only_notify_wakes (wait_fails p q) at moved = cc
only_notify_wakes (locks p q) at moved = cc
only_notify_wakes (wakes_spuriously p q) at moved = cc
only_notify_wakes (takes p q) at moved = cc
only_notify_wakes (finds_free p q) at moved = absurd (moved at)
only_notify_wakes (finds_locked arg p q) at moved = absurd (moved at)
only_notify_wakes (sets p q) at moved = absurd (moved at)
only_notify_wakes (sets_nothing p) at moved = absurd (moved at)
only_notify_wakes (unlocks p q) at moved = (refl, ground arith)

-- What a notify with no other thread in between does, on both answers: it answers whether the lock
-- was taken; if it was, the lock is free, and the argument, if there is one, is the reply.
abbrev pub or_else : Option (List ℕ) → Option (List ℕ) → Option (List ℕ)
or_else none r = r
or_else (some d) r = some d

pub notify_lem :
    (arg : Option (List ℕ)) (w : WaitThread)
    → notify arg w
      ≡ ok
          (w.locked, if w.locked then record { locked = false; reply = or_else arg w.reply } else w)
unfolding notify
notify_lem none w = ground arith
notify_lem (some d) w = ground arith

-- The value that a notify gives is what getData gives in the wait that it ends, null without one.
pub notify-lock :
    (arg : Option (List ℕ)) (w : WaitThread)
    → w.locked ≡ false
    → w.reply ≡ none
    → on_ok (lock w) (λ w₁. on_ok (notify arg w₁) λ (_, w₂). get_data w₂) ≡ ok (arg, w)
unfolding lock get_data
notify-lock none w free empty = rw (free, lock) (rw (notify_lem none _) (ground arith))
notify-lock (some d) w free empty = rw (free, lock) (rw (notify_lem (some d) _) (ground arith))
