-- ===== src/Life/System.antt =====
-- The two threads of src/main.cc at once: their steps come in any order, and between them the clock
-- of the thread's loop may go on.
use threadjs_lib.Base.{ℕ, ◌≤◌, ◌≡◌}
use threadjs_lib.Life.{Choice, Call, Thread, next, sub_step}
use threadjs_lib.Life.Calls.{check_id, call_step, receive, recv_delete_event}

module _ (hm hs m : ℕ) where
  pub data Step (s : Thread) : Thread → Type 0 where
    sub : {s' : Thread} (c : Choice) → sub_step hm hs c s ≡ next s' → Step s s'
    checks : {s' : Thread} (c : Call) → check_id c s ≡ next s' → Step s s'
    calls : {s' : Thread} → call_step hs m s ≡ next s' → Step s s'
    receives : {s' : Thread} → receive hm s ≡ next s' → Step s s'
    deletes : {s' : Thread} → recv_delete_event hm s ≡ next s' → Step s s'
    ticks : (t : ℕ) → s.now ≤ t → Step s (record s { now = t })

  pub data Reach (s : Thread) : Thread → Type 0 where
    start : Reach s s
    later : {t u : Thread} → Reach s t → Step t u → Reach s u
