-- ===== src/Process/Safety.antt =====
-- src/main.cc: the threads of a process from its first j_create on, in any order of their turns.
use threadjs_lib.Base.{ℕ, ◌<◌, ◌≤◌, ◌≡◌, ◌≢◌, subst, List, ◌++◌, sym, arith}
use threadjs_lib.ObjectMap.{empty}
use threadjs_lib.Events.{EventData}
use threadjs_lib.Life.{Choice, Thread, Call, next, fault, sub_step}
use threadjs_lib.Life.Calls.{check_id, call_step}
use threadjs_lib.Life.Calling.{IsTimely, Asked, check_id-Asked, Asked-NoFault}
use threadjs_lib.Life.System
use threadjs_lib.Life.Keep.{Keeps}
use threadjs_lib.Life.Script.{sub_step-Keeps}
use threadjs_lib.Process.{
  Member, Process, Step, turn, creates, Reach, begins, later, view, moved, share, join, no_threads,
}
use threadjs_lib.Process.Inv.{Ok, Unmoved, Fits}
use threadjs_lib.Process.Turning.{turn-Ok, turn-Unmoved}
use threadjs_lib.Process.Making.{join-Ok}

no_threads-Ok : Ok no_threads
unfolding empty
no_threads-Ok = record {
  table = tt;
  named = tt;
  fits = λ i lt. absurd (omega (arith, lt));
  apart = λ i j lt lt' n. absurd (omega (arith, lt));
}

pub Step-Ok : (p q : Process) → Step p q → Ok p → Ok q
Step-Ok p q (turn {s} i lt step) h = turn-Ok p i s lt step h
Step-Ok p q (creates node a other new new' room made) h =
    join-Ok p node a other new new' room made h

pub Reach-Ok : (p q : Process) → Reach p q → Ok p → Ok q
Reach-Ok p q begins h = h
Reach-Ok p r (later {q} more d) h = Step-Ok q r d (Reach-Ok p q more h)

-- No thread goes away.
Step-size : (p q : Process) → Step p q → p.size ≤ q.size
unfolding share join
Step-size p q (turn i lt step) = omega arith
Step-size p q (creates node a other new new' room made) = omega arith

Reach-size : (p q : Process) → Reach p q → p.size ≤ q.size
Reach-size p q begins = omega arith
Reach-size p r (later {q} more d) = omega (arith, Step-size q r d, Reach-size p q more)

module _ (p : Process) (reach : Reach no_threads p) (i : ℕ) (lt : i < p.size) where
  there : Fits p (p.members i)
  there = (Reach-Ok no_threads p reach no_threads-Ok).fits i lt

  -- However many threads a process has started, and whatever the order in which they, their makers
  -- and j_create took their turns: while the ids fit in a uint32, the next statement of do_script of
  -- none of them uses memory that is not there.
  pub turn_safe :
      (c : Choice) → sub_step ((p.members i).hm) ((p.members i).hs) c (view p (p.members i)) ≢ fault
  turn_safe c e = subst (Keeps ((p.members i).hm) ((p.members i).hs) ((p.members i).m)) e (
      sub_step-Keeps ((p.members i).hm) ((p.members i).hs) ((p.members i).m) there.other c
        (view p (p.members i)) there.valid)

  -- At every point of a process with any number of threads, whose ids fit in a uint32, the
  -- messages that the maker of a thread has got are the first ones of those that this thread sent,
  -- in order.
  pub received_own :
      (q : List EventData) × ((p.members i).thread.received ++ q ≡ (p.members i).thread.posted)
  received_own = (there.valid.queue, there.valid.delivered)

  -- In a process whose ids fit in a uint32 a call of _stop, _send or _use_time that finds the id of
  -- its thread alive uses no memory that is not there when it does its work, whatever turns of
  -- other threads and calls of j_create come between, if the thread is then as the check left it
  -- and, for _use_time, has its loop.
  pub call_safe :
      (c : Call) (s : Thread) (q : Process)
      → check_id c (view p (p.members i)) ≡ next s
      → Reach (share p i (moved (p.members i) s)) q
      → q.members i ≡ moved (p.members i) s
      → IsTimely c (view q (q.members i))
      → call_step ((q.members i).hs) ((q.members i).m) (view q (q.members i)) ≢ fault
  unfolding share
  call_safe c s q asked between still timely =
      let a : Member = p.members i in
      let mid : Process = share p i (moved a s) in
      let ok : Ok q = Reach-Ok mid q between (
        Step-Ok p mid (turn i lt (System.checks c asked))
          (Reach-Ok no_threads p reach no_threads-Ok)) in
      let fit : Fits q (q.members i) = ok.fits i (omega (arith, lt, Reach-size mid q between)) in
      let found : Asked c (view q (moved a s)) =
        check_id-Asked a.hm a.hs a.m c (view p a) s there.valid asked in
      Asked-NoFault ((q.members i).hm) ((q.members i).hs) ((q.members i).m) c (view q (q.members i))
        fit.valid (subst (λ (x : Member). Asked c (view q x)) (sym still) found) timely

  -- At every point of a process whose ids fit in a uint32 a turn of another thread, or of its
  -- maker for it, leaves to a thread what is its own of what they share: its two handles and
  -- endpoints with what waits there, its id, and what its del_event names.
  pub turn_isolated :
      (j : ℕ) (s : Thread)
      → j < p.size
      → j ≢ i
      → System.Step ((p.members j).hm) ((p.members j).hs) ((p.members j).m) (view p (p.members j)) s
      → Unmoved p (share p j (moved (p.members j) s)) (p.members i)
  turn_isolated j s below n step =
      turn-Unmoved p j i s below lt n step (Reach-Ok no_threads p reach no_threads-Ok)
